-- ===== src/Sqlalchemy/Loader.antt =====
-- flightsql/sqlalchemy.py, FlightSQLDialect.__init_subclass__: the DB API loader of a dialect class,
-- under the names that SQLAlchemy 2 and 1.4 call. A function is known by a number, so that `is`
-- compares numbers; the class inherits from one dialect class.
pub mod Laws
use flightsql_dbapi.Prelude.{ℕ, Bool, true, false, not, ◌<>◌, String, eqb, if◌then◌else◌}
use flightsql_dbapi.Errors.{foreign, Exn, python_error, Result, ok, raised, ◌>>=◌}

-- A member of the namespace of a class.
pub data Member : Type 0 where
  absent null_member other_member : Member
  class_method : ℕ → Member

-- A dialect class, by the function behind each of its two class methods.
pub record DialectClass : Type 0 where
  pub import_dbapi : ℕ
  pub dbapi : ℕ

abbrev type_error : String → Exn
type_error message = foreign (python_error ("TypeError: " <> message))

-- `_dbapi_loader_function`
unfoldable pub dbapi_loader_function : String → Member → Result ℕ
dbapi_loader_function name (class_method f) = ok f
dbapi_loader_function name _ = raised (type_error (name <> " must be declared with @classmethod"))

-- `cls.__dict__.get(name) is not None`
abbrev pub is_declared : Member → Bool
is_declared absent = false
is_declared null_member = false
is_declared _ = true

-- `getattr(cls, "import_dbapi").__func__` where the class itself has no loader of that name.
abbrev pub inherited_loader : DialectClass → Member → Result ℕ
inherited_loader parent absent = ok parent.import_dbapi
inherited_loader parent _ =
    raised (foreign (python_error "AttributeError: 'NoneType' object has no attribute '__func__'"))

abbrev pub one_loader : ℕ → ℕ → Result ℕ
one_loader import_loader legacy_loader =
    if not (eqb import_loader legacy_loader)
    then raised (type_error "define only import_dbapi or dbapi")
    else ok import_loader

-- The chain of tests, on whether each name is declared.
unfoldable pub selected_loader : DialectClass → Member → Member → Bool → Bool → Result ℕ
unfolding dbapi_loader_function
selected_loader parent direct_import direct_legacy true true =
    dbapi_loader_function "import_dbapi" direct_import >>= λ import_loader.
    dbapi_loader_function "dbapi" direct_legacy >>= one_loader import_loader
selected_loader parent direct_import direct_legacy true false =
    dbapi_loader_function "import_dbapi" direct_import
selected_loader parent direct_import direct_legacy false true =
    dbapi_loader_function "dbapi" direct_legacy
selected_loader parent direct_import direct_legacy false false =
    inherited_loader parent direct_import

-- `__init_subclass__`, for the class that is bound.
unfoldable pub init_subclass : DialectClass → Member → Member → Result DialectClass
unfolding selected_loader
init_subclass parent direct_import direct_legacy =
    selected_loader parent direct_import direct_legacy (is_declared direct_import)
      (is_declared direct_legacy)
    >>= λ loader. ok (record { import_dbapi = loader; dbapi = loader })
