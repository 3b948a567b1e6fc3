-- ===== src/Sqlalchemy/Loader/Laws.antt =====
-- flightsql/sqlalchemy.py, __init_subclass__: which loader a class ends with.
use flightsql_dbapi.Prelude.{
  ℕ, ◌≡◌, refl, sym, subst, ◌∙◌, ◌⊎◌, inl, inr, true, not, ◌||◌, eqb, eq_of_eqb, unnegated,
}
use flightsql_dbapi.Errors.{ok, ok_injective, bind_ok, passed}
use flightsql_dbapi.Sqlalchemy.Loader.{
  Member, absent, null_member, other_member, class_method, DialectClass, is_declared,
  dbapi_loader_function, selected_loader, init_subclass,
}

-- A member that is declared is a class method of the loader.
abbrev pub Agrees : Member → ℕ → Type 0
Agrees absent loader = Unit {0}
Agrees null_member loader = Unit {0}
Agrees other_member loader = ⊥
Agrees (class_method f) loader = f ≡ loader

abbrev pub Bound : DialectClass → Member → Member → ℕ → Type 0
Bound parent direct_import direct_legacy loader =
    Agrees direct_import loader
    × Agrees direct_legacy loader
    × (((is_declared direct_import || is_declared direct_legacy) ≡ true)
        ⊎ (loader ≡ parent.import_dbapi))

selected_loader-Bound :
    (parent : DialectClass) (direct_import direct_legacy : Member) (loader : ℕ)
    → selected_loader parent direct_import direct_legacy
        (is_declared direct_import)
        (is_declared direct_legacy)
      ≡ ok loader
    → Bound parent direct_import direct_legacy loader
unfolding selected_loader dbapi_loader_function
selected_loader-Bound parent absent absent loader e = (tt, tt, inr (sym (ok_injective _ loader e)))
selected_loader-Bound parent absent null_member loader e =
    (tt, tt, inr (sym (ok_injective _ loader e)))
selected_loader-Bound parent null_member absent loader e = cc
selected_loader-Bound parent null_member null_member loader e = cc
selected_loader-Bound parent absent other_member loader e = cc
selected_loader-Bound parent absent (class_method f) loader e =
    (tt, ok_injective f loader e, inl refl)
selected_loader-Bound parent null_member other_member loader e = cc
selected_loader-Bound parent null_member (class_method f) loader e =
    (tt, ok_injective f loader e, inl refl)
selected_loader-Bound parent other_member absent loader e = cc
selected_loader-Bound parent other_member null_member loader e = cc
selected_loader-Bound parent other_member other_member loader e = cc
selected_loader-Bound parent other_member (class_method f) loader e = cc
selected_loader-Bound parent (class_method f) absent loader e =
    (ok_injective f loader e, tt, inl refl)
selected_loader-Bound parent (class_method f) null_member loader e =
    (ok_injective f loader e, tt, inl refl)
selected_loader-Bound parent (class_method f) other_member loader e = cc
selected_loader-Bound parent (class_method f) (class_method g) loader e =
    let (same, e') = passed (not (eqb f g)) _ _ loader e in
    let is_f = ok_injective f loader e' in
    (is_f, sym (eq_of_eqb f g (unnegated _ same)) ∙ is_f, inl refl)

-- A dialect class that is defined without an error has one loader under both names. Each loader
-- that it declares is a class method of that loader; where it declares none, it is the one of its
-- parent.
pub init_subclass-Bound :
    (parent cls : DialectClass) (direct_import direct_legacy : Member)
    → init_subclass parent direct_import direct_legacy ≡ ok cls
    → (cls.import_dbapi ≡ cls.dbapi) × Bound parent direct_import direct_legacy cls.import_dbapi
unfolding init_subclass
init_subclass-Bound parent cls direct_import direct_legacy e =
    let (loader, e0, f0) =
      bind_ok
        (selected_loader parent direct_import direct_legacy (is_declared direct_import)
          (is_declared direct_legacy))
        _ cls e in
    subst
      (λ c. (c.import_dbapi ≡ c.dbapi) × Bound parent direct_import direct_legacy c.import_dbapi)
      (ok_injective _ cls f0)
      (refl, selected_loader-Bound parent direct_import direct_legacy loader e0)
