-- ===== src/Tests/Compiler.antt =====
-- Raw fragments, binary literals and the loaders of dialect classes.
use flightsql_dbapi.Prelude.{ℕ, ◌≡◌, ◌≢◌, ◌↔◌, refl, Bool, true, false, some, [], ◌∷◌, ◌++◌, arith}
use flightsql_dbapi.Prelude.Text.{codes}
use flightsql_dbapi.Errors.{ok}
use flightsql_dbapi.Sqlalchemy.Url.{Text}
use flightsql_dbapi.Sqlalchemy.Compiler.{
  SqlaType, binary, other_affinity, bytes_value, Super, has_pyformat, check_raw_fragment,
  visit_empty_set_expr, render_literal_value,
}
use flightsql_dbapi.Sqlalchemy.Compiler.Fragment.{HoldsPyformat, check_raw_fragment-HoldsPyformat}
use flightsql_dbapi.Sqlalchemy.Compiler.Literal.{read_binary, render_literal_value-bytes}
use flightsql_dbapi.Sqlalchemy.Loader.{absent, class_method, DialectClass, init_subclass}

abbrev raw : Text
raw = codes "x LIKE '%(user name)s' AND y"

raw_pyformat : has_pyformat raw ≡ true
unfolding has_pyformat
raw_pyformat = refl

raw_percent : has_pyformat (codes "x LIKE '%()s' OR (a)s") ≡ false
unfolding has_pyformat
raw_percent = refl

check_raw_fragment-HoldsPyformat_example :
    (check_raw_fragment true true raw ≢ ok tt)
    ↔ ((◌≡◌ {A = Bool} true true) × (◌≡◌ {A = Bool} true true) × HoldsPyformat raw)
check_raw_fragment-HoldsPyformat_example = check_raw_fragment-HoldsPyformat true true raw

two_empty_columns : visit_empty_set_expr {A = ℕ} (1 ∷ 2 ∷ []) ≡ codes "SELECT 1, 1 WHERE 1 != 1"
unfolding visit_empty_set_expr
two_empty_columns = refl

abbrev type : SqlaType
type = record {
  is_tuple = false;
  element_types = [];
  should_evaluate_none = false;
  is_null = true;
  affinity = other_affinity;
}

abbrev super : Super (Unit {0})
super = record {
  visit_bindparam = λ within literal kwargs. ok (codes "?");
  with_literal_execute = λ b kwargs. kwargs;
  expanding_literal_binds = λ type values template. ok ([], codes "NULL");
  process_null = ok (codes "NULL");
  resolve_value_to_type = λ value. record type { affinity = binary };
  render_literal_value = λ value type. ok (codes "'text'");
}

bytes_literal : render_literal_value super (bytes_value (0 ∷ 171 ∷ [])) type ≡ ok (codes "X'00ab'")
unfolding render_literal_value
bytes_literal = refl

render_literal_value-bytes_example :
    (inside : Text) × (render_literal_value super (bytes_value (0 ∷ 171 ∷ [])) type
      ≡ ok (codes "X'" ++ inside))
    × (read_binary inside ≡ some (0 ∷ 171 ∷ []))
render_literal_value-bytes_example =
    render_literal_value-bytes super type (0 ∷ 171 ∷ []) (omega arith, (omega arith, tt)) refl

abbrev parent : DialectClass
parent = record { import_dbapi = 1; dbapi = 1 }

abbrev child : DialectClass
child = record { import_dbapi = 2; dbapi = 2 }

legacy_only : init_subclass parent absent (class_method 2) ≡ ok child
unfolding init_subclass
legacy_only = refl
