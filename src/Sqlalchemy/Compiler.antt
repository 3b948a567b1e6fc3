-- ===== src/Sqlalchemy/Compiler.antt =====
-- flightsql/sqlalchemy.py, the compilers: RawSQLFragmentCompiler and LiteralBindCompiler. What the
-- superclass, SQLAlchemy's SQLCompiler, returns is a parameter, and so are Python's isoformat and
-- SQLAlchemy's resolution of a value to a type.
pub mod Fragment
pub mod Literal
use flightsql_dbapi.Prelude.{
  ℕ, ◌+◌, ◌/◌, ◌%◌, Bool, true, false, not, ◌&&◌, ◌||◌, Option, none, some, List, [], ◌∷◌, ◌++◌,
  map, String, eqb, ltb, if◌then◌else◌, drop,
}
use flightsql_dbapi.Prelude.Dict.{Dict, insert}
use flightsql_dbapi.Prelude.Text.{codes, starts_with}
use flightsql_dbapi.Errors.{foreign, Result, ok, raised, ◌>>=◌}
use flightsql_dbapi.Sqlalchemy.Reflection.{sqlalchemy_error}
use flightsql_dbapi.Sqlalchemy.Url.{Text}

-- `[^)]+\)s` at the head of a text, where the flag tells that a character of the name was read.
unfoldable pub closes_name : Bool → Text → Bool
unfolding starts_with
closes_name seen [] = false
closes_name seen (c ∷ s) =
    let rest = closes_name true s in if eqb c b')' then seen && starts_with s (codes "s") else rest

-- `%\([^)]+\)s` at the head of a text.
unfoldable pub opens_name : Text → Bool
unfolding closes_name
opens_name (a ∷ b ∷ s) = eqb a b'%' && (eqb b b'(' && closes_name false s)
opens_name _ = false

-- `re.search(r"%\([^)]+\)s", text)`
unfoldable pub has_pyformat : Text → Bool
unfolding opens_name
has_pyformat [] = false
has_pyformat (c ∷ s) = opens_name (c ∷ s) || has_pyformat s

-- `_check_raw_fragment`: `is_two` tells that this is SQLAlchemy 2, and `positional` is the dialect's.
unfoldable pub check_raw_fragment : Bool → Bool → Text → Result (Unit {0})
unfolding has_pyformat
check_raw_fragment is_two positional text =
    if is_two && (positional && has_pyformat text)
    then raised (sqlalchemy_error "CompileError" "raw SQL containing %(name)s is unsafe")
    else ok tt

-- `visit_textclause`, for the text and what the superclass returns.
unfoldable pub visit_textclause : Bool → Bool → Text → Result Text → Result Text
unfolding check_raw_fragment
visit_textclause is_two positional text visited =
    check_raw_fragment is_two positional text >>= λ done. visited

-- `visit_column`, for its `is_literal` and `name`, and what the superclass returns.
unfoldable pub visit_column : Bool → Bool → Bool → Text → Result Text → Result Text
unfolding check_raw_fragment
visit_column is_two positional is_literal name visited =
    (if is_literal then check_raw_fragment is_two positional name else ok tt) >>= λ done. visited

-- `", ".join("1" for _ in element_types)`
unfoldable pub ones : {A : Type 0} → List A → Text
ones [] = []
ones (a ∷ []) = codes "1"
ones (a ∷ b ∷ rest) = codes "1, " ++ ones (b ∷ rest)

-- `visit_empty_set_expr`
unfoldable pub visit_empty_set_expr : {A : Type 0} → List A → Text
unfolding ones
visit_empty_set_expr element_types =
    codes "SELECT " ++ (ones element_types ++ codes " WHERE 1 != 1")

pub data Affinity : Type 0 where
  date_time date time binary other_affinity : Affinity

-- What is read of a type of SQLAlchemy; `element_types` are the types of a tuple type.
pub record SqlaType : Type 0 where
  pub is_tuple : Bool
  pub element_types : List ℕ
  pub should_evaluate_none : Bool
  pub is_null : Bool
  pub affinity : Affinity

-- A value of Python, by what is asked of it: the ISO format, whether a time has a zone, whether a
-- float is finite, and the bytes.
pub data Value : Type 0 where
  none_value : Value
  datetime_value date_value : Text → Value
  time_value : Text → Bool → Value
  float_value : Text → Bool → Value
  bytes_value : List ℕ → Value
  other_value : ℕ → Value

-- The superclass and SQLAlchemy's visitor of NULL. `Keywords` are further keyword arguments.
pub record Super (Keywords : Type 0) : Type 0 where
  pub visit_bindparam : Bool → Bool → Keywords → Result Text
  pub with_literal_execute : Bool → Keywords → Keywords
  pub expanding_literal_binds : SqlaType → List Value → Option Text → Result (List ℕ × Text)
  pub process_null : Result Text
  pub resolve_value_to_type : Value → SqlaType
  pub render_literal_value : Value → SqlaType → Result Text

-- `f"{c:x}"` of a digit.
unfoldable pub hex_digit : ℕ → ℕ
hex_digit d = if ltb d 10 then b'0' + d else 87 + d

-- `bytes(value).hex()`
unfoldable pub hex : List ℕ → Text
unfolding hex_digit
hex [] = []
hex (b ∷ bytes) = hex_digit (b / 16) ∷ hex_digit (b % 16) ∷ hex bytes

abbrev pub quoted : String → Text → Text
quoted prefix text = codes prefix ++ (text ++ codes "'")

module _ {Keywords : Type 0} (super : Super Keywords) where
  -- `_literal_execute_expanding_parameter_literal_binds`
  abbrev pub expanding : SqlaType → List Value → Option Text → Result (List ℕ × Text)
  expanding type [] template =
      if type.is_tuple
      then ok ([], visit_empty_set_expr type.element_types)
      else super.expanding_literal_binds type [] template
  expanding type (v ∷ values) template = super.expanding_literal_binds type (v ∷ values) template

  -- `visit_bindparam`
  unfoldable pub visit_bindparam : Bool → Bool → Keywords → Result Text
  visit_bindparam within_columns_clause literal_binds kwargs =
      if literal_binds
      then super.visit_bindparam within_columns_clause true
          (super.with_literal_execute false kwargs)
      else super.visit_bindparam within_columns_clause false
          (super.with_literal_execute true kwargs)

  -- `render_literal_value` below the two tests on `None` and on an untyped value.
  abbrev pub render_typed : Value → SqlaType → Affinity → Result Text
  render_typed (datetime_value iso) type date_time = ok (quoted "TIMESTAMP '" iso)
  render_typed (date_value iso) type date = ok (quoted "DATE '" iso)
  render_typed (time_value iso true) type time =
      raised (sqlalchemy_error "CompileError" "time zone aware time literals are not supported")
  render_typed (time_value iso false) type time = ok (quoted "TIME '" iso)
  render_typed (float_value repr false) type affinity =
      raised (sqlalchemy_error "CompileError" "non-finite float literal is not supported")
  render_typed (bytes_value bytes) type binary = ok (quoted "X'" (hex bytes))
  render_typed value type affinity = super.render_literal_value value type

  abbrev pub resolved : Value → SqlaType → SqlaType
  resolved value type = if type.is_null then super.resolve_value_to_type value else type

  abbrev pub render_resolved : Value → SqlaType → Result Text
  render_resolved value type = render_typed value type type.affinity

  abbrev is_none_value : Value → Bool
  is_none_value none_value = true
  is_none_value _ = false

  -- `render_literal_value`
  unfoldable pub render_literal_value : Value → SqlaType → Result Text
  unfolding hex
  render_literal_value value type =
      if is_none_value value && not type.should_evaluate_none
      then super.process_null
      else render_resolved value (resolved value type)
