-- ===== src/Dbapi/Results.antt =====
-- flightsql/dbapi.py: column specifications, column descriptions, and the rows of a table.
pub mod Rows
use flightsql_dbapi.Prelude.{ℕ, Bool, Option, none, some, List, [], ◌∷◌, String, map}
use flightsql_dbapi.Dbapi.Types.{DataType, scalar, dictionary, Field, field, decimal}
use flightsql_dbapi.Dbapi.Types.Sql.{Predicate, SqlType, resolve_sql_type}

-- The entries of the dictionary; `default` and `comment` are always None.
pub record ColumnSpec : Type 0 where
  pub name : String
  pub sql_type : SqlType
  pub nullable : Bool

-- The seven items; `display_size` and `internal_size` are always None.
pub record Description : Type 0 where
  pub name : String
  pub type_code : SqlType
  pub precision : Option ℕ
  pub scale : Option ℕ
  pub null_ok : Bool

-- `field.type.value_type if pa.types.is_dictionary(field.type) else field.type`
unfoldable pub storage_type : DataType → DataType
storage_type (dictionary index value ordered) = value
storage_type type = type

unfoldable pub precision_and_scale : DataType → Option ℕ × Option ℕ
precision_and_scale (scalar (decimal precision scale)) = (some precision, some scale)
precision_and_scale type = (none, none)

module _ (known : Predicate → Bool) where
  unfoldable pub column_spec : Field → ColumnSpec
  unfolding resolve_sql_type
  column_spec (field name type nullable metadata) = record {
    name = name;
    sql_type = resolve_sql_type known type;
    nullable = nullable;
  }

  unfoldable pub column_specs : List Field → List ColumnSpec
  unfolding column_spec
  column_specs schema = map column_spec schema

  unfoldable pub description : Field → Description
  unfolding resolve_sql_type storage_type precision_and_scale
  description (field name type nullable metadata) = record {
    name = name;
    type_code = resolve_sql_type known type;
    precision = (precision_and_scale (storage_type type)).0;
    scale = (precision_and_scale (storage_type type)).1;
    null_ok = nullable;
  }

  unfoldable pub arrow_column_descriptions : List Field → List Description
  unfolding description
  arrow_column_descriptions schema = map description schema

-- `zip(a, b)` where each of `b` is a row already.
unfoldable pub zip_column : {V : Type 0} → List V → List (List V) → List (List V)
zip_column [] rows = []
zip_column (v ∷ vs) [] = []
zip_column (v ∷ vs) (row ∷ rows) = (v ∷ row) ∷ zip_column vs rows

-- `zip(*columns)`, as lists: without columns there are no rows.
unfoldable pub zip_columns : {V : Type 0} → List (List V) → List (List V)
unfolding zip_column
zip_columns [] = []
zip_columns (column ∷ []) = map (λ v. v ∷ []) column
zip_columns (column ∷ next ∷ columns) = zip_column column (zip_columns (next ∷ columns))
