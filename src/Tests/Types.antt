-- ===== src/Tests/Types.antt =====
-- A struct of nanosecond timestamps, and a list of them, normalized.
use flightsql_dbapi.Prelude.{◌≡◌, refl, true, false, Bool, none, some, String}
use flightsql_dbapi.Errors.{ok}
use flightsql_dbapi.Effects.Every.{Every}
use flightsql_dbapi.Dbapi.Types.{
  DataType, scalar, list_of, struct, field, nil, cons, timestamp, int64, nanosecond, microsecond,
  small, TimeUnit, contains_nanosecond, normalized_type,
}
use flightsql_dbapi.Dbapi.Types.Coarse.{Coarse, normalized_type-Coarse}
use flightsql_dbapi.Dbapi.Types.Sql.{Predicate}
use flightsql_dbapi.Dbapi.Types.Agree.{SameSql, normalized_type-SameSql}

abbrev shown : DataType → String
shown type = "type"

abbrev known : Predicate → Bool
known predicate = true

abbrev events : TimeUnit → DataType
events unit = struct (
    cons (field "id" (scalar int64) false none) (
      cons
        (field "at" (list_of small (field "item" (scalar (timestamp unit (some "UTC"))) true none))
          true none)
        nil))

normalized_events : normalized_type shown (events nanosecond) "column" ≡ ok (events microsecond)
unfolding normalized_type
normalized_events = refl

normalized_type-Coarse_example : Every Coarse (normalized_type shown (events nanosecond) "column")
normalized_type-Coarse_example = normalized_type-Coarse shown (events nanosecond) "column"

clean_events : contains_nanosecond (events microsecond) ≡ false
unfolding contains_nanosecond
clean_events = refl

normalized_type-SameSql_example :
    Every
      (SameSql known shown (events nanosecond))
      (normalized_type shown (events nanosecond) "column")
normalized_type-SameSql_example = normalized_type-SameSql known shown (events nanosecond) "column"
