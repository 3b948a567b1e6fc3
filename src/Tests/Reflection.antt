-- ===== src/Tests/Reflection.antt =====
-- Reflection against a server that reports one table with its columns and one without.
use flightsql_dbapi.Prelude.{
  ℕ, String, ◌+◌, ◌≡◌, refl, Bool, contains, ◌&&◌, ◌||◌, true, false, none, some, List, [], ◌∷◌,
  option_eq, pair_eq, string_eq,
}
use flightsql_dbapi.Errors.{ok}
use flightsql_dbapi.Dbapi.Response.{text}
use flightsql_dbapi.Dbapi.Tables.{TableMetadataResult}
use flightsql_dbapi.Sqlalchemy.Reflection.{Adapter, result, Reflection, columns, unreflectable}
use flightsql_dbapi.Sqlalchemy.Reflection.Methods.{has_table, get_table_names, get_view_names}
use flightsql_dbapi.Sqlalchemy.Reflection.Coherence.{Coherent}
use flightsql_dbapi.Sqlalchemy.Reflection.Laws.{
  Call, tables, views, columns_of, afters, fresh, afters-Coherent,
}
use flightsql_dbapi.Sqlalchemy.Reflection.Partition.{get_table_names-views}
use flightsql_dbapi.Sqlalchemy.Reflection.Answers.{Answered, has_table-Answered}

abbrev bulk : TableMetadataResult ℕ
bulk = record {
  table_names = "a" ∷ "b" ∷ [];
  columns_by_name = some (("a", 1 ∷ []) ∷ []);
  included_schema_supported = false;
  table_types = some (("b", text "VIEW") ∷ []);
}

abbrev found_b : TableMetadataResult ℕ
found_b = record {
  table_names = "b" ∷ [];
  columns_by_name = none;
  included_schema_supported = false;
  table_types = none;
}

-- The world is the number of requests.
abbrev adapter : Adapter ℕ ℕ
adapter = record {
  get_table_metadata = λ schema n. (ok (result bulk), n + 1);
  get_table_names = λ schema n. (ok [], n + 1);
  get_table_metadata_for_table = some (λ name schema n. (ok (some found_b), n + 1));
  get_columns = λ name schema n. (ok [], n + 1);
}

abbrev reflection : Reflection ℕ
reflection = record {
  info_cache = some (record {
    relations = (none, ("a" ∷ "b" ∷ [], ("b", text "VIEW") ∷ [])) ∷ [];
    entries = ((none, "a"), columns (1 ∷ [])) ∷ ((none, "b"), unreflectable) ∷ [];
  });
  warned = none ∷ [];
  warnings = record { schema = none; probes = 1; recovered = 0; unreflectable = 1; stale = 0 } ∷ [];
}

-- One request for all, one probe of the table without columns, and none for a second call.
has_b :
    has_table adapter "b" none (afters adapter [] (fresh adapter, 0)) ≡ (ok true, (reflection, 2))
unfolding has_table
has_b = refl

tables_again : get_table_names adapter none (reflection, 2) ≡ (ok ("a" ∷ []), (reflection, 2))
unfolding get_table_names
tables_again = refl

abbrev calls : List Call
calls = tables none ∷ columns_of "a" none ∷ views (some "s") ∷ []

afters-Coherent_example : Coherent (afters adapter calls (fresh adapter, 0)).0.info_cache
afters-Coherent_example = afters-Coherent adapter calls 0

has_table-Answered_example : Answered adapter "b" none (reflection, 2)
has_table-Answered_example = has_table-Answered adapter [] 0 "b" none reflection 2 has_b

tables_first : get_table_names adapter none (fresh adapter, 0) ≡ (ok ("a" ∷ []), (reflection, 2))
unfolding get_table_names
tables_first = refl

get_table_names-views_example :
    (view_names : List String) × (found : Bool) × (get_view_names adapter none (reflection, 2)
      ≡ (ok view_names, (reflection, 2)))
    × (has_table adapter "b" none (reflection, 2) ≡ (ok found, (reflection, 2)))
    × (found ≡ (contains {A = String} ("a" ∷ []) "b" || contains view_names "b"))
    × ((contains {A = String} ("a" ∷ []) "b" && contains view_names "b") ≡ false)
get_table_names-views_example =
    get_table_names-views adapter none (fresh adapter) reflection 0 2 ("a" ∷ []) "b" refl
      tables_first
