-- ===== src/Tests/Cursor.antt =====
-- The cursor of flightsql/dbapi.py against a client that answers every call. The world is the number
-- of calls.
use flightsql_dbapi.Prelude.{
  ℕ, ◌+◌, ◌≡◌, refl, true, false, Option, none, some, List, [], ◌∷◌, ◌++◌, String,
}
use flightsql_dbapi.Errors.{ok, raised, Foreign, foreign, pep, operational_error}
use flightsql_dbapi.Errors.Translation.{Translated}
use flightsql_dbapi.Errors.Translate.{already_closed, translate_errors}
use flightsql_dbapi.Effects.Outcome.{Outcome}
use flightsql_dbapi.Dbapi.Cursor.{Cursor, CursorClient, run_statement, execute, executemany}
use flightsql_dbapi.Dbapi.Cursor.Fetch.{Fetch, one, many, fetches, fetches-append}
use flightsql_dbapi.Dbapi.Connection.{Connection}
use flightsql_dbapi.Dbapi.Cursor.Execution.{
  Loaded, Fresh, cursor_of, execute-Fresh, execute_closes, execute-Translated,
}

abbrev answering : CursorClient ℕ ℕ ℕ (List ℕ) (List ℕ) ℕ String
answering = record {
  execute = λ query n. (ok (record { endpoints = some (some [] ∷ []) }), n + 1);
  read = λ ticket n. (ok (7 ∷ 8 ∷ []), n + 1);
  prepare = λ query n. (ok 5, n + 1);
  build_parameter_record = λ values s. ok values;
  run = λ batch x. (ok (record { endpoints = some (some [] ∷ []) }), (x.0, x.1 + 1));
  close_statement = λ x. (ok tt, (x.0, x.1 + 1));
  dbapi_results = λ table. ok (table, "a" ∷ []);
}

abbrev loaded : Cursor ℕ String
loaded = record {
  arraysize = 1;
  closed = false;
  description = some ("a" ∷ []);
  results = 1 ∷ 2 ∷ 3 ∷ 4 ∷ [];
}

abbrev calls : List Fetch
calls = one ∷ many (some 2) ∷ []

fetches-append_example :
    (fetches calls loaded).0 ++ (fetches calls loaded).1.results ≡ 1 ∷ 2 ∷ 3 ∷ 4 ∷ []
fetches-append_example = fetches-append calls loaded

abbrev world : ℕ
world = 0

execute-Fresh_example :
    Outcome
      (cursor_of answering)
      (Loaded answering)
      (Fresh answering)
      (execute answering "SELECT ?" (some (3 ∷ [])) (loaded, world))
execute-Fresh_example = execute-Fresh answering "SELECT ?" (some (3 ∷ [])) loaded world refl

abbrev three : Option (List ℕ)
three = some (3 ∷ [])

execute_closes_example :
    (execute answering "SELECT ?" three (loaded, world)).1.1
    ≡ (answering.close_statement (run_statement answering (3 ∷ []) (5, 1)).1).1.1
execute_closes_example = execute_closes answering "SELECT ?" 3 [] loaded world 5 1 refl refl

abbrev shut : Cursor ℕ String
shut = record loaded { closed = true }

execute_on_closed :
    (execute answering "SELECT ?" three (shut, world)).0 ≡ raised (already_closed "Cursor")
unfolding execute
execute_on_closed = refl

abbrev refused : Foreign
refused = record { is_instance = λ c. true; message = "unavailable" }

abbrev failing : CursorClient ℕ ℕ ℕ (List ℕ) (List ℕ) ℕ String
failing = record answering { execute = λ query n. (raised (foreign refused), n) }

execute_refused :
    (execute failing "SELECT 1" none (loaded, world)).0
    ≡ raised (pep operational_error "unavailable" (some refused))
unfolding execute translate_errors
execute_refused = refl

execute-Translated_example : Translated (pep operational_error "unavailable" (some refused))
execute-Translated_example =
    execute-Translated failing "SELECT 1" none loaded world
      (pep operational_error "unavailable" (some refused)) execute_refused

executemany_on_closed :
    (executemany answering "INSERT" (three ∷ []) (shut, world)).0 ≡ raised (already_closed "Cursor")
unfolding executemany
executemany_on_closed = refl

abbrev connection : Connection ℕ String
connection = record {
  closed = false;
  scope = record { catalog = none; resolved = none };
  cursors = loaded ∷ shut ∷ [];
}
