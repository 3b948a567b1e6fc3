-- ===== src/Tests/Record.antt =====
-- A RECORD of one file and itself.
use flightsql_dbapi.Prelude.{
  ◌≡◌, map, refl, Bool, true, false, none, some, List, ℕ, [], ◌∷◌, All, contains, bytes_eq,
}
use flightsql_dbapi.Prelude.Dict.{Dict, keys}
use flightsql_dbapi.Prelude.Distinct.{Distinct}
use flightsql_dbapi.Prelude.Text.{codes}
use flightsql_dbapi.Errors.{ok}
use flightsql_dbapi.Provenance.Record.{RecordRow, own_record, read_record}
use flightsql_dbapi.Provenance.Record.Laws.{Recorded, path_of, read_record-Rows}

abbrev bytecode : List ℕ → Bool
bytecode path = false

abbrev digest : List ℕ
digest = codes "abcdefghijabcdefghijabcdefghijabcdefghij_-0"

abbrev lines : List (List (List ℕ))
lines =
    (codes "flightsql/util.py"
      ∷ (codes "sha256=abcdefghijabcdefghijabcdefghijabcdefghij_-0")
      ∷ codes "12"
      ∷ [])
    ∷ (codes "f.dist-info/RECORD" ∷ [] ∷ [] ∷ [])
    ∷ []

abbrev rows : Dict (List ℕ) RecordRow
rows =
    (codes "flightsql/util.py", record { digest = some digest; size = some 12 })
    ∷ (codes "f.dist-info/RECORD", record { digest = none; size = none })
    ∷ []

read_lines : read_record bytecode (codes "f.dist-info") lines ≡ ok rows
unfolding read_record
read_lines = refl

read_record-Rows_example :
    (keys rows ≡ map path_of lines)
    × Distinct (map path_of lines)
    × (contains (keys rows) (own_record bytecode (codes "f.dist-info")) ≡ true)
    × All (Recorded bytecode (codes "f.dist-info")) rows
read_record-Rows_example = read_record-Rows bytecode (codes "f.dist-info") lines rows read_lines
