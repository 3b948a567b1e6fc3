-- ===== src/Tests/Storage.antt =====
-- A slice of a list array: its two lists among the values of a longer array.
use flightsql_dbapi.Prelude.{ℕ, ◌+◌, ◌-◌, ◌≡◌, ◌≤◌, refl, some, List, [], ◌∷◌, map, length, arith}
use flightsql_dbapi.Dbapi.Storage.{Storage, last_offset, normalized_list_storage}
use flightsql_dbapi.Dbapi.Storage.Laws.{lists_of, normalized_list_storage-lists_of}

abbrev values : List ℕ
values = 1 ∷ 2 ∷ 3 ∷ 4 ∷ 5 ∷ 6 ∷ []

cut_values :
    normalized_list_storage (record { offsets = 2 ∷ 2 ∷ 5 ∷ []; values = values })
    ≡ some (record { offsets = 0 ∷ 0 ∷ 3 ∷ []; values = 3 ∷ 4 ∷ 5 ∷ [] })
unfolding normalized_list_storage
cut_values = refl

two_lists : lists_of values (2 ∷ 2 ∷ 5 ∷ []) ≡ [] ∷ (3 ∷ 4 ∷ 5 ∷ []) ∷ []
unfolding lists_of
two_lists = refl

abbrev scaled : ℕ → ℕ
scaled n = n + 10

within : last_offset 2 (2 ∷ 5 ∷ []) ≤ length values
unfolding last_offset
within = omega arith

normalized_list_storage-lists_of_example :
    (cut : Storage ℕ) × (normalized_list_storage
        (record { offsets = 2 ∷ 2 ∷ 5 ∷ []; values = values })
      ≡ some cut)
    × (length cut.values ≡ last_offset 2 (2 ∷ 5 ∷ []) - 2)
    × (lists_of (map scaled cut.values) cut.offsets
        ≡ map (map scaled) (lists_of values (2 ∷ 2 ∷ 5 ∷ [])))
normalized_list_storage-lists_of_example =
    normalized_list_storage-lists_of scaled values 2 (2 ∷ 5 ∷ []) (omega arith, (omega arith, tt))
      within
