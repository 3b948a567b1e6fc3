-- ===== src/Dbapi/Storage.antt =====
-- flightsql/dbapi.py, _normalized_list_storage: the offsets and the values of a list or map array,
-- with what lies before and behind a slice of it cut off. An array of offsets is a list of numbers,
-- and what its type counts below 0 or above its width does not come up in it.
pub mod Laws
use flightsql_dbapi.Prelude.{ℕ, ◌+◌, ◌-◌, ◌*◌, Option, none, some, List, [], ◌∷◌, map, take, drop}

-- The offsets and the values that they count in.
pub record Storage (A : Type 0) : Type 0 where
  pub offsets : List ℕ
  pub values : List A

-- `values.slice(start, length)`
unfoldable pub slice : {A : Type 0} → ℕ → ℕ → List A → List A
slice start length values = take length (drop start values)

-- `offsets[-1]`, where there is one.
unfoldable pub last_offset : ℕ → List ℕ → ℕ
last_offset o [] = o
last_offset o (p ∷ offsets) = last_offset p offsets

-- `_normalized_list_storage`, by the offsets. An array of n lists has n + 1 offsets; `offsets[0]` raises IndexError
-- where there is none, which is none here.
abbrev pub cut_storage : {A : Type 0} → List A → List ℕ → Option (Storage A)
cut_storage values [] = none
cut_storage values (start ∷ offsets) = some (record {
  offsets = map (λ o. o - start) (start ∷ offsets);
  values = slice start (last_offset start offsets - start) values;
})

unfoldable pub normalized_list_storage : {A : Type 0} → Storage A → Option (Storage A)
unfolding slice last_offset
normalized_list_storage storage = cut_storage storage.values storage.offsets

-- The values of an array of lists of `size` values each.
unfoldable pub fixed_size_values : {A : Type 0} → ℕ → ℕ → ℕ → List A → List A
unfolding slice
fixed_size_values offset count size values = slice (offset * size) (count * size) values

-- The offsets, the keys and the items of a map array, as `_normalize_temporal_array` cuts them.
abbrev pub cut_map : {K V : Type 0} → List K → List V → List ℕ → Option (List ℕ × List K × List V)
cut_map keys items [] = none
cut_map keys items (start ∷ offsets) = some (
  map (λ o. o - start) (start ∷ offsets),
  slice start (last_offset start offsets - start) keys,
  slice start (last_offset start offsets - start) items,
)

unfoldable pub normalized_map_storage :
    {K V : Type 0} → List ℕ → List K → List V → Option (List ℕ × List K × List V)
unfolding slice last_offset
normalized_map_storage offsets keys items = cut_map keys items offsets
