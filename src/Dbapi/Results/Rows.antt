-- ===== src/Dbapi/Results/Rows.antt =====
-- flightsql/dbapi.py, dbapi_results: rows against columns.
use flightsql_dbapi.Prelude.{
  ℕ, zero, suc, ◌≡◌, refl, sym, ap, ◌∙◌, Option, none, some, List, [], ◌∷◌, length, map, All, arith,
}
use mathlib.Core.Option.{some-injective, none-ne-some}
use flightsql_dbapi.Dbapi.Results.{zip_column, zip_columns}

abbrev pub get_elem? : {V : Type 0} → List V → ℕ → Option V
get_elem? [] i = none
get_elem? (v ∷ vs) zero = some v
get_elem? (v ∷ vs) (suc i) = get_elem? vs i

module _ {V : Type 0} where
  length-zip_column :
      (n : ℕ) (column : List V) (rows : List (List V))
      → length column ≡ n
      → length rows ≡ n
      → length (zip_column column rows) ≡ n
  unfolding zip_column
  length-zip_column n [] rows h g = h
  length-zip_column n (v ∷ vs) [] h g = g
  length-zip_column zero (v ∷ vs) (row ∷ rows) h g = omega (arith, h)
  length-zip_column (suc n) (v ∷ vs) (row ∷ rows) h g =
      omega (arith, length-zip_column n vs rows (omega (arith, h)) (omega (arith, g)))

  first-zip_column :
      (column : List V) (rows : List (List V))
      → length column ≡ length rows
      → map (λ (row : List V). get_elem? row 0) (zip_column column rows) ≡ map some column
  unfolding zip_column
  first-zip_column [] rows h = refl
  first-zip_column (v ∷ vs) [] h = absurd (omega (arith, h))
  first-zip_column (v ∷ vs) (row ∷ rows) h =
      ap (λ (t : List (Option V)). some v ∷ t) (first-zip_column vs rows (omega (arith, h)))

  later-zip_column :
      (i : ℕ) (column : List V) (rows : List (List V))
      → length column ≡ length rows
      → map (λ (row : List V). get_elem? row (suc i)) (zip_column column rows)
        ≡ map (λ (row : List V). get_elem? row i) rows
  unfolding zip_column
  later-zip_column i [] [] h = refl
  later-zip_column i [] (row ∷ rows) h = absurd (omega (arith, h))
  later-zip_column i (v ∷ vs) [] h = absurd (omega (arith, h))
  later-zip_column i (v ∷ vs) (row ∷ rows) h =
      ap (λ (t : List (Option V)). get_elem? row i ∷ t)
        (later-zip_column i vs rows (omega (arith, h)))

  map-some :
      (column : List V)
      → map (λ (row : List V). get_elem? row 0) (map (λ v. v ∷ []) column) ≡ map some column
  map-some [] = refl
  map-some (v ∷ vs) = ap (λ (t : List (Option V)). some v ∷ t) (map-some vs)

  length_singletons : (column : List V) → length (map (λ v. v ∷ []) column) ≡ length column
  length_singletons [] = refl
  length_singletons (v ∷ vs) = omega (arith, length_singletons vs)

  length-zip_columns :
      (n : ℕ) (column : List V) (columns : List (List V))
      → All (λ (c : List V). length c ≡ n) (column ∷ columns)
      → length (zip_columns (column ∷ columns)) ≡ n
  unfolding zip_columns
  length-zip_columns n column [] (h, _) = omega (arith, h, length_singletons column)
  length-zip_columns n column (next ∷ columns) (h, rest) =
      length-zip_column n column (zip_columns (next ∷ columns)) h
        (length-zip_columns n next columns rest)

  map_elem-zip_columns :
      (n i : ℕ) (column found : List V) (columns : List (List V))
      → All (λ (c : List V). length c ≡ n) (column ∷ columns)
      → get_elem? (column ∷ columns) i ≡ some found
      → map (λ (row : List V). get_elem? row i) (zip_columns (column ∷ columns)) ≡ map some found
  unfolding zip_columns
  map_elem-zip_columns n zero column found [] same h =
      map-some column ∙ ap (map some) (some-injective column found h)
  map_elem-zip_columns n (suc i) column found [] same h = absurd (none-ne-some found h)
  map_elem-zip_columns n zero column found (next ∷ columns) (first, rest) h =
      first-zip_column column (zip_columns (next ∷ columns))
        (first ∙ sym (length-zip_columns n next columns rest))
      ∙ ap (map some) (some-injective column found h)
  map_elem-zip_columns n (suc i) column found (next ∷ columns) (first, rest) h =
      later-zip_column i column (zip_columns (next ∷ columns))
        (first ∙ sym (length-zip_columns n next columns rest))
      ∙ map_elem-zip_columns n i next found columns rest h

  -- Where all columns have `n` values and there is at least one, `zip(*columns)` has `n` rows, and
  -- the values of its rows at index `i` are the column of that index.
  pub zip_columns-column :
      (n i : ℕ) (column found : List V) (columns : List (List V))
      → All (λ (c : List V). length c ≡ n) (column ∷ columns)
      → get_elem? (column ∷ columns) i ≡ some found
      → (length (zip_columns (column ∷ columns)) ≡ n)
        × (map (λ (row : List V). get_elem? row i) (zip_columns (column ∷ columns))
            ≡ map some found)
  zip_columns-column n i column found columns same h = (
    length-zip_columns n column columns same,
    map_elem-zip_columns n i column found columns same h,
  )
