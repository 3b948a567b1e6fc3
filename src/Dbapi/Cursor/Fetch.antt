-- ===== src/Dbapi/Cursor/Fetch.antt =====
-- flightsql/dbapi.py, Cursor: sequences of calls of the fetch methods.
use flightsql_dbapi.Prelude.{
  ℕ, ◌+◌, ◌≡◌, refl, sym, ◌∙◌, ap, false, Option, some, List, [], ◌∷◌, ◌++◌, append_assoc,
  append-nil, length, take-append-drop, length-append, Bool-cases, inl, inr, arith,
}
use flightsql_dbapi.Errors.{Result, ok, raised}
use flightsql_dbapi.Dbapi.Cursor.{
  Cursor, pop_first, size_or, fetchone, fetchmany, fetchall, rowcount,
}

-- One call of a fetch method.
pub data Fetch : Type 0 where
  one : Fetch
  many : Option ℕ → Fetch
  all_rows : Fetch

abbrev rows_of_one : {R : Type 0} → Result (Option R) → List R
rows_of_one (ok (some row)) = row ∷ []
rows_of_one _ = []

abbrev rows_of : {R : Type 0} → Result (List R) → List R
rows_of (ok rows) = rows
rows_of (raised e) = []

pop_first-append :
    {R : Type 0} (rows : List R) → rows_of_one (ok (pop_first rows).0) ++ (pop_first rows).1 ≡ rows
unfolding pop_first
pop_first-append [] = refl
pop_first-append (row ∷ rows) = refl

module _ {R D : Type 0} where
  -- The rows that one call hands out, and the cursor after it.
  abbrev pub fetch : Fetch → Cursor R D → List R × Cursor R D
  fetch one c = (rows_of_one (fetchone c).0, (fetchone c).1)
  fetch (many size) c = (rows_of (fetchmany size c).0, (fetchmany size c).1)
  fetch all_rows c = (rows_of (fetchall c).0, (fetchall c).1)

  abbrev pub fetches : List Fetch → Cursor R D → List R × Cursor R D
  fetches [] c = ([], c)
  fetches (f ∷ fs) c =
      let (rows, c') = fetch f c in let (more, c'') = fetches fs c' in (rows ++ more, c'')

  fetch-append : (f : Fetch) (c : Cursor R D) → (fetch f c).0 ++ (fetch f c).1.results ≡ c.results
  unfolding fetchone fetchmany fetchall
  fetch-append one c = elim (Bool-cases c.closed) [
    | inl shut ↦ rw shut
    | inr is_open ↦ rw is_open (pop_first-append c.results)
  ]
  fetch-append (many size) c = elim (Bool-cases c.closed) [
    | inl shut ↦ rw shut
    | inr is_open ↦ rw is_open (take-append-drop (size_or size c.arraysize) c.results)
  ]
  fetch-append all_rows c = elim (Bool-cases c.closed) [
    | inl shut ↦ rw shut
    | inr is_open ↦ rw is_open (append-nil c.results)
  ]

  closed-fetch : (f : Fetch) (c : Cursor R D) → (fetch f c).1.closed ≡ c.closed
  unfolding fetchone fetchmany fetchall
  closed-fetch one c = ground arith
  closed-fetch (many size) c = ground arith
  closed-fetch all_rows c = ground arith

  closed-fetches : (fs : List Fetch) (c : Cursor R D) → (fetches fs c).1.closed ≡ c.closed
  closed-fetches [] c = refl
  closed-fetches (f ∷ fs) c = closed-fetches fs (fetch f c).1 ∙ closed-fetch f c

  -- However the fetch methods are called, on an open cursor or a closed one, the rows that they
  -- return followed by the rows that are still there are the rows of the result.
  pub fetches-append :
      (fs : List Fetch) (c : Cursor R D) → (fetches fs c).0 ++ (fetches fs c).1.results ≡ c.results
  fetches-append [] c = refl
  fetches-append (f ∷ fs) c =
      append_assoc (fetch f c).0 (fetches fs (fetch f c).1).0 (fetches fs (fetch f c).1).1.results
      ∙ ap (λ (t : List R). (fetch f c).0 ++ t) (fetches-append fs (fetch f c).1)
      ∙ fetch-append f c

  -- After any calls on an open cursor, `rowcount` is the number of the rows not yet fetched, and
  -- `fetchall` returns exactly those and leaves none.
  pub fetches-fetchall :
      (fs : List Fetch) (c : Cursor R D)
      → c.closed ≡ false
      → (fetchall (fetches fs c).1
          ≡ (ok (fetches fs c).1.results, record (fetches fs c).1 { results = [] }))
        × (rowcount (fetches fs c).1 ≡ (ok (length (fetches fs c).1.results), (fetches fs c).1))
        × (length (fetches fs c).0 + length (fetches fs c).1.results ≡ length c.results)
  unfolding fetchall rowcount
  fetches-fetchall fs c is_open =
      let still : (fetches fs c).1.closed ≡ false = closed-fetches fs c ∙ is_open in
      (
        rw still,
        rw still,
        sym (length-append (fetches fs c).0 (fetches fs c).1.results)
            ∙ ap (λ (t : List R). length t) (fetches-append fs c),
      )
