-- ===== src/Dbapi/Storage/Laws.antt =====
-- flightsql/dbapi.py, _normalized_list_storage: the lists are those of the array.
use flightsql_dbapi.Prelude.{
  ℕ, zero, suc, ◌+◌, ◌-◌, ◌*◌, ◌≤◌, ◌<◌, ◌≡◌, refl, sym, ap, ◌∙◌, some, List, [], ◌∷◌, map, take,
  drop, length, length-drop, arith,
}
use native.Mathlib.Nat.{mul-le-mul_right}
use flightsql_dbapi.Dbapi.Storage.{
  Storage, slice, last_offset, normalized_list_storage, fixed_size_values, normalized_map_storage,
}

-- The lists between an offset and those behind it.
unfoldable pub lists_from : {A : Type 0} → List A → ℕ → List ℕ → List (List A)
unfolding slice
lists_from values start [] = []
lists_from values start (stop ∷ offsets) =
    slice start (stop - start) values ∷ lists_from values stop offsets

-- The lists of an array.
unfoldable pub lists_of : {A : Type 0} → List A → List ℕ → List (List A)
unfolding lists_from
lists_of values [] = []
lists_of values (start ∷ offsets) = lists_from values start offsets

-- No offset is below the one before.
abbrev pub Ascending : ℕ → List ℕ → Type 0
Ascending start [] = Unit {0}
Ascending start (stop ∷ offsets) = (start ≤ stop) × Ascending stop offsets

Ascending-last_offset :
    (start : ℕ) (offsets : List ℕ) → Ascending start offsets → start ≤ last_offset start offsets
unfolding last_offset
Ascending-last_offset start [] h = omega arith
Ascending-last_offset start (stop ∷ offsets) (h, hs) =
    let later = Ascending-last_offset stop offsets hs in omega (arith, h, later)

fits : (i count size : ℕ) → i < count → i * size + size ≤ count * size
fits i count size h =
    let bound = mul-le-mul_right {m = suc i} {n = count} size h in omega (arith, bound)

distribute : (offset i size : ℕ) → (offset + i) * size ≡ offset * size + i * size
distribute offset i size = omega arith

module _ {A : Type 0} where
  drop-nil : (m : ℕ) → ◌≡◌ {A = List A} (drop m []) []
  drop-nil zero = refl
  drop-nil (suc m) = refl

  take-nil : (m : ℕ) → ◌≡◌ {A = List A} (take m []) []
  take-nil zero = refl
  take-nil (suc m) = refl

  drop-take : (m n k : ℕ) (xs : List A) → n ≡ m + k → drop m (take n xs) ≡ take k (drop m xs)
  drop-take zero n k xs h = ap (λ i. take i xs) (omega (arith, h))
  drop-take (suc m) zero k xs h = elim (absurd h) [ ]
    where
      absurd : zero ≡ suc m + k → ⊥
      absurd h = omega (arith, h)
  drop-take (suc m) (suc n) k [] h = sym (take-nil k)
  drop-take (suc m) (suc n) k (x ∷ xs) h = drop-take m n k xs (omega (arith, h))

  drop-drop : (m n k : ℕ) (xs : List A) → k ≡ n + m → drop m (drop n xs) ≡ drop k xs
  drop-drop m zero k xs h = ap (λ i. drop i xs) (omega (arith, h))
  drop-drop m (suc n) k [] h = drop-nil m ∙ sym (drop-nil k)
  drop-drop m (suc n) zero (x ∷ xs) h = elim (absurd h) [ ]
    where
      absurd : zero ≡ suc n + m → ⊥
      absurd h = omega (arith, h)
  drop-drop m (suc n) (suc k) (x ∷ xs) h = drop-drop m n k xs (omega (arith, h))

  take-take : (m n : ℕ) (xs : List A) → m ≤ n → take m (take n xs) ≡ take m xs
  take-take zero n xs h = refl
  take-take (suc m) zero xs h = elim (absurd h) [ ]
    where
      absurd : suc m ≤ zero → ⊥
      absurd h = omega (arith, h)
  take-take (suc m) (suc n) [] h = refl
  take-take (suc m) (suc n) (x ∷ xs) h = ap (λ l. x ∷ l) (take-take m n xs (omega (arith, h)))

  -- A slice below a slice that holds it.
  slice-slice :
      (base top a b : ℕ) (xs : List A)
      → base ≤ a
      → a ≤ b
      → b ≤ top
      → slice (a - base) ((b - base) - (a - base)) (slice base (top - base) xs) ≡ slice a (b - a) xs
  unfolding slice
  slice-slice base top a b xs h0 h1 h2 =
      ap (take ((b - base) - (a - base))) (
        drop-take (a - base) (top - base) (top - a) (drop base xs) (omega arith)
        ∙ ap (take (top - a)) (drop-drop (a - base) base a xs (omega arith)))
      ∙ take-take ((b - base) - (a - base)) (top - a) (drop a xs) (omega arith)
      ∙ ap (λ i. take i (drop a xs)) (omega arith)

  lists_from-slice :
      (base top start : ℕ) (offsets : List ℕ) (xs : List A)
      → base ≤ start
      → Ascending start offsets
      → last_offset start offsets ≤ top
      → lists_from (slice base (top - base) xs) (start - base) (map (λ o. o - base) offsets)
        ≡ lists_from xs start offsets
  unfolding lists_from last_offset
  lists_from-slice base top start [] xs h0 h1 h2 = refl
  lists_from-slice base top start (stop ∷ offsets) xs h0 (h, hs) h2 =
      let later = Ascending-last_offset stop offsets hs in
      let here = slice-slice base top start stop xs h0 h (omega (arith, later, h2)) in
      let rest = lists_from-slice base top stop offsets xs (omega (arith, h0, h)) hs h2 in
      ap
        (λ l.
          l ∷ lists_from (slice base (top - base) xs) (stop - base) (map (λ o. o - base) offsets))
        here
      ∙ ap (λ ls. slice start (stop - start) xs ∷ ls) rest

  length-take : (n : ℕ) (xs : List A) → n ≤ length xs → length (take n xs) ≡ n
  length-take zero xs h = refl
  length-take (suc n) [] h = elim (absurd h) [ ]
    where
      absurd : suc n ≤ zero → ⊥
      absurd h = omega (arith, h)
  length-take (suc n) (x ∷ xs) h = ap suc (length-take n xs (omega (arith, h)))

  module _ {B : Type 0} (f : A → B) where
    map-take : (n : ℕ) (xs : List A) → take n (map f xs) ≡ map f (take n xs)
    map-take zero xs = refl
    map-take (suc n) [] = refl
    map-take (suc n) (x ∷ xs) = ap (λ l. f x ∷ l) (map-take n xs)

    map-drop : (n : ℕ) (xs : List A) → drop n (map f xs) ≡ map f (drop n xs)
    map-drop zero xs = refl
    map-drop (suc n) [] = refl
    map-drop (suc n) (x ∷ xs) = map-drop n xs

    lists_from-map :
        (xs : List A) (start : ℕ) (offsets : List ℕ)
        → lists_from (map f xs) start offsets ≡ map (map f) (lists_from xs start offsets)
    unfolding lists_from slice
    lists_from-map xs start [] = refl
    lists_from-map xs start (stop ∷ offsets) =
        ap (λ l. l ∷ lists_from (map f xs) stop offsets)
          (ap (take (stop - start)) (map-drop start xs) ∙ map-take (stop - start) (drop start xs))
        ∙ ap (λ ls. map f (slice start (stop - start) xs) ∷ ls) (lists_from-map xs stop offsets)

    -- The lists of the values between the first offset and the last, converted.
    cut_lists :
        (values : List A) (start : ℕ) (offsets : List ℕ)
        → Ascending start offsets
        → lists_of
            (map f (slice start (last_offset start offsets - start) values))
            (map (λ o. o - start) (start ∷ offsets))
          ≡ map (map f) (lists_of values (start ∷ offsets))
    unfolding lists_of
    cut_lists values start offsets h =
        lists_from-map _ _ _
        ∙ ap (map (map f)) (
            lists_from-slice start (last_offset start offsets) start offsets values (omega arith) h
              (omega arith))

    -- The storage of an array of lists, whose offsets ascend and stay within its values, is cut to
    -- as many values as the lists hold. Whatever converts each value, the lists of the converted
    -- storage are those of the array with their values converted: none is lost, moved or added,
    -- also where the array is a slice of another.
    pub normalized_list_storage-lists_of :
        (values : List A) (start : ℕ) (offsets : List ℕ)
        → Ascending start offsets
        → last_offset start offsets ≤ length values
        → (cut : Storage A) × (normalized_list_storage
              (record { offsets = start ∷ offsets; values = values })
            ≡ some cut)
          × (length cut.values ≡ last_offset start offsets - start)
          × (lists_of (map f cut.values) cut.offsets
              ≡ map (map f) (lists_of values (start ∷ offsets)))
    unfolding normalized_list_storage lists_of slice
    normalized_list_storage-lists_of values start offsets h within = (
      record {
        offsets = map (λ o. o - start) (start ∷ offsets);
        values = slice start (last_offset start offsets - start) values;
      },
      refl,
      (let cut = length-drop start values in
          let ascends = Ascending-last_offset start offsets h in
          length-take (last_offset start offsets - start) (drop start values)
            (omega (arith, within, cut, ascends))),
      cut_lists values start offsets h,
    )

-- A fixed size list array: the list at an index of a slice is the one of the array behind it.
pub fixed_size_values-slice :
    {A : Type 0} (offset count size i : ℕ) (values : List A)
    → i < count
    → slice (i * size) size (fixed_size_values offset count size values)
      ≡ slice ((offset + i) * size) size values
unfolding fixed_size_values slice
fixed_size_values-slice offset count size i values h =
    let step = fits i count size h in
    ap (take size) (
      drop-take (i * size) (count * size) (count * size - i * size) (drop (offset * size) values)
        (omega (arith, step))
      ∙ ap (take (count * size - i * size)) (
          drop-drop (i * size) (offset * size) ((offset + i) * size) values
            (distribute offset i size)))
    ∙ take-take size (count * size - i * size) (drop ((offset + i) * size) values)
        (omega (arith, step))

-- A map array: the keys and the items of the cut storage, each converted, are in the same lists as
-- those of the array.
pub normalized_map_storage-lists_of :
    {K V K' V' : Type 0} (f : K → K') (g : V → V') (keys : List K) (items : List V) (start : ℕ)
    (offsets : List ℕ)
    → Ascending start offsets
    → (cut : List ℕ × List K × List V) × (normalized_map_storage (start ∷ offsets) keys items
        ≡ some cut)
      × (lists_of (map f cut.1) cut.0 ≡ map (map f) (lists_of keys (start ∷ offsets)))
      × (lists_of (map g cut.2) cut.0 ≡ map (map g) (lists_of items (start ∷ offsets)))
unfolding normalized_map_storage
normalized_map_storage-lists_of f g keys items start offsets h = (
  (
    map (λ o. o - start) (start ∷ offsets),
    slice start (last_offset start offsets - start) keys,
    slice start (last_offset start offsets - start) items,
  ),
  refl,
  cut_lists f keys start offsets h,
  cut_lists g items start offsets h,
)
