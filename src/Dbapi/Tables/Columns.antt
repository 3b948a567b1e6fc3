-- ===== src/Dbapi/Tables/Columns.antt =====
-- flightsql/dbapi.py, Connection._parse_table_schema_rows: which tables get columns.
use flightsql_dbapi.Prelude.{
  ◌≡◌, refl, sym, ◌∙◌, subst, ◌≢◌, ◌⊎◌, inl, inr, true, false, Option, none, some, List, [], ◌∷◌,
  String, option_eq, contains, string_eq, if◌then◌else◌, All, Bool-cases, if-true, if-false, arith,
  map,
}
use flightsql_dbapi.Prelude.Dict.{Dict, lookup, insert, erase, lookup-insert, lookup-erase}
use flightsql_dbapi.Errors.{Result, ok, raised}
use flightsql_dbapi.Dbapi.Tables.{Row, Decoder}
use flightsql_dbapi.Dbapi.Tables.Parse.{
  ambiguous_names, columns_of, parse_row, parse_rows, without, valid_only, Parsed, stored, and_then,
  parse_table_schema_rows,
}
use flightsql_dbapi.Dbapi.Tables.Named.{
  named, named-All, OneSchema, named-OneSchema, is_ambiguous-Unambiguous, ambiguous_names-contains,
}

module _ {Schema C : Type 0} (decoder : Decoder Schema C) where
  -- Every row of the name decodes.
  abbrev Usable : String → List Row → Type 0
  Usable name rows =
      All
        (λ (row : Row).
          row.name ≡ name
          → (columns : List C) × (columns_of decoder row.has_table_schema row.serialized_schema
              ≡ ok (some columns)))
        rows

  and_then-ok :
      (r : Result (Parsed decoder)) (f : Parsed decoder → Result (Parsed decoder))
      (s' : Parsed decoder)
      → and_then decoder r f ≡ ok s'
      → (s : Parsed decoder) × (r ≡ ok s) × (f s ≡ ok s')
  and_then-ok (ok s) f s' e = (s, refl, e)
  and_then-ok (raised x) f s' e = cc

  -- The row is stored by what it decodes to, and as unusable if its name is known to be invalid.
  parse_row-stored :
      (row : Row) (s : Parsed decoder)
      → (parse_row decoder row s ≡ stored decoder row.name (ok none) s)
        ⊎ (parse_row decoder row s
            ≡ stored decoder row.name
                (columns_of decoder row.has_table_schema row.serialized_schema)
                s)
  unfolding parse_row
  parse_row-stored row (parsed, invalid) = elim (Bool-cases (contains invalid row.name)) [
    | inl known ↦ inl (if-true (contains invalid row.name) _ _ known)
    | inr unknown ↦ inr (if-false (contains invalid row.name) _ _ unknown)
  ]

  valid-after :
      (name other : String) (invalid : List String)
      → contains (name ∷ invalid) other ≡ false
      → (contains invalid other ≡ false) × (name ≢ other)
  valid-after name other invalid h = ground arith

  stored-valid :
      (name other : String) (r : Result (Option (List C))) (s s' : Parsed decoder)
      → stored decoder name r s ≡ ok s'
      → contains s'.1 other ≡ false
      → (contains s.1 other ≡ false) × (name ≡ other → (columns : List C) × (r ≡ ok (some columns)))
  stored-valid name other (ok none) (parsed, invalid) s' e h =
      let (kept, differ) = valid-after name other invalid (cc (e, h)) in
      (kept, λ same. absurd (differ same))
  stored-valid name other (ok (some columns)) (parsed, invalid) s' e h =
      (cc, λ same. (columns, refl))
  stored-valid name other (raised x) (parsed, invalid) s' e h = cc

  none_decodes : ((columns : List C) × (ok none ≡ ok (some columns))) → ⊥
  none_decodes (columns, e) = cc

  parse_row-valid :
      (row : Row) (other : String) (s s' : Parsed decoder)
      → parse_row decoder row s ≡ ok s'
      → contains s'.1 other ≡ false
      → (contains s.1 other ≡ false)
        × (row.name ≡ other
            → (columns : List C) × (columns_of decoder row.has_table_schema row.serialized_schema
                ≡ ok (some columns)))
  parse_row-valid row other s s' e h = elim (parse_row-stored row s) [
    | inl known ↦
        let (kept, decodes) = stored-valid row.name other (ok none) s s' (sym known ∙ e) h in
        (kept, λ same. absurd (none_decodes (decodes same)))
    | inr stores ↦
        stored-valid row.name other (columns_of decoder row.has_table_schema row.serialized_schema)
          s s' (sym stores ∙ e) h
  ]

  parse_rows-valid :
      (rows : List Row) (other : String) (s s' : Parsed decoder)
      → parse_rows decoder rows s ≡ ok s'
      → contains s'.1 other ≡ false
      → (contains s.1 other ≡ false) × Usable other rows
  unfolding parse_rows
  parse_rows-valid [] other s s' e h = (cc, tt)
  parse_rows-valid (row ∷ rows) other s s' e h =
      let (s₁, first, rest) =
        and_then-ok (parse_row decoder row s) (parse_rows decoder rows) s' e in
      let (valid, usable) = parse_rows-valid rows other s₁ s' rest h in
      let (kept, decodes) = parse_row-valid row other s s₁ first valid in (kept, (decodes, usable))

  lookup-without :
      (invalid : List String) (name : String) (parsed : Dict String (List C))
      → lookup name (without decoder invalid parsed)
        ≡ (if contains invalid name then none else lookup name parsed)
  unfolding without lookup
  lookup-without invalid name [] = ground arith
  lookup-without invalid name (_ ∷ parsed) = ground (arith, lookup-without invalid name parsed)

  stored-keys :
      (name other : String) (r : Result (Option (List C))) (s s' : Parsed decoder)
      → stored decoder name r s ≡ ok s'
      → lookup other s.0 ≡ none
      → name ≢ other
      → lookup other s'.0 ≡ none
  stored-keys name other (ok none) (parsed, invalid) s' e h differ =
      let p : lookup other (erase name parsed) ≡ none =
        rw (lookup-erase other name parsed) ground arith in
      cc (e, p)
  stored-keys name other (ok (some columns)) (parsed, invalid) s' e h differ =
      let p : lookup other (insert name columns parsed) ≡ none =
        rw (lookup-insert other name columns parsed) ground arith in
      cc (e, p)
  stored-keys name other (raised x) (parsed, invalid) s' e h differ = cc

  parse_rows-keys :
      (rows : List Row) (other : String) (s s' : Parsed decoder)
      → parse_rows decoder rows s ≡ ok s'
      → lookup other s.0 ≡ none
      → contains (map Row.name rows) other ≡ false
      → lookup other s'.0 ≡ none
  unfolding parse_rows
  parse_rows-keys [] other s s' e h g = cc
  parse_rows-keys (row ∷ rows) other s s' e h g =
      let (s₁, first, rest) =
        and_then-ok (parse_row decoder row s) (parse_rows decoder rows) s' e in
      let (absent, differ) = valid-after row.name other (map Row.name rows) g in
      parse_rows-keys rows other s₁ s' rest
        (elim (parse_row-stored row s) [
          | inl known ↦ stored-keys row.name other (ok none) s s₁ (sym known ∙ first) h differ
          | inr stores ↦
              stored-keys row.name other
                (columns_of decoder row.has_table_schema row.serialized_schema) s s₁
                (sym stores ∙ first) h differ
        ])
        absent

  valid_only-ok :
      (r : Result (Parsed decoder)) (metadata : Dict String (List C))
      → valid_only decoder r ≡ ok metadata
      → (s : Parsed decoder) × (r ≡ ok s) × (without decoder s.1 s.0 ≡ metadata)
  valid_only-ok (ok (parsed, invalid)) metadata e = ((parsed, invalid), refl, cc)
  valid_only-ok (raised x) metadata e = cc

  reported_valid :
      (invalid : List String) (name : String) (parsed : Dict String (List C))
      → lookup name (without decoder invalid parsed) ≢ none
      → (contains invalid name ≡ false) × (lookup name parsed ≢ none)
  reported_valid invalid name parsed h = ground (arith, lookup-without invalid name parsed)

  parse_table_schema_rows-valid :
      (rows : List Row) (requested : Option String) (metadata : Dict String (List C))
      (name : String)
      → parse_table_schema_rows decoder rows requested ≡ ok metadata
      → lookup name metadata ≢ none
      → (contains (map Row.name rows) name ≡ true)
        × (contains (ambiguous_names requested rows rows) name ≡ false)
        × Usable name rows
  unfolding parse_table_schema_rows
  parse_table_schema_rows-valid rows requested metadata name e h =
      let (s, parsed, kept) =
        valid_only-ok (parse_rows decoder rows ([], ambiguous_names requested rows rows)) metadata
          e in
      let (valid, present) =
        reported_valid s.1 name s.0 (subst (λ d. lookup name d ≢ none) (sym kept) h) in
      let (unambiguous, usable) =
        parse_rows-valid rows name ([], ambiguous_names requested rows rows) s parsed valid in
      (
        elim (Bool-cases (contains (map Row.name rows) name)) [
          | inl reported ↦ reported
          | inr missing ↦ absurd (
              present (
                parse_rows-keys rows name ([], ambiguous_names requested rows rows) s parsed
                  (unfold lookup in refl) missing))
        ],
        unambiguous,
        usable,
      )

  abbrev pub Decodes : Row → Type 0
  Decodes row =
      (columns : List C) × (columns_of decoder row.has_table_schema row.serialized_schema
        ≡ ok (some columns))

  -- Where `_parse_table_schema_rows` returns, a name that has columns was reported, and all of its
  -- rows carry a schema that decodes.
  pub parse_table_schema_rows-Decodes :
      (rows : List Row) (requested : Option String) (metadata : Dict String (List C))
      (name : String)
      → parse_table_schema_rows decoder rows requested ≡ ok metadata
      → lookup name metadata ≢ none
      → (contains (map Row.name rows) name ≡ true) × All Decodes (named name rows)
  parse_table_schema_rows-Decodes rows requested metadata name e h =
      let (reported, _, usable) = parse_table_schema_rows-valid rows requested metadata name e h in
      (reported, named-All Decodes name rows usable)

  -- Where it returns and no schema was requested, all rows of a name that has columns are in one
  -- schema.
  pub parse_table_schema_rows-OneSchema :
      (rows : List Row) (metadata : Dict String (List C)) (name : String)
      → parse_table_schema_rows decoder rows none ≡ ok metadata
      → lookup name metadata ≢ none
      → OneSchema (named name rows)
  parse_table_schema_rows-OneSchema rows metadata name e h =
      let (reported, unambiguous, _) = parse_table_schema_rows-valid rows none metadata name e h in
      named-OneSchema name rows (
        is_ambiguous-Unambiguous rows name
          (ambiguous_names-contains none rows rows name reported unambiguous))
