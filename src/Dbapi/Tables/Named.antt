-- ===== src/Dbapi/Tables/Named.antt =====
-- flightsql/dbapi.py, Connection._parse_table_schema_rows: the rows of one name, and the names that are reported in two schemas.
use flightsql_dbapi.Prelude.{
  ◌≡◌, sym, inl, inr, Bool, true, false, not, ◌&&◌, Option, none, List, [], ◌∷◌, String, Eq, ◌==◌,
  any, contains, string_eq, option_eq, if◌then◌else◌, All, Bool-cases, if-true, if-false, subst,
  arith, map,
}
use flightsql_dbapi.Dbapi.Tables.{Row}
use flightsql_dbapi.Dbapi.Tables.Parse.{is_ambiguous, ambiguous_names}

==-true : {A : Type 0} ⦃e : Eq A⦄ (x y : A) → not (x == y) ≡ false → x ≡ y
==-true x y h = ground arith

==-same : (a b : String) → (a == b) ≡ true → a ≡ b
==-same a b h = ground arith

and-false : (a b : String) (q : Bool) → (a == b && q) ≡ false → a ≡ b → q ≡ false
and-false a b q h p = ground arith

-- The rows of a name.
abbrev pub named : String → List Row → List Row
named name [] = []
named name (row ∷ rows) = if row.name == name then row ∷ named name rows else named name rows

pub named-All :
    (P : Row → Type 0) (name : String) (rows : List Row)
    → All (λ (row : Row). row.name ≡ name → P row) rows
    → All P (named name rows)
named-All P name [] h = tt
named-All P name (row ∷ rows) (first, rest) = elim (Bool-cases (row.name == name)) [
  | inl same ↦
      subst (λ (l : List Row). All P l)
        (sym (if-true (row.name == name) (row ∷ named name rows) (named name rows) same))
        (first (==-same row.name name same), named-All P name rows rest)
  | inr differ ↦
      subst (λ (l : List Row). All P l)
        (sym (if-false (row.name == name) (row ∷ named name rows) (named name rows) differ))
        (named-All P name rows rest)
]

All-map :
    (P Q : Row → Type 0) (rows : List Row) → ((row : Row) → P row → Q row) → All P rows → All Q rows
All-map P Q [] f h = tt
All-map P Q (row ∷ rows) f (p, rest) = (f row p, All-map P Q rows f rest)

-- Every two of the rows are in one schema.
abbrev pub OneSchema : List Row → Type 0
OneSchema rows =
    All (λ (row : Row). All (λ (more : Row). more.row_schema ≡ row.row_schema) rows) rows

pub ambiguous_names-contains :
    (requested : Option String) (all_rows rows : List Row) (name : String)
    → contains (map Row.name rows) name ≡ true
    → contains (ambiguous_names requested all_rows rows) name ≡ false
    → is_ambiguous requested all_rows name ≡ false
unfolding ambiguous_names
ambiguous_names-contains requested all_rows [] name h g = cc
ambiguous_names-contains requested all_rows (row ∷ rows) name h g =
    ground (arith, ambiguous_names-contains requested all_rows rows name)

abbrev pub Unambiguous : String → List Row → Type 0
Unambiguous name rows =
    All
      (λ (row : Row).
        row.name ≡ name
        → All (λ (more : Row). more.name ≡ name → more.row_schema ≡ row.row_schema) rows)
      rows

pub named-OneSchema :
    (name : String) (rows : List Row) → Unambiguous name rows → OneSchema (named name rows)
named-OneSchema name rows h =
    named-All
      (λ (row : Row). All (λ (more : Row). more.row_schema ≡ row.row_schema) (named name rows)) name
      rows
      (All-map _ _ rows
        (λ row f same.
          named-All (λ (more : Row). more.row_schema ≡ row.row_schema) name rows (f same))
        h)

any-false :
    (p : Row → Bool) (P : Row → Type 0) (rows : List Row)
    → ((row : Row) → p row ≡ false → P row)
    → any p rows ≡ false
    → All P rows
any-false p P [] f h = tt
any-false p P (row ∷ rows) f h = (f row ground arith, any-false p P rows f ground arith)

same_schema :
    (row more : Row) (name : String)
    → (more.name == name && not (more.row_schema == row.row_schema)) ≡ false
    → more.name ≡ name
    → more.row_schema ≡ row.row_schema
same_schema row more name h e = ==-true _ _ (and-false more.name name _ h e)

pub is_ambiguous-Unambiguous :
    (rows : List Row) (name : String) → is_ambiguous none rows name ≡ false → Unambiguous name rows
unfolding is_ambiguous
is_ambiguous-Unambiguous rows name h =
    any-false _ _ rows
      (λ row e same.
        any-false _ _ rows (λ more f same'. same_schema row more name f same')
          (and-false row.name name _ e same))
      h
