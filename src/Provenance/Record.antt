-- ===== src/Provenance/Record.antt =====
-- flightsql/provenance.py: the rows of the RECORD file. Which suffix pathlib sees is a parameter.
pub mod Laws
use flightsql_dbapi.Prelude.{
  ℕ, Bool, true, false, not, ◌&&◌, ◌||◌, Option, none, some, List, [], ◌∷◌, ◌++◌, ◌==◌, contains,
  bytes_eq, leb, ltb, eqb, any, if◌then◌else◌, all,
}
use mathlib.Core.List.{reverse}
use flightsql_dbapi.Prelude.Dict.{Dict, insert, keys}
use flightsql_dbapi.Prelude.Text.{codes, starts_with}
use flightsql_dbapi.Prelude.Decimal.{parse_from}
use flightsql_dbapi.Errors.{Result, ok, raised, ◌>>=◌}
use flightsql_dbapi.Provenance.Hash.{provenance_error, parse_record_hash}

abbrev cons_part : ℕ → List (List ℕ) → List (List ℕ)
cons_part c [] = (c ∷ []) ∷ []
cons_part c (part ∷ parts) = (c ∷ part) ∷ parts

-- `s.split("/")`
unfoldable pub split_slash : List ℕ → List (List ℕ)
split_slash [] = [] ∷ []
split_slash (c ∷ s) = let rest = split_slash s in if eqb c b'/' then [] ∷ rest else cons_part c rest

unfoldable pub is_unsafe_part : List ℕ → Bool
unfolding bytes_eq
is_unsafe_part part = contains ([] ∷ codes "." ∷ codes ".." ∷ []) part

abbrev is_letter : ℕ → Bool
is_letter c = (leb b'A' c && leb c b'Z') || (leb b'a' c && leb c b'z')

-- `re.match(r"^[A-Za-z]:", path_text)`
abbrev has_drive : List ℕ → Bool
has_drive (c ∷ d ∷ s) = is_letter c && eqb d b':'
has_drive _ = false

abbrev is_blank : List ℕ → Bool
is_blank [] = true
is_blank (c ∷ s) = false

-- `_record_path`, for the parts of the path. Without an empty, "." or ".." part they are those
-- of PurePosixPath, which is then not absolute either.
unfoldable pub record_path : List ℕ → Result (List (List ℕ))
unfolding split_slash is_unsafe_part
record_path path =
    if is_blank path || any (λ c. eqb c 92 || ltb c 32) path
    then raised (provenance_error "RECORD contains an invalid path")
    else if any is_unsafe_part (split_slash path) || has_drive path
    then raised (provenance_error "RECORD contains unsafe path traversal")
    else ok (split_slash path)

-- `parts and parts[0].endswith(".dist-info") and parts[0] != prefix`
unfoldable pub is_decoy : List ℕ → List (List ℕ) → Bool
unfolding starts_with bytes_eq
is_decoy prefix [] = false
is_decoy prefix (part ∷ parts) =
    starts_with (reverse part) (reverse (codes ".dist-info")) && not (part == prefix)

-- _RecordRow, whose paths are those of its key.
pub record RecordRow : Type 0 where
  pub digest : Option (List ℕ)
  pub size : Option ℕ

abbrev size_or_error : Option ℕ → Result (Option ℕ)
size_or_error none = raised (provenance_error "RECORD size is invalid")
size_or_error (some n) = ok (some n)

-- `_parse_record_size`, without the path in its message.
unfoldable pub parse_record_size : List ℕ → Result (Option ℕ)
unfolding parse_from
parse_record_size [] = ok none
parse_record_size (c ∷ s) = size_or_error (parse_from 0 (c ∷ s))

abbrev pub is_none : {A : Type 0} → Option A → Bool
is_none none = true
is_none (some a) = false

-- `is_bytecode path` tells whether PurePosixPath gives it the suffix ".pyc".
module _ (is_bytecode : List ℕ → Bool) (prefix : List ℕ) where
  -- `f"{actual_prefix}/RECORD"`
  abbrev pub own_record : List ℕ
  own_record = prefix ++ codes "/RECORD"

  -- The files that may be recorded without a hash.
  abbrev pub may_lack_digest : List ℕ → Bool
  may_lack_digest path = path == own_record || is_bytecode path

  abbrev pub with_digest :
      List ℕ
      → Dict (List ℕ) RecordRow
      → Option (List ℕ)
      → Option ℕ
      → Result (Dict (List ℕ) RecordRow)
  with_digest path rows digest size =
      if is_none digest && not (may_lack_digest path)
      then raised (provenance_error "RECORD has no SHA-256 for a recorded file")
      else ok (insert path (record { digest = digest; size = size }) rows)

  abbrev pub row_of :
      List ℕ
      → List (List ℕ)
      → List ℕ
      → List ℕ
      → Dict (List ℕ) RecordRow
      → Result (Dict (List ℕ) RecordRow)
  row_of path parts hash size rows =
      if contains (keys rows) path
      then raised (provenance_error "RECORD contains a duplicate path")
      else if is_decoy prefix parts
      then raised (provenance_error "RECORD contains a decoy distribution metadata path")
      else (parse_record_hash hash >>= λ digest.
          parse_record_size size >>= λ n. with_digest path rows digest n)

  -- One turn of the loop.
  unfoldable pub add_row :
      List (List ℕ) → Dict (List ℕ) RecordRow → Result (Dict (List ℕ) RecordRow)
  unfolding record_path is_decoy parse_record_hash parse_record_size insert bytes_eq
  add_row (path ∷ hash ∷ size ∷ []) rows =
      record_path path >>= λ parts. row_of path parts hash size rows
  add_row _ rows = raised (provenance_error "RECORD contains a row that does not have three fields")

  unfoldable pub add_rows :
      List (List (List ℕ)) → Dict (List ℕ) RecordRow → Result (Dict (List ℕ) RecordRow)
  unfolding add_row
  add_rows [] rows = ok rows
  add_rows (row ∷ rest) rows = add_row row rows >>= add_rows rest

  abbrev pub with_own_record : Dict (List ℕ) RecordRow → Result (Dict (List ℕ) RecordRow)
  with_own_record rows =
      if contains (keys rows) own_record
      then ok rows
      else raised (provenance_error "RECORD does not list the distribution's own RECORD file")

  -- `_read_record` on the rows that csv.reader made of the file.
  unfoldable pub read_record : List (List (List ℕ)) → Result (Dict (List ℕ) RecordRow)
  unfolding add_rows bytes_eq
  read_record [] = raised (provenance_error "RECORD is empty")
  read_record (row ∷ rows) = add_rows (row ∷ rows) [] >>= with_own_record
