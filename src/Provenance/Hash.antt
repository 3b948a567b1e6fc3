-- ===== src/Provenance/Hash.antt =====
-- flightsql/provenance.py: the SHA-256 of an archive in direct_url.json, and the hashes of RECORD.
-- A text is the list of its code points.
pub mod Laws
use flightsql_dbapi.Prelude.{
  ℕ, ◌≤◌, Bool, true, false, not, ◌&&◌, ◌||◌, Option, none, some, List, [], ◌∷◌, String, ◌<>◌, map,
  ◌==◌, contains, bytes_eq, option_eq, leb, eqb, if◌then◌else◌, length, drop, any, all,
}
use flightsql_dbapi.Prelude.Dict.{Dict, lookup, insert, keys}
use flightsql_dbapi.Prelude.Text.{codes, lower, starts_with}
use flightsql_dbapi.Errors.{
  Exn, foreign, ForeignClass, provenance_mismatch, Result, ok, raised, ◌>>=◌,
}

-- A JSON value where the code looks into objects of a kind only.
pub data Json (O : Type 0) : Type 0 where
  null : Json O
  string : List ℕ → Json O
  object : O → Json O
  other : Json O

-- direct_url.json, its `archive_info` and the `hashes` in it. JSON names are strings.
abbrev pub Hashes : Type 0
Hashes = Dict (List ℕ) (Json (Unit {0}))

abbrev pub ArchiveInfo : Type 0
ArchiveInfo = Dict (List ℕ) (Json Hashes)

abbrev pub DirectUrl : Type 0
DirectUrl = Dict (List ℕ) (Json ArchiveInfo)

abbrev pub is_provenance_class : ForeignClass → Bool
is_provenance_class provenance_mismatch = true
is_provenance_class _ = false

abbrev pub provenance_error : String → Exn
provenance_error message =
    foreign (record { is_instance = λ c. is_provenance_class c; message = message })

unfoldable pub is_hex : ℕ → Bool
is_hex c = (leb b'0' c && leb c b'9') || ((leb b'a' c && leb c b'f') || (leb b'A' c && leb c b'F'))

-- `_SHA256.fullmatch`
unfoldable pub is_sha256 : List ℕ → Bool
unfolding is_hex
is_sha256 s = eqb (length s) 64 && all is_hex s

abbrev pub without_prefix : List ℕ → List ℕ
without_prefix value =
    if starts_with value (codes "sha256=") || starts_with value (codes "sha256:")
    then drop 7 value
    else value

unfoldable pub normalized_hash : List ℕ → Result (List ℕ)
unfolding starts_with is_sha256 lower
normalized_hash value =
    if is_sha256 (without_prefix value)
    then ok (lower (without_prefix value))
    else raised (provenance_error "must contain exactly 64 hexadecimal characters")

-- A member that is missing or null counts as an empty object.
abbrev pub object_or_empty : {K V : Type 0} → String → Option (Json (Dict K V)) → Result (Dict K V)
object_or_empty what none = ok []
object_or_empty what (some null) = ok []
object_or_empty what (some (object d)) = ok d
object_or_empty what (some (string s)) = raised (provenance_error what)
object_or_empty what (some other) = raised (provenance_error what)

unfoldable pub is_unsafe : List ℕ → Bool
unfolding lower bytes_eq
is_unsafe algorithm = contains (codes "md5" ∷ codes "sha1" ∷ []) (lower algorithm)

-- `s.split("=", 1)`, where there is a "=".
unfoldable pub split_once : List ℕ → Option (List ℕ × List ℕ)
split_once [] = none
split_once (c ∷ s) = let rest = split_once s in if eqb c b'=' then some ([], s) else after c rest
  where
    after : ℕ → Option (List ℕ × List ℕ) → Option (List ℕ × List ℕ)
    after c none = none
    after c (some (before, behind)) = some (c ∷ before, behind)

abbrev pub legacy_of : Option (List ℕ × List ℕ) → Result (Option (List ℕ))
legacy_of none = raised (provenance_error "legacy archive hash is malformed")
legacy_of (some (algorithm, value)) =
    if lower algorithm == codes "sha256"
    then ok (some value)
    else raised (provenance_error "unsafe or unsupported artifact hash algorithm")

-- The value of the older member `hash`.
unfoldable pub legacy_value : Option (Json Hashes) → Result (Option (List ℕ))
unfolding split_once lower bytes_eq
legacy_value none = ok none
legacy_value (some null) = ok none
legacy_value (some (string s)) = legacy_of (split_once s)
legacy_value (some (object d)) = raised (provenance_error "legacy archive hash is malformed")
legacy_value (some other) = raised (provenance_error "legacy archive hash is malformed")

abbrev pub conflict : {A : Type 0} → Result A
conflict = raised (provenance_error "conflicting SHA-256 artifact hashes")

abbrev pub normalized_some : Result (List ℕ) → Result (Option (List ℕ))
normalized_some h = h >>= λ digest. ok (some digest)

-- The two members against each other, then the check of the value.
abbrev pub checked : Option (Json (Unit {0})) → Option (List ℕ) → Result (Option (List ℕ))
checked none none = ok none
checked (some null) none = ok none
checked none (some old) = normalized_some (normalized_hash old)
checked (some null) (some old) = normalized_some (normalized_hash old)
checked (some (string s)) none = normalized_some (normalized_hash s)
checked (some (string s)) (some old) =
    if s == old then normalized_some (normalized_hash s) else conflict
checked (some (object d)) none = raised (provenance_error "artifact SHA-256 must be a string")
checked (some (object d)) (some old) = conflict
checked (some other) none = raised (provenance_error "artifact SHA-256 must be a string")
checked (some other) (some old) = conflict

unfoldable pub hashes_of : DirectUrl → Result (ArchiveInfo × Hashes)
unfolding lookup bytes_eq
hashes_of direct_url =
    object_or_empty "archive_info must contain a JSON object"
      (lookup (codes "archive_info") direct_url)
    >>= λ info.
        object_or_empty "archive hashes must contain a JSON object" (lookup (codes "hashes") info)
        >>= λ hashes. ok (info, hashes)

abbrev pub sha256_in : ArchiveInfo → Hashes → Result (Option (List ℕ))
sha256_in info hashes =
    if any is_unsafe (keys hashes)
    then raised (provenance_error "unsafe artifact hash algorithm")
    else (legacy_value (lookup (codes "hash") info) >>= checked (lookup (codes "sha256") hashes))

-- `_archive_sha256`
unfoldable pub archive_sha256 : DirectUrl → Result (Option (List ℕ))
unfolding hashes_of is_unsafe legacy_value lookup normalized_hash bytes_eq
archive_sha256 direct_url = hashes_of direct_url >>= λ (info, hashes). sha256_in info hashes

-- `_RECORD_SHA256.fullmatch`
unfoldable pub is_record_digest : List ℕ → Bool
is_record_digest s = eqb (length s) 43 && all is_url_safe s
  where
    is_url_safe : ℕ → Bool
    is_url_safe c =
        (leb b'A' c && leb c b'Z')
        || ((leb b'a' c && leb c b'z')
            || ((leb b'0' c && leb c b'9') || (eqb c b'_' || eqb c b'-')))

abbrev record_digest : Option (List ℕ × List ℕ) → Result (Option (List ℕ))
record_digest none = raised (provenance_error "RECORD hash is malformed")
record_digest (some (algorithm, digest)) =
    if not (lower algorithm == codes "sha256")
    then raised (provenance_error "RECORD uses an unsafe or unsupported hash algorithm")
    else if is_record_digest digest
    then ok (some digest)
    else raised (provenance_error "RECORD SHA-256 is malformed")

-- `_parse_record_hash`, without the path in its messages.
unfoldable pub parse_record_hash : List ℕ → Result (Option (List ℕ))
unfolding split_once lower bytes_eq is_record_digest
parse_record_hash [] = ok none
parse_record_hash (c ∷ s) = record_digest (split_once (c ∷ s))

-- `_unique_json_object`, from the object so far.
unfoldable pub unique_json_object :
    {V : Type 0} → Dict (List ℕ) V → List (List ℕ × V) → Result (Dict (List ℕ) V)
unfolding insert bytes_eq
unique_json_object found [] = ok found
unique_json_object found ((key, value) ∷ pairs) =
    let rest = unique_json_object (insert key value found) pairs in
    if contains (keys found) key
    then raised (provenance_error "direct_url.json contains a duplicate key")
    else rest
