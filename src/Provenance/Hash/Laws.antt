-- ===== src/Provenance/Hash/Laws.antt =====
-- flightsql/provenance.py: what the hash of an archive looks like, and when there is none.
use flightsql_dbapi.Prelude.{ℕ, ◌≡◌, ◌⊎◌, true, Option, none, some, List, bytes_eq}
use flightsql_dbapi.Prelude.Dict.{lookup}
use flightsql_dbapi.Prelude.Text.{codes, lower}
use flightsql_dbapi.Errors.{ok}
use flightsql_dbapi.Provenance.Hash.{null, Hashes, ArchiveInfo, is_sha256, legacy_value}

-- 64 hexadecimal characters without capitals.
abbrev pub Digest : List ℕ → Type 0
Digest h = (is_sha256 h ≡ true) × (lower h ≡ h)

-- The member `sha256` is missing or null, and so is `hash`.
abbrev pub Unrecorded : ArchiveInfo → Hashes → Type 0
Unrecorded info hashes =
    ((lookup (codes "sha256") hashes ≡ none) ⊎ (lookup (codes "sha256") hashes ≡ some null))
    × (legacy_value (lookup (codes "hash") info) ≡ ok none)

abbrev pub Read : ArchiveInfo → Hashes → Option (List ℕ) → Type 0
Read info hashes none = Unrecorded info hashes
Read info hashes (some h) = Digest h
