-- ===== src/Tests/Provenance.antt =====
-- The hash of an archive that both members of direct_url.json record.
use flightsql_dbapi.Prelude.{◌≡◌, refl, none, List, ℕ, [], ◌∷◌}
use flightsql_dbapi.Prelude.Text.{codes}
use flightsql_dbapi.Errors.{ok}
use flightsql_dbapi.Provenance.Hash.{
  string, object, Hashes, ArchiveInfo, DirectUrl, parse_record_hash,
}

abbrev recorded : List ℕ
recorded = codes "aBaBaBaBaBaBaBaBaBaBaBaBaBaBaBaBaBaBaBaBaBaBaBaBaBaBaBaBaBaBaBaB"

abbrev digest : List ℕ
digest = codes "abababababababababababababababababababababababababababababababab"

abbrev hashes : Hashes
hashes = (codes "sha256", string recorded) ∷ []

abbrev info : ArchiveInfo
info =
    (
      codes "hash",
      string (codes "sha256=aBaBaBaBaBaBaBaBaBaBaBaBaBaBaBaBaBaBaBaBaBaBaBaBaBaBaBaBaBaBaBaB"),
    )
    ∷ (codes "hashes", object hashes)
    ∷ []

abbrev direct_url : DirectUrl
direct_url = (codes "archive_info", object info) ∷ []

no_record_hash : parse_record_hash [] ≡ ok none
unfolding parse_record_hash
no_record_hash = refl
