-- ===== src/Provenance/Verify.antt =====
-- flightsql/provenance.py, verify: the mode of the source and the result, from the direct_url.json
-- of an installation.
pub mod Evidence
pub mod Reading
pub mod Laws
use flightsql_dbapi.Prelude.{
  ℕ, Bool, true, false, not, ◌&&◌, ◌||◌, Option, none, some, List, [], ◌∷◌, map, ◌==◌, contains,
  bytes_eq, eqb, length, all, if◌then◌else◌,
}
use flightsql_dbapi.Prelude.Dict.{lookup, keys}
use flightsql_dbapi.Prelude.Text.{codes, lower}
use flightsql_dbapi.Errors.{Result, ok, raised, ◌>>=◌}
use flightsql_dbapi.Provenance.Hash.{
  Json, null, string, object, other, ArchiveInfo, DirectUrl, provenance_error, is_hex,
  normalized_hash, archive_sha256,
}
use flightsql_dbapi.Provenance.Source.{
  Urls, verify_archive_source, accepted_archive_urls, verify_vcs_source, verify_local_artifact_file,
}

pub data SourceMode : Type 0 where
  git source_archive local_artifact : SourceMode

pub record VerificationResult : Type 0 where
  pub is_ok : Bool
  pub distribution : List ℕ
  pub installed_version : List ℕ
  pub version_verified : Bool
  pub source_mode : SourceMode
  pub package_source_record_sha256_verified : Bool
  pub distribution_metadata_record_sha256_verified : Bool
  pub direct_url_record_sha256_verified : Bool
  pub expected_commit : List ℕ
  pub commit_verified : Bool
  pub verified_commit : Option (List ℕ)
  pub recorded_archive_sha256_matched : Option (List ℕ)
  pub local_artifact_file_sha256_verified : Option (List ℕ)
  pub installer : List ℕ

abbrev pub distribution_name : List ℕ
distribution_name = codes "flightsql-dbapi"

-- `_result`
unfoldable pub result_of :
    List ℕ
    → List ℕ
    → SourceMode
    → List ℕ
    → Bool
    → Option (List ℕ)
    → Option (List ℕ)
    → Option (List ℕ)
    → VerificationResult
result_of expected installer mode commit is_verified verified recorded_hash local_hash = record {
  is_ok = true;
  distribution = distribution_name;
  installed_version = expected;
  version_verified = true;
  source_mode = mode;
  package_source_record_sha256_verified = true;
  distribution_metadata_record_sha256_verified = true;
  direct_url_record_sha256_verified = true;
  expected_commit = commit;
  commit_verified = is_verified;
  verified_commit = verified;
  recorded_archive_sha256_matched = recorded_hash;
  local_artifact_file_sha256_verified = local_hash;
  installer = installer;
}

-- `name in direct_url`
unfoldable pub has_member : List ℕ → DirectUrl → Bool
unfolding bytes_eq
has_member name direct_url = contains (keys direct_url) name

-- `_FULL_SHA.fullmatch`
unfoldable pub is_full_sha : List ℕ → Bool
unfolding is_hex
is_full_sha s = eqb (length s) 40 && all is_hex s

abbrev pub text_or_error : Option (Json ArchiveInfo) → Result (List ℕ)
text_or_error (some (string s)) = ok s
text_or_error _ = raised (provenance_error "direct_url.json has no string source URL")

abbrev pub object_or_error : Option (Json ArchiveInfo) → Result ArchiveInfo
object_or_error (some (object info)) = ok info
object_or_error _ = raised (provenance_error "vcs_info must contain a JSON object")

-- `_normalized_hash(expected) if expected else None`
unfoldable pub expected_hash : Option (List ℕ) → Result (Option (List ℕ))
unfolding normalized_hash
expected_hash none = ok none
expected_hash (some []) = ok none
expected_hash (some (c ∷ s)) = normalized_hash (c ∷ s) >>= λ h. ok (some h)

-- `commit` is in lower case here, `hash` is normalized, and `version` and `installer` are those of
-- the installation.
module _ (urls : Urls) (repository commit : List ℕ) (hash : Option (List ℕ))
    (is_local_allowed : Bool) (version installer : List ℕ) where
  unfoldable pub verify_git : List ℕ → DirectUrl → Result VerificationResult
  unfolding verify_vcs_source has_member result_of lookup bytes_eq
  verify_git source_url direct_url =
      object_or_error (lookup (codes "vcs_info") direct_url) >>= λ info.
      if has_member (codes "archive_info") direct_url || has_member (codes "dir_info") direct_url
      then raised (provenance_error "mixes VCS provenance with archive/directory metadata")
      else (verify_vcs_source urls source_url info repository commit >>= λ done.
          ok (result_of version installer git commit true (some commit) none none))

  unfoldable pub verify_source_archive : DirectUrl → Result VerificationResult
  unfolding verify_archive_source has_member result_of
  verify_source_archive direct_url =
      if has_member (codes "dir_info") direct_url
      then raised (provenance_error "mixes archive provenance with directory metadata")
      else (verify_archive_source direct_url hash >>= λ verified. ok (
          result_of version installer source_archive commit true (some commit) (some verified)
            none))

  unfoldable pub verify_local_artifact : List ℕ → DirectUrl → Result VerificationResult
  unfolding verify_local_artifact_file archive_sha256 has_member result_of
  verify_local_artifact source_url direct_url =
      if not is_local_allowed
      then raised (provenance_error "a local artifact does not encode its source commit")
      else if has_member (codes "dir_info") direct_url
      then raised (provenance_error "does not accept an editable/local directory installation")
      else (archive_sha256 direct_url >>= λ recorded.
          verify_local_artifact_file urls source_url hash >>= λ verified.
          ok (result_of version installer local_artifact commit false none none (some verified)))

  unfoldable pub verify_other : List ℕ → DirectUrl → Result VerificationResult
  unfolding verify_local_artifact bytes_eq
  verify_other source_url direct_url = urls.urlparse source_url >>= λ parsed.
      if parsed.scheme == codes "file"
      then verify_local_artifact source_url direct_url
      else raised
          (provenance_error "installed source is neither the expected repository nor its archive")

  unfoldable pub verify_without_vcs : List ℕ → DirectUrl → Result VerificationResult
  unfolding accepted_archive_urls verify_source_archive verify_other lower bytes_eq
  verify_without_vcs source_url direct_url =
      accepted_archive_urls urls repository commit >>= λ accepted.
      if contains (map lower accepted) (lower source_url)
      then verify_source_archive direct_url
      else verify_other source_url direct_url

  -- The part of `verify` below the reading of direct_url.json.
  unfoldable pub verify_source : DirectUrl → Result VerificationResult
  unfolding verify_git verify_without_vcs has_member lookup bytes_eq
  verify_source direct_url = text_or_error (lookup (codes "url") direct_url) >>= λ source_url.
      if has_member (codes "vcs_info") direct_url
      then verify_git source_url direct_url
      else verify_without_vcs source_url direct_url
