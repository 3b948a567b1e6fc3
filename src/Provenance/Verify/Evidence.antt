-- ===== src/Provenance/Verify/Evidence.antt =====
-- What a verified installation promises of its source, for each mode, with no word of how it is
-- checked.
use flightsql_dbapi.Prelude.{
  ℕ, ◌≡◌, ap, Bool, true, false, Option, none, some, List, map, contains, bytes_eq,
}
use flightsql_dbapi.Prelude.Dict.{lookup}
use flightsql_dbapi.Prelude.Text.{codes, lower}
use flightsql_dbapi.Errors.{ok}
use flightsql_dbapi.Provenance.Hash.{string, object, ArchiveInfo, DirectUrl, archive_sha256}
use flightsql_dbapi.Provenance.Source.{
  ParsedUrl, Urls, normalized_repository, accepted_archive_urls, is_artifact_name,
}
use flightsql_dbapi.Provenance.Verify.{
  git, source_archive, local_artifact, VerificationResult, result_of, has_member,
}

-- A member that is a text, and is `expected` in lower case.
abbrev pub Names : ArchiveInfo → List ℕ → List ℕ → Type 0
Names info name expected =
    (s : List ℕ) × (lookup name info ≡ some (string s)) × (lower s ≡ expected)

module _ (urls : Urls) (repository commit : List ℕ) (hash : Option (List ℕ))
    (is_local_allowed : Bool) (version installer : List ℕ) (direct_url : DirectUrl) where
  -- A Git checkout of the repository at the commit, which was asked for by its full SHA.
  pub record GitCheckout (source_url : List ℕ) : Type 0 where
    pub info : ArchiveInfo
    pub base : List ℕ
    pub recorded : lookup (codes "vcs_info") direct_url ≡ some (object info)
    pub not_archive : has_member (codes "archive_info") direct_url ≡ false
    pub not_directory : has_member (codes "dir_info") direct_url ≡ false
    pub by_git : lookup (codes "vcs") info ≡ some (string (codes "git"))
    pub source_base : normalized_repository urls source_url ≡ ok base
    pub expected_base : normalized_repository urls repository ≡ ok base
    pub at_commit : Names info (codes "commit_id") commit
    pub requested : Names info (codes "requested_revision") commit

  -- An archive of the commit, of which the installer recorded the expected digest.
  pub record CommitArchive (source_url digest : List ℕ) : Type 0 where
    pub accepted : List (List ℕ)
    pub not_vcs : has_member (codes "vcs_info") direct_url ≡ false
    pub not_directory : has_member (codes "dir_info") direct_url ≡ false
    pub archives : accepted_archive_urls urls repository commit ≡ ok accepted
    pub is_accepted : contains (map lower accepted) (lower source_url) ≡ true
    pub is_expected : hash ≡ some digest
    pub recorded : archive_sha256 direct_url ≡ ok (some digest)

  -- A local file with the expected digest, where the caller allows that.
  pub record LocalArtifact (source_url digest : List ℕ) : Type 0 where
    pub parsed : ParsedUrl
    pub not_vcs : has_member (codes "vcs_info") direct_url ≡ false
    pub not_directory : has_member (codes "dir_info") direct_url ≡ false
    pub is_allowed : is_local_allowed ≡ true
    pub url_parts : urls.urlparse source_url ≡ ok parsed
    pub by_file : parsed.scheme ≡ codes "file"
    pub is_regular : (urls.local_path parsed.path).is_file ≡ true
    pub not_symlink : (urls.local_path parsed.path).is_symlink ≡ false
    pub artifact : is_artifact_name (urls.local_path parsed.path).name ≡ true
    pub is_expected : hash ≡ some digest
    pub actual : (urls.local_path parsed.path).file_sha256 ≡ ok digest

  -- The source URL that is recorded, the evidence, and the result that says no more than it.
  pub data Evidence (source_url : List ℕ) (r : VerificationResult) : Type 0 where
    from_git :
        GitCheckout source_url
        → r ≡ result_of version installer git commit true (some commit) none none
        → Evidence source_url r
    from_archive :
        (digest : List ℕ)
        → CommitArchive source_url digest
        → r
          ≡ result_of version installer source_archive commit true (some commit) (some digest) none
        → Evidence source_url r
    from_file :
        (digest : List ℕ)
        → LocalArtifact source_url digest
        → r ≡ result_of version installer local_artifact commit false none none (some digest)
        → Evidence source_url r

-- A result with evidence says that it is one.
pub Evidence-ok :
    (urls : Urls) (repository commit : List ℕ) (hash : Option (List ℕ)) (is_local_allowed : Bool)
    (version installer : List ℕ) (direct_url : DirectUrl) (source_url : List ℕ)
    (r : VerificationResult)
    → Evidence urls repository commit hash is_local_allowed version installer direct_url source_url
        r
    → r.is_ok ≡ true
unfolding result_of
Evidence-ok urls repository commit hash is_local_allowed version installer direct_url source_url r
      (from_git checkout e) =
    ap (λ r. r.is_ok) e
Evidence-ok urls repository commit hash is_local_allowed version installer direct_url source_url r
      (from_archive digest archive e) =
    ap (λ r. r.is_ok) e
Evidence-ok urls repository commit hash is_local_allowed version installer direct_url source_url r
      (from_file digest file e) =
    ap (λ r. r.is_ok) e
