-- ===== src/Provenance/Source.antt =====
-- flightsql/provenance.py: the source that direct_url.json records, against the expected one. The
-- parsing of URLs and the file behind a file URL are parameters.
use flightsql_dbapi.Prelude.{
  ℕ, ◌-◌, Bool, true, false, not, ◌||◌, Option, none, some, List, [], ◌∷◌, ◌++◌, ◌==◌, contains,
  bytes_eq, option_eq, eqb, if◌then◌else◌, length, take,
}
use mathlib.Core.List.{reverse}
use flightsql_dbapi.Prelude.Dict.{lookup}
use flightsql_dbapi.Prelude.Text.{codes, lower, starts_with}
use flightsql_dbapi.Errors.{Result, ok, raised, ◌>>=◌}
use flightsql_dbapi.Provenance.Hash.{
  Json, string, ArchiveInfo, DirectUrl, provenance_error, archive_sha256,
}

-- What `urlparse` returns.
pub record ParsedUrl : Type 0 where
  pub scheme : List ℕ
  pub username : Option (List ℕ)
  pub password : Option (List ℕ)
  pub hostname : Option (List ℕ)
  pub netloc : List ℕ
  pub path : List ℕ
  pub query : List ℕ
  pub fragment : List ℕ

-- `Path(url2pathname(...))`, as far as the code asks of it, and the digest of the
-- file, which Provenance/Digest computes.
pub record LocalPath : Type 0 where
  pub is_absolute : Bool
  pub is_symlink : Bool
  pub is_file : Bool
  pub name : List ℕ
  pub file_sha256 : Result (List ℕ)

pub record Urls : Type 0 where
  pub urlparse : List ℕ → Result ParsedUrl
  pub local_path : List ℕ → LocalPath

abbrev is_given : List ℕ → Bool
is_given [] = false
is_given (c ∷ s) = true

abbrev is_some_given : Option (List ℕ) → Bool
is_some_given none = false
is_some_given (some s) = is_given s

unfoldable pub ends_with : List ℕ → List ℕ → Bool
unfolding starts_with
ends_with s suffix = starts_with (reverse s) (reverse suffix)

abbrev drop_slashes : List ℕ → List ℕ
drop_slashes [] = []
drop_slashes (c ∷ s) = let rest = drop_slashes s in if eqb c b'/' then rest else c ∷ s

-- `url.rstrip("/").removesuffix(".git")`
unfoldable pub repository_base : List ℕ → List ℕ
unfolding ends_with
repository_base url =
    if ends_with (reverse (drop_slashes (reverse url))) (codes ".git")
    then take (length (reverse (drop_slashes (reverse url))) - 4)
        (reverse (drop_slashes (reverse url)))
    else reverse (drop_slashes (reverse url))

unfoldable pub is_uncredentialed : ParsedUrl → Bool
unfolding bytes_eq
is_uncredentialed parsed = not (
    not (parsed.scheme == codes "https")
    || (is_some_given parsed.username
        || (is_some_given parsed.password
            || (is_given parsed.query
                || (is_given parsed.fragment || not (is_some_given parsed.hostname))))))

-- `info.get(name)` is that text.
unfoldable pub has_text : {O : Type 0} → Option (Json O) → List ℕ → Bool
unfolding bytes_eq
has_text (some (string s)) expected = s == expected
has_text _ expected = false

-- It is a text that is `expected` in lower case.
unfoldable pub has_lower_text : {O : Type 0} → Option (Json O) → List ℕ → Bool
unfolding bytes_eq lower
has_lower_text (some (string s)) expected = lower s == expected
has_lower_text _ expected = false

abbrev pub matched : List ℕ → Option (List ℕ) → Result (List ℕ)
matched expected none = raised (provenance_error "recorded SHA-256 is not the expected one")
matched expected (some installed) =
    if not (installed == expected)
    then raised (provenance_error "recorded SHA-256 is not the expected one")
    else ok installed

-- `_verify_archive_source`
unfoldable pub verify_archive_source : DirectUrl → Option (List ℕ) → Result (List ℕ)
unfolding archive_sha256 bytes_eq
verify_archive_source direct_url none =
    raised (provenance_error "installs require --expected-artifact-sha256")
verify_archive_source direct_url (some expected) = archive_sha256 direct_url >>= matched expected

-- A file by its name that may be an artifact.
unfoldable pub is_artifact_name : List ℕ → Bool
unfolding ends_with
is_artifact_name name =
    ends_with name (codes ".whl")
    || (ends_with name (codes ".tar.gz") || ends_with name (codes ".zip"))

abbrev pub checked_artifact : List ℕ → LocalPath → Result (List ℕ)
checked_artifact expected file =
    if not file.is_absolute
    then raised (provenance_error "local-artifact mode requires an absolute file URL")
    else if file.is_symlink || not file.is_file
    then raised (provenance_error "file URL does not reference a regular non-symlink file")
    else if not (is_artifact_name file.name)
    then raised (provenance_error "requires a wheel or source-distribution file URL")
    else (file.file_sha256 >>= λ actual.
        if not (actual == expected)
        then raised (provenance_error "local-artifact file SHA-256 is not the expected one")
        else ok actual)

module _ (urls : Urls) where
  -- `_normalized_repository`
  unfoldable pub normalized_repository : List ℕ → Result (List ℕ)
  unfolding repository_base is_uncredentialed
  normalized_repository url = urls.urlparse url >>= λ parsed.
      if not (is_uncredentialed parsed)
      then raised (provenance_error "repository URL is not an uncredentialed HTTPS source")
      else ok (repository_base url)

  abbrev pub archives_at : List ℕ → List ℕ → List (List ℕ)
  archives_at base commit =
      (base ++ (codes "/archive/" ++ (commit ++ codes ".tar.gz")))
      ∷ (base ++ (codes "/archive/" ++ (commit ++ codes ".zip")))
      ∷ []

  abbrev pub codeload_at : List ℕ → List ℕ → List (List ℕ)
  codeload_at path commit =
      (codes "https://codeload.github.com" ++ (path ++ (codes "/tar.gz/" ++ commit)))
      ∷ (codes "https://codeload.github.com" ++ (path ++ (codes "/zip/" ++ commit)))
      ∷ []

  -- `_accepted_archive_urls`, as a list.
  unfoldable pub accepted_archive_urls : List ℕ → List ℕ → Result (List (List ℕ))
  unfolding normalized_repository bytes_eq
  accepted_archive_urls repository commit = normalized_repository repository >>= λ base.
      urls.urlparse base >>= λ parsed.
      if not (parsed.netloc == codes "github.com")
      then ok (archives_at base commit)
      else ok (archives_at base commit ++ codeload_at parsed.path commit)

  -- `_verify_vcs_source`
  unfoldable pub verify_vcs_source : List ℕ → ArchiveInfo → List ℕ → List ℕ → Result (Unit {0})
  unfolding normalized_repository has_text has_lower_text lookup bytes_eq
  verify_vcs_source source_url vcs_info expected_repository expected_commit =
      if not (has_text (lookup (codes "vcs") vcs_info) (codes "git"))
      then raised (provenance_error "expected Git provenance")
      else (normalized_repository source_url >>= λ source.
          normalized_repository expected_repository >>= λ expected.
          if not (source == expected)
          then raised (provenance_error "installed source repository is not the expected one")
          else if not (has_lower_text (lookup (codes "commit_id") vcs_info) expected_commit)
          then raised (provenance_error "installed VCS commit is not the expected one")
          else if not
              (has_lower_text (lookup (codes "requested_revision") vcs_info) expected_commit)
          then raised (provenance_error "requested VCS revision is not the immutable full SHA")
          else ok tt)

  -- `_verify_local_artifact_file`
  unfoldable pub verify_local_artifact_file : List ℕ → Option (List ℕ) → Result (List ℕ)
  unfolding is_artifact_name bytes_eq
  verify_local_artifact_file source_url none =
      raised (provenance_error "local-artifact installs require --expected-artifact-sha256")
  verify_local_artifact_file source_url (some expected) = urls.urlparse source_url >>= λ parsed.
      if not (contains ([] ∷ codes "localhost" ∷ []) parsed.netloc)
        || (is_given parsed.query || is_given parsed.fragment)
      then raised (provenance_error "requires a local, uncredentialed file URL")
      else checked_artifact expected (urls.local_path parsed.path)
