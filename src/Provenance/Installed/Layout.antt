-- ===== src/Provenance/Installed/Layout.antt =====
-- flightsql/provenance.py: RECORD, the inventory, the versions and direct_url.json of the selected
-- distribution, and verify as a whole.
use flightsql_dbapi.Prelude.{
  ℕ, Bool, not, ◌||◌, Option, none, some, List, [], ◌∷◌, ◌++◌, String, contains, bytes_eq,
  if◌then◌else◌,
}
use flightsql_dbapi.Prelude.Dict.{Dict}
use flightsql_dbapi.Prelude.Text.{codes, lower, strip}
use flightsql_dbapi.Errors.{Result, ok, raised, ◌>>=◌}
use flightsql_dbapi.Provenance.Hash.{
  Json, null, string, object, other, DirectUrl, provenance_error, unique_json_object,
}
use flightsql_dbapi.Provenance.Record.{RecordRow, read_record}
use flightsql_dbapi.Provenance.Inventory.{FilePath, Site, verify_scoped_inventory}
use flightsql_dbapi.Provenance.Verify.{
  VerificationResult, is_full_sha, expected_hash, verify_source,
}
use flightsql_dbapi.Provenance.Installed.{
  Distribution, Statement, assignment, other_statement, Members, JsonText, System,
  is_distribution_name, selected_distribution, version_of,
}

-- _InstalledDistribution; the paths are below the site directory.
pub record InstalledDistribution : Type 0 where
  pub distribution : Distribution
  pub site_root : FilePath
  pub dist_info : FilePath
  pub record_rows : Dict (List ℕ) RecordRow
  pub package_init : FilePath
  pub direct_url_path : FilePath

abbrev pub some_or_error : {A : Type 0} → String → Option A → Result A
some_or_error message none = raised (provenance_error message)
some_or_error message (some a) = ok a

-- The texts that are assigned to `__version__`.
unfoldable pub version_literals : List Statement → List (List ℕ)
unfolding bytes_eq
version_literals [] = []
version_literals (other_statement ∷ rest) = version_literals rest
version_literals (assignment targets none ∷ rest) = version_literals rest
version_literals (assignment targets (some value) ∷ rest) =
    let others = version_literals rest in
    if contains targets (codes "__version__") then value ∷ others else others

abbrev pub one_literal : List (List ℕ) → Result (List ℕ)
one_literal (value ∷ []) = ok value
one_literal _ = raised (provenance_error "must contain one literal __version__ assignment")

-- The hook of json.loads on one object, whose members it has seen before.
module _ {P O : Type 0} (hook : P → Result O) where
  abbrev hooked_value : Json P → Result (Json O)
  hooked_value null = ok null
  hooked_value (string s) = ok (string s)
  hooked_value other = ok other
  hooked_value (object p) = hook p >>= λ o. ok (object o)

  unfoldable pub hooked_members : Members P → Result (Members O)
  hooked_members [] = ok []
  hooked_members ((name, value) ∷ rest) =
      hooked_value value >>= λ v. hooked_members rest >>= λ members. ok ((name, v) ∷ members)

  unfoldable pub hooked_object : Members P → Result (Dict (List ℕ) (Json O))
  unfolding hooked_members unique_json_object
  hooked_object members = hooked_members members >>= unique_json_object []

unfoldable pub hooked_direct_url : Members (Members (Members (Unit {0}))) → Result DirectUrl
unfolding hooked_object
hooked_direct_url = hooked_object (hooked_object (hooked_object (λ u. ok u)))

abbrev pub direct_url_or_error : JsonText → Result DirectUrl
direct_url_or_error (object members) = hooked_direct_url members
direct_url_or_error _ = raised (provenance_error "direct_url.json must contain a JSON object")

abbrev pub named_or_error : Option (Option (List ℕ)) → Result (Unit {0})
named_or_error none = raised (provenance_error "METADATA has no project name")
named_or_error (some none) = raised (provenance_error "METADATA has the wrong project name")
named_or_error (some (some name)) =
    if not (is_distribution_name name)
    then raised (provenance_error "METADATA has the wrong project name")
    else ok tt

abbrev pub installer_or_error : List ℕ → Result (List ℕ)
installer_or_error [] = raised (provenance_error "installed INSTALLER is empty")
installer_or_error (c ∷ s) = ok (c ∷ s)

module _ {V : Type 0} (system : System V) where
  -- `_read_record`
  unfoldable pub read_record_file : Site → List ℕ → Result (Dict (List ℕ) RecordRow)
  unfolding read_record
  read_record_file site prefix =
      if site.is_symlink (prefix ∷ codes "RECORD" ∷ [])
        || not (site.is_file (prefix ∷ codes "RECORD" ∷ []))
      then raised (provenance_error "RECORD is missing or is not a regular file")
      else (some_or_error "RECORD cannot be read as UTF-8"
            (site.read_text (prefix ∷ codes "RECORD" ∷ []))
          >>= λ text.
              some_or_error "RECORD cannot be read as CSV" (system.csv_rows text) >>= λ rows.
              read_record site.is_bytecode prefix rows)

  -- `_inspect_installed_distribution`
  unfoldable pub inspect_installed_distribution : Result InstalledDistribution
  unfolding selected_distribution read_record_file verify_scoped_inventory
  inspect_installed_distribution = selected_distribution system >>= λ (location, d).
      read_record_file (system.site d.root) location.name >>= λ rows.
      verify_scoped_inventory (system.site d.root) (location.name ∷ []) rows >>= λ (init, url).
      ok (record {
        distribution = d;
        site_root = d.root;
        dist_info = location.name ∷ [];
        record_rows = rows;
        package_init = init;
        direct_url_path = url;
      })

  -- `_package_version`
  unfoldable pub package_version : Site → FilePath → Result V
  unfolding version_literals version_of
  package_version site package_init =
      some_or_error "__init__.py cannot be read" (site.read_text package_init) >>= λ text.
      some_or_error "__init__.py cannot be parsed safely" (system.statements text)
      >>= λ module_body.
          one_literal (version_literals module_body)
          >>= version_of system "not a valid PEP 440 version"

  abbrev pub equal_or_error : V → V → Result (Unit {0})
  equal_or_error expected found =
      if not (system.versions.equal found expected)
      then raised (provenance_error "does not equal the expected version")
      else ok tt

  -- `_installed_distribution`
  unfoldable pub installed_distribution : List ℕ → Result (InstalledDistribution × V × List ℕ)
  unfolding inspect_installed_distribution package_version version_of is_distribution_name lower
      strip
  installed_distribution expected_version =
      version_of system "expected version is not valid" expected_version >>= λ expected.
      inspect_installed_distribution >>= λ layout.
      named_or_error layout.distribution.metadata_name >>= λ named.
      version_of system "installed version is not valid" layout.distribution.version
      >>= λ installed. equal_or_error expected installed >>= λ same.
          package_version (system.site layout.site_root) layout.package_init >>= λ in_package.
          equal_or_error expected in_package >>= λ same.
          some_or_error "INSTALLER cannot be read as UTF-8" (
            (system.site layout.site_root).read_text (layout.dist_info ++ (codes "INSTALLER" ∷ [])))
          >>= λ text. installer_or_error (lower (strip text)) >>= λ installer.
              ok (layout, expected, installer)

  -- `_installed_direct_url`
  unfoldable pub installed_direct_url : Site → FilePath → Result DirectUrl
  unfolding hooked_direct_url
  installed_direct_url site path =
      some_or_error "direct_url.json is not valid UTF-8" (site.read_text path) >>= λ text.
      some_or_error "direct_url.json is not valid JSON" (system.json_text text)
      >>= direct_url_or_error

  -- `verify`
  unfoldable pub verify :
      List ℕ → List ℕ → List ℕ → Option (List ℕ) → Bool → Result VerificationResult
  unfolding is_full_sha lower expected_hash installed_distribution installed_direct_url
      verify_source
  verify expected_commit expected_version expected_repository artifact_sha256 is_local_allowed =
      if not (is_full_sha expected_commit)
      then raised
          (provenance_error "expected commit must be a full 40-character hexadecimal Git SHA")
      else (expected_hash artifact_sha256 >>= λ hash.
          installed_distribution expected_version >>= λ (layout, expected, installer).
          installed_direct_url (system.site layout.site_root) layout.direct_url_path
          >>= λ direct_url.
              verify_source system.urls expected_repository (lower expected_commit) hash
                is_local_allowed (system.versions.show expected) installer direct_url)
