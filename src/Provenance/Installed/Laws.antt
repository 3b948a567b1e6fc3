-- ===== src/Provenance/Installed/Laws.antt =====
-- flightsql/provenance.py, verify: what holds of an installation that it returns a result for.
use flightsql_dbapi.Prelude.{
  ℕ, ◌≡◌, refl, sym, ap, subst, Bool, true, false, not, Option, some, List, [], ◌∷◌, ◌++◌, ◌==◌,
  eq_of_==, any, bytes_eq, unnegated,
}
use flightsql_dbapi.Prelude.Dict.{lookup}
use flightsql_dbapi.Prelude.Text.{codes, lower, strip}
use flightsql_dbapi.Errors.{ok, ok_injective, bind_ok, passed}
use flightsql_dbapi.Provenance.Hash.{string, DirectUrl}
use flightsql_dbapi.Provenance.Inventory.{path_eq, verify_scoped_inventory}
use flightsql_dbapi.Provenance.Inventory.Laws.{
  Inventoried, verify_scoped_inventory-Inventoried, verify_scoped_inventory-paths,
}
use flightsql_dbapi.Provenance.Verify.{VerificationResult, is_full_sha, expected_hash}
use flightsql_dbapi.Provenance.Verify.Evidence.{Evidence}
use flightsql_dbapi.Provenance.Verify.Laws.{verify_source-Evidence}
use flightsql_dbapi.Provenance.Installed.{
  Location, Distribution, System, is_other_distribution, without_decoys, only_one, by_path,
  discovered, selected_distribution, version_of,
}
use flightsql_dbapi.Provenance.Installed.Layout.{
  InstalledDistribution, named_or_error, some_or_error, installer_or_error, equal_or_error,
  read_record_file, inspect_installed_distribution, package_version, installed_distribution,
  installed_direct_url, verify,
}

module _ {V : Type 0} (system : System V) where
  -- The metadata directory that is read is in the root of its distribution, no other directory there
  -- is one of the package, RECORD gives the rows, and they agree with the files.
  pub record Inspected (layout : InstalledDistribution) : Type 0 where
    pub location : Location
    pub selected : selected_distribution system ≡ ok (location, layout.distribution)
    pub in_root : location.parent ≡ layout.site_root
    pub alone :
        any
          (is_other_distribution system layout.site_root location.name)
          (system.dist_infos layout.site_root)
        ≡ false
    pub is_dist_info : layout.dist_info ≡ location.name ∷ []
    pub rows :
        read_record_file system (system.site layout.site_root) location.name ≡ ok layout.record_rows
    pub files : Inventoried (system.site layout.site_root) layout.record_rows layout.dist_info
    pub direct_url_is : layout.direct_url_path ≡ layout.dist_info ++ (codes "direct_url.json" ∷ [])

  abbrev Alone : Location → Distribution → Type 0
  Alone location d =
      (location.parent ≡ d.root)
      × (any (is_other_distribution system d.root location.name) (system.dist_infos d.root) ≡ false)

  without_decoys-Alone :
      (location : Location) (d : Distribution) (selected : Location × Distribution)
      → without_decoys system location d ≡ ok selected
      → Alone selected.0 selected.1
  without_decoys-Alone location d selected e =
      let (placed, e0) = passed (not (location.parent == d.root)) _ _ selected e in
      let (alone, e1) =
        passed (any (is_other_distribution system d.root location.name) (system.dist_infos d.root))
          _ _ selected e0 in
      subst (λ s. Alone s.0 s.1) (ok_injective (location, d) selected e1)
        (eq_of_== location.parent d.root (unnegated _ placed), alone)

  selected_distribution-Alone :
      (selected : Location × Distribution)
      → selected_distribution system ≡ ok selected
      → Alone selected.0 selected.1
  unfolding selected_distribution
  selected_distribution-Alone selected e =
      let (ds, e0, f0) = bind_ok (discovered system system.distributions) _ selected e in
      let (found, e1, f1) = bind_ok (by_path [] ds) _ selected f0 in
      let ((location, d), e2, f2) = bind_ok (only_one system found) _ selected f1 in
      without_decoys-Alone location d selected f2

  inspect_installed_distribution-Inspected :
      (layout : InstalledDistribution)
      → inspect_installed_distribution system ≡ ok layout
      → Inspected layout
  unfolding inspect_installed_distribution
  inspect_installed_distribution-Inspected layout e =
      let ((location, d), e0, f0) = bind_ok (selected_distribution system) _ layout e in
      let (rows, e1, f1) =
        bind_ok (read_record_file system (system.site d.root) location.name) _ layout f0 in
      let (paths, e2, f2) =
        bind_ok (verify_scoped_inventory (system.site d.root) (location.name ∷ []) rows) _ layout
          f1 in
      let alone = selected_distribution-Alone (location, d) e0 in
      subst Inspected (ok_injective _ layout f2) (record {
        location = location;
        selected = e0;
        in_root = alone.0;
        alone = alone.1;
        is_dist_info = refl;
        rows = e1;
        files =
            verify_scoped_inventory-Inventoried (system.site d.root) rows (location.name ∷ []) paths
              e2;
        direct_url_is = sym (
            ap (λ p. p.1)
              (verify_scoped_inventory-paths (system.site d.root) rows (location.name ∷ []) paths
                e2));
      })

  equal_or_error-eq :
      (expected found : V)
      → equal_or_error system expected found ≡ ok tt
      → system.versions.equal found expected ≡ true
  equal_or_error-eq expected found e =
      unnegated _ (passed (not (system.versions.equal found expected)) _ _ tt e).0

  -- An inspected installation whose metadata and package both have the expected version.
  pub record Identified (expected_version : List ℕ) (layout : InstalledDistribution) (expected : V)
      : Type 0 where
    pub installed : V
    pub in_package : V
    pub inspected : Inspected layout
    pub expected_is :
        version_of system "expected version is not valid" expected_version ≡ ok expected
    pub named : named_or_error layout.distribution.metadata_name ≡ ok tt
    pub installed_is :
        version_of system "installed version is not valid" layout.distribution.version
        ≡ ok installed
    pub in_package_is :
        package_version system (system.site layout.site_root) layout.package_init ≡ ok in_package
    pub installed_equal : system.versions.equal installed expected ≡ true
    pub in_package_equal : system.versions.equal in_package expected ≡ true

  installed_distribution-Identified :
      (expected_version : List ℕ) (found : InstalledDistribution × V × List ℕ)
      → installed_distribution system expected_version ≡ ok found
      → Identified expected_version found.0 found.1
  unfolding installed_distribution
  installed_distribution-Identified expected_version found e =
      let (expected, e0, f0) =
        bind_ok (version_of system "expected version is not valid" expected_version) _ found e in
      let (layout, e1, f1) = bind_ok (inspect_installed_distribution system) _ found f0 in
      let (named, e2, f2) = bind_ok (named_or_error layout.distribution.metadata_name) _ found f1 in
      let (installed, e3, f3) =
        bind_ok (version_of system "installed version is not valid" layout.distribution.version) _
          found f2 in
      let (same, e4, f4) = bind_ok (equal_or_error system expected installed) _ found f3 in
      let (in_package, e5, f5) =
        bind_ok (package_version system (system.site layout.site_root) layout.package_init) _ found
          f4 in
      let (same', e6, f6) = bind_ok (equal_or_error system expected in_package) _ found f5 in
      let (text, e7, f7) =
        bind_ok
          (some_or_error "INSTALLER cannot be read as UTF-8" (
            (system.site layout.site_root).read_text
              (layout.dist_info ++ (codes "INSTALLER" ∷ []))))
          _ found f6 in
      let (installer, e8, f8) = bind_ok (installer_or_error (lower (strip text))) _ found f7 in
      subst (λ f. Identified expected_version f.0 f.1) (ok_injective _ found f8)
        (record {
          installed = installed;
          in_package = in_package;
          inspected = inspect_installed_distribution-Inspected layout e1;
          expected_is = e0;
          named = e2;
          installed_is = e3;
          in_package_is = e5;
          installed_equal = equal_or_error-eq expected installed e4;
          in_package_equal = equal_or_error-eq expected in_package e6;
        })

  module _ (expected_commit expected_version expected_repository : List ℕ)
      (artifact_sha256 : Option (List ℕ)) (is_local_allowed : Bool) where
    -- One identified installation, and the evidence in its direct_url.json.
    pub record Verified (r : VerificationResult) : Type 0 where
      pub layout : InstalledDistribution
      pub expected : V
      pub direct_url : DirectUrl
      pub hash : Option (List ℕ)
      pub installer : List ℕ
      pub source_url : List ℕ
      pub is_full : is_full_sha expected_commit ≡ true
      pub hash_is : expected_hash artifact_sha256 ≡ ok hash
      pub identified : Identified expected_version layout expected
      pub direct_url_is :
          installed_direct_url system (system.site layout.site_root) layout.direct_url_path
          ≡ ok direct_url
      pub source_url_is : lookup (codes "url") direct_url ≡ some (string source_url)
      pub evidence :
          Evidence system.urls expected_repository
            (lower expected_commit)
            hash
            is_local_allowed
            (system.versions.show expected)
            installer
            direct_url
            source_url
            r

    pub verify-Verified :
        (r : VerificationResult)
        → verify system expected_commit expected_version expected_repository artifact_sha256
            is_local_allowed
          ≡ ok r
        → Verified r
    unfolding verify
    verify-Verified r e =
        let (full, e0) = passed (not (is_full_sha expected_commit)) _ _ r e in
        let (hash, e1, f1) = bind_ok (expected_hash artifact_sha256) _ r e0 in
        let ((layout, expected, installer), e2, f2) =
          bind_ok (installed_distribution system expected_version) _ r f1 in
        let (direct_url, e3, f3) =
          bind_ok
            (installed_direct_url system (system.site layout.site_root) layout.direct_url_path) _ r
            f2 in
        let (source_url, url_is, evidence) =
          verify_source-Evidence system.urls expected_repository (lower expected_commit) hash
            is_local_allowed (system.versions.show expected) installer direct_url r f3 in
        record {
          layout = layout;
          expected = expected;
          direct_url = direct_url;
          hash = hash;
          installer = installer;
          source_url = source_url;
          is_full = unnegated _ full;
          hash_is = e1;
          identified =
              installed_distribution-Identified expected_version (layout, expected, installer) e2;
          direct_url_is = e3;
          source_url_is = url_is;
          evidence = evidence;
        }
