-- ===== src/Provenance/Inventory/Laws.antt =====
-- flightsql/provenance.py, _verify_scoped_inventory: what holds of the installed files.
use flightsql_dbapi.Prelude.{
  ℕ, ◌≡◌, or_cases, negated, refl, sym, ap, subst, ◌∙◌, ◌⊎◌, inl, inr, true, false, not, ◌||◌,
  Option, none, some, List, [], ◌∷◌, ◌++◌, map, ◌==◌, eq_of_eqb, eq_of_==, contains, nat_eq,
  bytes_eq, length, drop, All, Bool-cases, if-true, if-false, or_left, or_right, unnegated,
}
use flightsql_dbapi.Prelude.Dict.{Dict, lookup}
use flightsql_dbapi.Prelude.Text.{codes}
use flightsql_dbapi.Errors.{ok, ok_injective, bind_ok, passed}
use flightsql_dbapi.Provenance.Record.{RecordRow}
use flightsql_dbapi.Provenance.Inventory.{
  FilePath, path_eq, Site, as_posix, required_package_files, required_metadata_files, package_root,
  is_missing_any, path_has_symlink, checked_size, checked_digest, checked_row, verify_scoped_file,
  is_skipped, verify_files, with_required, verify_scoped_inventory,
}

module _ (site : Site) (rows : Dict (List ℕ) RecordRow) where
  abbrev pub SizeAgrees : FilePath → Option ℕ → Type 0
  SizeAgrees path none = Unit {0}
  SizeAgrees path (some size) = site.file_size path ≡ ok size

  -- A regular file that no symlink leads to, recorded with the digest that it has, and with its
  -- size where a size is recorded.
  abbrev pub Verified : FilePath → Type 0
  Verified path =
      (path_has_symlink site path ≡ false)
      × (site.is_file path ≡ true)
      × ((row : RecordRow) × (digest : List ℕ) × (lookup (as_posix path) rows ≡ some row)
          × (row.digest ≡ some digest)
          × (site.record_sha256 path ≡ ok digest)
          × SizeAgrees path row.size)

  checked_size-SizeAgrees :
      (path : FilePath) (size : Option ℕ)
      → checked_size site path size ≡ ok tt
      → SizeAgrees path size
  checked_size-SizeAgrees path none e = tt
  checked_size-SizeAgrees path (some size) e =
      let (actual, found, e') = bind_ok (site.file_size path) _ tt e in
      found ∙ ap ok (eq_of_eqb actual size (unnegated _ (passed _ _ _ tt e').0))

  checked_digest-agrees :
      (path : FilePath) (size : Option ℕ) (digest : Option (List ℕ))
      → checked_digest site path size digest ≡ ok tt
      → (d : List ℕ) × (digest ≡ some d) × (site.record_sha256 path ≡ ok d) × SizeAgrees path size
  checked_digest-agrees path size none e = cc
  checked_digest-agrees path size (some digest) e =
      let (actual, found, e') = bind_ok (site.record_sha256 path) _ tt e in
      let (same, e'') = passed _ _ _ tt e' in
      (
        digest,
        refl,
        found ∙ ap ok (eq_of_== actual digest (unnegated _ same)),
        checked_size-SizeAgrees path size e'',
      )

  verify_scoped_file-Verified :
      (path : FilePath) → verify_scoped_file site rows path ≡ ok tt → Verified path
  unfolding verify_scoped_file
  verify_scoped_file-Verified path e =
      let (regular, e') = passed _ _ _ tt e in
      (
        or_left _ _ regular,
        unnegated _ (or_right _ _ regular),
        row_of (lookup (as_posix path) rows) refl e',
      )
    where
      row_of :
          (o : Option RecordRow)
          → lookup (as_posix path) rows ≡ o
          → checked_row site path o ≡ ok tt
          → (row : RecordRow) × (digest : List ℕ) × (lookup (as_posix path) rows ≡ some row)
            × (row.digest ≡ some digest)
            × (site.record_sha256 path ≡ ok digest)
            × SizeAgrees path row.size
      row_of none h e = cc
      row_of (some row) h e =
          let (d, has, hashed, sized) = checked_digest-agrees path row.size row.digest e in
          (row, d, h, has, hashed, sized)

  -- What the walk may leave out: no file, the file RECORD itself, and byte code.
  abbrev pub LeftOut : Option FilePath → FilePath → Type 0
  LeftOut own path =
      (site.is_file path ≡ false) ⊎ ((own ≡ some path) ⊎ (site.is_bytecode (as_posix path) ≡ true))

  is_skipped-LeftOut :
      (own : Option FilePath) (path : FilePath) → is_skipped site own path ≡ true → LeftOut own path
  unfolding is_skipped
  is_skipped-LeftOut none path e =
      elim (or_cases (not (site.is_file path)) (site.is_bytecode (as_posix path)) e) [
        | inl no_file ↦ inl (negated _ no_file)
        | inr bytecode ↦ inr (inr bytecode)
      ]
  is_skipped-LeftOut (some own) path e =
      elim (or_cases (not (site.is_file path)) (path == own || site.is_bytecode (as_posix path))
        e) [
          | inl no_file ↦ inl (negated _ no_file)
          | inr named ↦ elim (or_cases (path == own) (site.is_bytecode (as_posix path)) named) [
            | inl same ↦ inr (inl (ap some (sym (eq_of_== path own same))))
            | inr bytecode ↦ inr (inr bytecode)
          ]
        ]

  -- What the walk does with a path: it is no symlink, and is left out or verified.
  abbrev pub Walked : Option FilePath → FilePath → Type 0
  Walked own path = (site.is_symlink path ≡ false) × (LeftOut own path ⊎ Verified path)

  verify_files-Walked :
      (own : Option FilePath) (paths files : List FilePath)
      → verify_files site own rows paths ≡ ok files
      → All (Walked own) paths × All Verified files
  unfolding verify_files
  verify_files-Walked own [] files e = (tt, subst (All Verified) (ok_injective [] files e) tt)
  verify_files-Walked own (path ∷ paths) files e =
      let (plain, e') = passed (site.is_symlink path) _ _ files e in
      elim (Bool-cases (is_skipped site own path)) [
        | inl skipped ↦
            let later =
              verify_files-Walked own paths files
                (sym (if-true (is_skipped site own path) _ _ skipped) ∙ e') in
            (((plain, inl (is_skipped-LeftOut own path skipped)), later.0), later.1)
        | inr scoped ↦
            let (done, e1, f1) =
              bind_ok (verify_scoped_file site rows path) _ files
                (sym (if-false (is_skipped site own path) _ _ scoped) ∙ e') in
            let (rest, e2, f2) = bind_ok (verify_files site own rows paths) _ files f1 in
            let verified = verify_scoped_file-Verified path e1 in
            let later = verify_files-Walked own paths rest e2 in
            (
              ((plain, inr verified), later.0),
              subst (All Verified) (ok_injective _ files f2) (verified, later.1),
            )
      ]

  -- A verified file under a name.
  abbrev pub Present : (FilePath → List ℕ) → List ℕ → Type 0
  Present name_of name = (path : FilePath) × (name_of path ≡ name) × Verified path

  contains-Present :
      (name_of : FilePath → List ℕ) (name : List ℕ) (files : List FilePath)
      → All Verified files
      → contains (map name_of files) name ≡ true
      → Present name_of name
  contains-Present name_of name [] h e = cc
  contains-Present name_of name (path ∷ files) (v, h) e = elim (Bool-cases (name == name_of path)) [
    | inl same ↦ (path, sym (eq_of_== name (name_of path) same), v)
    | inr differ ↦
        contains-Present name_of name files h
          (sym (ap (λ b. b || contains (map name_of files) name) differ) ∙ e)
  ]

  required-Present :
      (name_of : FilePath → List ℕ) (required : List (List ℕ)) (files : List FilePath)
      → All Verified files
      → is_missing_any required (map name_of files) ≡ false
      → All (Present name_of) required
  required-Present name_of [] files h e = tt
  required-Present name_of (name ∷ required) files h e = (
    contains-Present name_of name files h (unnegated _ (or_left _ _ e)),
    required-Present name_of required files h (or_right _ _ e),
  )

  -- The whole inventory: both walks, and the required files.
  abbrev pub Inventoried : FilePath → Type 0
  Inventoried dist_info =
      All (Walked none) (site.rglob package_root)
      × All (Present as_posix) required_package_files
      × All (Walked (some (dist_info ++ (codes "RECORD" ∷ [])))) (site.rglob dist_info)
      × All (Present (λ path. as_posix (drop (length dist_info) path))) required_metadata_files

  pub verify_scoped_inventory-paths :
      (dist_info : FilePath) (paths : FilePath × FilePath)
      → verify_scoped_inventory site dist_info rows ≡ ok paths
      → (package_root ++ (codes "__init__.py" ∷ []), dist_info ++ (codes "direct_url.json" ∷ []))
        ≡ paths
  unfolding verify_scoped_inventory
  verify_scoped_inventory-paths dist_info paths e =
      let (there, e0) =
        passed (site.is_symlink package_root || not (site.is_dir package_root)) _ _ paths e in
      let (package_files, e1, f1) =
        bind_ok (verify_files site none rows (site.rglob package_root)) _ paths e0 in
      let (u, e2, f2) =
        bind_ok (with_required _ required_package_files (map as_posix package_files)) _ paths f1 in
      let (metadata_files, e3, f3) =
        bind_ok
          (verify_files site (some (dist_info ++ (codes "RECORD" ∷ []))) rows
            (site.rglob dist_info))
          _ paths f2 in
      let (u', e4, f4) =
        bind_ok
          (with_required _ required_metadata_files
            (map (λ path. as_posix (drop (length dist_info) path)) metadata_files))
          _ paths f3 in
      ok_injective _ paths f4

  pub verify_scoped_inventory-Inventoried :
      (dist_info : FilePath) (paths : FilePath × FilePath)
      → verify_scoped_inventory site dist_info rows ≡ ok paths
      → Inventoried dist_info
  unfolding verify_scoped_inventory
  verify_scoped_inventory-Inventoried dist_info paths e =
      let (there, e0) =
        passed (site.is_symlink package_root || not (site.is_dir package_root)) _ _ paths e in
      let (package_files, e1, f1) =
        bind_ok (verify_files site none rows (site.rglob package_root)) _ paths e0 in
      let (u, e2, f2) =
        bind_ok (with_required _ required_package_files (map as_posix package_files)) _ paths f1 in
      let (metadata_files, e3, f3) =
        bind_ok
          (verify_files site (some (dist_info ++ (codes "RECORD" ∷ []))) rows
            (site.rglob dist_info))
          _ paths f2 in
      let (u', e4, f4) =
        bind_ok
          (with_required _ required_metadata_files
            (map (λ path. as_posix (drop (length dist_info) path)) metadata_files))
          _ paths f3 in
      let in_package = verify_files-Walked none (site.rglob package_root) package_files e1 in
      let in_metadata =
        verify_files-Walked (some (dist_info ++ (codes "RECORD" ∷ []))) (site.rglob dist_info)
          metadata_files e3 in
      (
        in_package.0,
        required-Present as_posix required_package_files package_files in_package.1
            (passed _ _ _ tt e2).0,
        in_metadata.0,
        required-Present (λ path. as_posix (drop (length dist_info) path)) required_metadata_files
            metadata_files in_metadata.1 (passed _ _ _ tt e4).0,
      )
