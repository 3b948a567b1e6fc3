-- ===== src/Provenance/Installed.antt =====
-- flightsql/provenance.py: the one installed distribution. What importlib.metadata, pathlib, csv, ast,
-- json and packaging tell is a parameter.
pub mod Layout
pub mod Laws
use flightsql_dbapi.Prelude.{
  ℕ, suc, Bool, true, false, not, ◌&&◌, ◌||◌, Option, none, some, List, [], ◌∷◌, ◌++◌, String, ◌==◌,
  eqb, bytes_eq, if◌then◌else◌, any,
}
use flightsql_dbapi.Prelude.Dict.{Dict, update, insert}
use flightsql_dbapi.Prelude.Text.{codes, lower, starts_with}
use flightsql_dbapi.Errors.{foreign, python_error, Result, ok, raised, ◌>>=◌}
use flightsql_dbapi.Provenance.Hash.{
  Json, null, string, object, other, Hashes, DirectUrl, provenance_error, unique_json_object,
}
use flightsql_dbapi.Provenance.Inventory.{FilePath, path_eq, Site}
use flightsql_dbapi.Provenance.Source.{Urls, ends_with}

-- An absolute path that is resolved: the directory, and the name in it.
pub record Location : Type 0 where
  pub parent : FilePath
  pub name : List ℕ

-- A distribution that importlib.metadata found: its metadata path as given, if it has one, the
-- directory that locate_file("") gives, and `metadata["Name"]`: none for a KeyError, and none
-- inside for a value that is no text.
pub record Distribution : Type 0 where
  pub path : Option Location
  pub is_symlink : Bool
  pub is_dir : Bool
  pub resolved : Location
  pub root : FilePath
  pub metadata_name : Option (Option (List ℕ))
  pub version : List ℕ

-- A statement of a module's body: the targets of an assignment that are names, with its value if
-- that is a text.
pub data Statement : Type 0 where
  assignment : List (List ℕ) → Option (List ℕ) → Statement
  other_statement : Statement

-- What json.loads makes of a text before its hook sees the objects, to the depth that is read. What
-- is deeper, or in an array, repeats no name: a text that does so there is not modelled.
abbrev pub Members : Type 0 → Type 0
Members O = List (List ℕ × Json O)

abbrev pub JsonText : Type 0
JsonText = Json (Members (Members (Members (Unit {0}))))

-- packaging: whether it can be imported, the versions that it reads, and when two are equal.
pub record Versions (V : Type 0) : Type 0 where
  pub is_available : Bool
  pub read : List ℕ → Option V
  pub equal : V → V → Bool
  pub show : V → List ℕ

-- `distributions` is none where PackageNotFoundError is raised; `dist_infos` gives the names of
-- the *.dist-info entries of a directory, and `declared_name` the name in a METADATA file.
-- `csv_rows`, `statements` and `json_text` are none for a text that does not parse.
pub record System (V : Type 0) : Type 0 where
  pub distributions : Option (List Distribution)
  pub dist_infos : FilePath → List (List ℕ)
  pub site : FilePath → Site
  pub declared_name : List ℕ → Option (List ℕ)
  pub csv_rows : List ℕ → Option (List (List (List ℕ)))
  pub statements : List ℕ → Option (List Statement)
  pub json_text : List ℕ → Option JsonText
  pub versions : Versions V
  pub urls : Urls

abbrev is_separator : ℕ → Bool
is_separator c = eqb c b'-' || (eqb c b'_' || eqb c b'.')

abbrev after_separator : Bool → ℕ → List ℕ → List ℕ
after_separator true by rest = rest
after_separator false by rest = by ∷ rest

-- `re.sub("[-_.]+", by, s)`, where the flag tells that the character before was a separator.
unfoldable pub squeezed : ℕ → Bool → List ℕ → List ℕ
squeezed by inside [] = []
squeezed by inside (c ∷ s) =
    let after = squeezed by true s in
    let plain = squeezed by false s in
    if is_separator c then after_separator inside by after else c ∷ plain

-- `_canonical_distribution_name`
unfoldable pub canonical_distribution_name : List ℕ → List ℕ
unfolding squeezed lower
canonical_distribution_name value = lower (squeezed b'-' false value)

unfoldable pub is_distribution_name : List ℕ → Bool
unfolding canonical_distribution_name bytes_eq
is_distribution_name value = canonical_distribution_name value == codes "flightsql-dbapi"

-- `_filename_declares_distribution`
unfoldable pub filename_declares_distribution : List ℕ → Bool
unfolding squeezed lower starts_with ends_with
filename_declares_distribution name =
    starts_with (squeezed b'_' false (lower name)) (codes "flightsql_dbapi_")
    && ends_with (squeezed b'_' false (lower name)) (codes "_dist_info")

-- `_distribution_path`
abbrev pub path_or_error : Distribution → Option Location → Result Location
path_or_error d none =
    raised (provenance_error "did not expose the selected distribution metadata path")
path_or_error d (some location) =
    if d.is_symlink || (not d.is_dir || not (ends_with location.name (codes ".dist-info")))
    then raised (provenance_error "metadata path is not one regular .dist-info directory")
    else ok d.resolved

unfoldable pub distribution_path : Distribution → Result Location
unfolding ends_with
distribution_path d = path_or_error d d.path

abbrev pub full_path : Location → FilePath
full_path location = location.parent ++ (location.name ∷ [])

-- `by_path`, as the list of its items: a later distribution with a path takes the place.
unfoldable pub by_path :
    Dict FilePath (Location × Distribution)
    → List Distribution
    → Result (Dict FilePath (Location × Distribution))
unfolding distribution_path insert path_eq
by_path found [] = ok found
by_path found (d ∷ ds) =
    distribution_path d >>= λ location. by_path (insert (full_path location) (location, d) found) ds

module _ {V : Type 0} (system : System V) where
  abbrev declares : Option (List ℕ) → Bool
  declares none = false
  declares (some name) = is_distribution_name name

  abbrev text_declares : Option (List ℕ) → Bool
  text_declares none = false
  text_declares (some text) = declares (system.declared_name text)

  -- `_metadata_declares_distribution`, of an entry of the site directory.
  unfoldable pub metadata_declares_distribution : FilePath → List ℕ → Bool
  unfolding is_distribution_name
  metadata_declares_distribution root name =
      text_declares ((system.site root).read_text (name ∷ codes "METADATA" ∷ []))

  unfoldable pub is_other_distribution : FilePath → List ℕ → List ℕ → Bool
  unfolding filename_declares_distribution metadata_declares_distribution bytes_eq
  is_other_distribution root selected candidate =
      not (candidate == selected)
      && (filename_declares_distribution candidate || metadata_declares_distribution root candidate)

  abbrev pub only_one : Dict FilePath (Location × Distribution) → Result (Location × Distribution)
  only_one ((path, found) ∷ []) = ok found
  only_one _ = raised (provenance_error "multiple metadata directories were discovered")

  abbrev pub without_decoys : Location → Distribution → Result (Location × Distribution)
  without_decoys location d =
      if not (location.parent == d.root)
      then raised (provenance_error "selected .dist-info directory is not directly inside its root")
      else if any (is_other_distribution d.root location.name) (system.dist_infos d.root)
      then raised (provenance_error "duplicate or decoy .dist-info directories exist")
      else ok (location, d)

  abbrev pub discovered : Option (List Distribution) → Result (List Distribution)
  discovered none = raised (provenance_error "flightsql-dbapi is not installed")
  discovered (some []) = raised (provenance_error "flightsql-dbapi is not installed")
  discovered (some (d ∷ ds)) = ok (d ∷ ds)

  -- `_selected_distribution`, whose site directory is the root of the distribution.
  unfoldable pub selected_distribution : Result (Location × Distribution)
  unfolding by_path is_other_distribution path_eq
  selected_distribution = discovered system.distributions >>= λ ds.
      by_path [] ds >>= λ found. only_one found >>= λ (location, d). without_decoys location d

  -- `_version`
  abbrev pub read_version : String → Option V → Result V
  read_version label none = raised (provenance_error label)
  read_version label (some v) = ok v

  unfoldable pub version_of : String → List ℕ → Result V
  version_of label value =
      if system.versions.is_available
      then read_version label (system.versions.read value)
      else raised (foreign (python_error "RuntimeError: the packaging dependency is unavailable"))
