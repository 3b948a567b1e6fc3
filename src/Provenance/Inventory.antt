-- ===== src/Provenance/Inventory.antt =====
-- flightsql/provenance.py: the installed files against RECORD. What pathlib and hashlib tell of the
-- site directory is one snapshot: nothing changes there while the command runs.
pub mod Laws
use flightsql_dbapi.Prelude.{
  ℕ, Bool, true, false, not, ◌&&◌, ◌||◌, Option, none, some, List, [], ◌∷◌, ◌++◌, map, String, ◌==◌,
  eqb, contains, nat_eq, bytes_eq, if◌then◌else◌, length, drop, any,
}
use flightsql_dbapi.Prelude.Dict.{Dict, lookup}
use flightsql_dbapi.Prelude.Tests.{Eq}
use flightsql_dbapi.Prelude.Text.{codes}
use flightsql_dbapi.Errors.{Result, ok, raised, ◌>>=◌}
use flightsql_dbapi.Provenance.Hash.{provenance_error}
use flightsql_dbapi.Provenance.Record.{RecordRow}

-- A path below the site directory, by its parts.
abbrev pub FilePath : Type 0
FilePath = List (List ℕ)

path_dec : Discrete FilePath
path_dec = hlevel (bytes_eq.dec)

instance unfoldable pub path_eq : Eq FilePath
unfolding path_dec bytes_eq
path_eq = record { dec = path_dec }

-- `rglob` gives what lies below a directory. `is_bytecode` tells of the text of a path whether
-- pathlib gives it the suffix ".pyc". `read_text` is none where reading as UTF-8 raises OSError or
-- UnicodeError. `record_sha256` is the digest that Provenance/Digest computes of a file.
pub record Site : Type 0 where
  pub is_symlink : FilePath → Bool
  pub is_dir : FilePath → Bool
  pub is_file : FilePath → Bool
  pub rglob : FilePath → List FilePath
  pub is_bytecode : List ℕ → Bool
  pub record_sha256 : FilePath → Result (List ℕ)
  pub file_size : FilePath → Result ℕ
  pub read_text : FilePath → Option (List ℕ)

-- `path.as_posix()`
unfoldable pub as_posix : FilePath → List ℕ
as_posix [] = []
as_posix (part ∷ []) = part
as_posix (part ∷ next ∷ parts) = part ++ (codes "/" ++ as_posix (next ∷ parts))

abbrev pub required_package_files : List (List ℕ)
required_package_files =
    codes "flightsql/__init__.py"
    ∷ codes "flightsql/client.py"
    ∷ codes "flightsql/dbapi.py"
    ∷ codes "flightsql/exceptions.py"
    ∷ codes "flightsql/flightsql_pb2.py"
    ∷ codes "flightsql/flightsql_pb2.pyi"
    ∷ codes "flightsql/provenance.py"
    ∷ codes "flightsql/sqlalchemy.py"
    ∷ codes "flightsql/util.py"
    ∷ []

abbrev pub required_metadata_files : List (List ℕ)
required_metadata_files = codes "INSTALLER" ∷ codes "METADATA" ∷ codes "direct_url.json" ∷ []

abbrev pub package_root : FilePath
package_root = codes "flightsql" ∷ []

-- `_REQUIRED.difference(found)` is not empty.
abbrev pub is_missing_any : List (List ℕ) → List (List ℕ) → Bool
is_missing_any required found = any (λ name. not (contains found name)) required

abbrev pub with_required : String → List (List ℕ) → List (List ℕ) → Result (Unit {0})
with_required message required found =
    if is_missing_any required found then raised (provenance_error message) else ok tt

module _ (site : Site) where
  abbrev symlink_from : FilePath → FilePath → Bool
  symlink_from current [] = false
  symlink_from current (part ∷ parts) =
      site.is_symlink (current ++ (part ∷ [])) || symlink_from (current ++ (part ∷ [])) parts

  -- `_path_has_symlink`, from the site directory.
  unfoldable pub path_has_symlink : FilePath → Bool
  path_has_symlink path = symlink_from [] path

  abbrev pub checked_size : FilePath → Option ℕ → Result (Unit {0})
  checked_size path none = ok tt
  checked_size path (some size) = site.file_size path >>= λ actual.
      if not (eqb actual size)
      then raised (provenance_error "RECORD size mismatch for scoped package file")
      else ok tt

  abbrev pub checked_digest : FilePath → Option ℕ → Option (List ℕ) → Result (Unit {0})
  checked_digest path size none =
      raised (provenance_error "RECORD has no SHA-256 for scoped package file")
  checked_digest path size (some digest) = site.record_sha256 path >>= λ actual.
      if not (actual == digest)
      then raised (provenance_error "RECORD SHA-256 mismatch for scoped package file")
      else checked_size path size

  abbrev pub checked_row : FilePath → Option RecordRow → Result (Unit {0})
  checked_row path none = raised (provenance_error "RECORD omits scoped package file")
  checked_row path (some row) = checked_digest path row.size row.digest

  -- `_verify_scoped_file`
  unfoldable pub verify_scoped_file : Dict (List ℕ) RecordRow → FilePath → Result (Unit {0})
  unfolding path_has_symlink lookup as_posix bytes_eq
  verify_scoped_file rows path =
      if path_has_symlink path || not (site.is_file path)
      then raised (provenance_error "scoped installed file is missing, non-regular, or a symlink")
      else checked_row path (lookup (as_posix path) rows)

  -- A file that the walk leaves out.
  unfoldable pub is_skipped : Option FilePath → FilePath → Bool
  unfolding as_posix path_eq
  is_skipped none path = not (site.is_file path) || site.is_bytecode (as_posix path)
  is_skipped (some own) path =
      not (site.is_file path) || (path == own || site.is_bytecode (as_posix path))

  -- Both walks, over what `rglob` gives: the files that they verified. The walk of the metadata
  -- leaves out the file RECORD.
  unfoldable pub verify_files :
      Option FilePath → Dict (List ℕ) RecordRow → List FilePath → Result (List FilePath)
  unfolding verify_scoped_file is_skipped
  verify_files own rows [] = ok []
  verify_files own rows (path ∷ paths) =
      let rest = verify_files own rows paths in
      if site.is_symlink path
      then raised (provenance_error "installed path is a symbolic link")
      else if is_skipped own path
      then rest
      else (verify_scoped_file rows path >>= λ done. rest >>= λ files. ok (path ∷ files))

  -- `_verify_scoped_inventory`, for the paths of `__init__.py` and `direct_url.json`.
  unfoldable pub verify_scoped_inventory :
      FilePath → Dict (List ℕ) RecordRow → Result (FilePath × FilePath)
  unfolding verify_files as_posix bytes_eq
  verify_scoped_inventory dist_info rows =
      if site.is_symlink package_root || not (site.is_dir package_root)
      then raised (provenance_error "installed flightsql package directory is missing or a symlink")
      else (verify_files none rows (site.rglob package_root) >>= λ package_files.
          with_required "installed package omits required source files" required_package_files
            (map as_posix package_files)
          >>= λ complete.
              verify_files (some (dist_info ++ (codes "RECORD" ∷ []))) rows (site.rglob dist_info)
              >>= λ metadata_files.
                  with_required "distribution metadata omits required files" required_metadata_files
                    (map (λ path. as_posix (drop (length dist_info) path)) metadata_files)
                  >>= λ done. ok (
                    package_root ++ (codes "__init__.py" ∷ []),
                    dist_info ++ (codes "direct_url.json" ∷ []),
                  ))
