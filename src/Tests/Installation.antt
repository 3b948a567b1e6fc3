-- ===== src/Tests/Installation.antt =====
-- One installation from Git, and the command on it.
use flightsql_dbapi.Prelude.{
  ℕ, ◌≡◌, refl, true, false, none, some, List, [], ◌∷◌, map, ◌==◌, bytes_eq, ◌++◌, if◌then◌else◌,
}
use flightsql_dbapi.Prelude.Dict.{Dict, lookup}
use flightsql_dbapi.Prelude.Text.{codes}
use flightsql_dbapi.Errors.{ok}
use flightsql_dbapi.Provenance.Hash.{string, object, ArchiveInfo, DirectUrl}
use flightsql_dbapi.Provenance.Record.{RecordRow}
use flightsql_dbapi.Provenance.Inventory.{
  FilePath, Site, required_package_files, required_metadata_files,
}
use flightsql_dbapi.Provenance.Source.{Urls}
use flightsql_dbapi.Provenance.Verify.{VerificationResult, git, result_of, verify_source}
use flightsql_dbapi.Provenance.Verify.Evidence.{Evidence}
use flightsql_dbapi.Provenance.Verify.Laws.{verify_source-Evidence}
use flightsql_dbapi.Provenance.Installed.{Location, Distribution, assignment, JsonText, System}
use flightsql_dbapi.Provenance.Installed.Layout.{verify}

abbrev digest : List ℕ
digest = codes "abcdefghijabcdefghijabcdefghijabcdefghij_-0"

abbrev pub commit : List ℕ
commit = codes "0123456789abcdef0123456789abcdef01234567"

abbrev pub repository : List ℕ
repository = codes "https://github.com/preset-io/flightsql-dbapi.git"

abbrev dist_info : List ℕ
dist_info = codes "flightsql_dbapi-0.2.2.5.dist-info"

abbrev metadata_path : List ℕ → List ℕ
metadata_path name = dist_info ++ (codes "/" ++ name)

abbrev hashed : List ℕ → List (List ℕ)
hashed path = path ∷ (codes "sha256=" ++ digest) ∷ codes "12" ∷ []

abbrev lines : List (List (List ℕ))
lines =
    map hashed (required_package_files ++ map metadata_path required_metadata_files)
    ++ ((metadata_path (codes "RECORD") ∷ [] ∷ [] ∷ []) ∷ [])

abbrev row : List ℕ → List ℕ × RecordRow
row path = (path, record { digest = some digest; size = some 12 })

abbrev rows : Dict (List ℕ) RecordRow
rows =
    map row (required_package_files ++ map metadata_path required_metadata_files)
    ++ ((metadata_path (codes "RECORD"), record { digest = none; size = none }) ∷ [])

abbrev below : FilePath → List FilePath
below (part ∷ []) =
    if part == dist_info
    then map (λ name. dist_info ∷ name ∷ []) (codes "RECORD" ∷ required_metadata_files)
    else map (λ name. codes "flightsql" ∷ name ∷ [])
        (map codes (
          "__init__.py" ∷ "client.py" ∷ "dbapi.py" ∷ "exceptions.py" ∷ "flightsql_pb2.py"
          ∷ "flightsql_pb2.pyi" ∷ "provenance.py" ∷ "sqlalchemy.py" ∷ "util.py" ∷ []))
below _ = []

abbrev site : Site
site = record {
  is_symlink = λ path. false;
  is_dir = λ path. true;
  is_file = λ path. true;
  rglob = below;
  is_bytecode = λ path. false;
  record_sha256 = λ path. ok digest;
  file_size = λ path. ok 12;
  read_text = λ path. some (codes "pip");
}

abbrev vcs_info : ArchiveInfo
vcs_info =
    (codes "vcs", string (codes "git"))
    ∷ (codes "requested_revision", string commit)
    ∷ (codes "commit_id", string commit)
    ∷ []

abbrev direct_url : DirectUrl
direct_url = (codes "url", string repository) ∷ (codes "vcs_info", object vcs_info) ∷ []

abbrev urls : Urls
urls = record {
  urlparse = λ url. ok (record {
    scheme = codes "https";
    username = none;
    password = none;
    hostname = some (codes "github.com");
    netloc = codes "github.com";
    path = codes "/preset-io/flightsql-dbapi.git";
    query = [];
    fragment = [];
  });
  local_path = λ path. record {
    is_absolute = true;
    is_symlink = false;
    is_file = true;
    name = path;
    file_sha256 = ok digest;
  };
}

abbrev pub version : List ℕ
version = codes "0.2.2.5"

abbrev pub result : VerificationResult
result = result_of version (codes "pip") git commit true (some commit) none none

verify_direct_url :
    verify_source urls repository commit none false version (codes "pip") direct_url ≡ ok result
unfolding verify_source
verify_direct_url = refl

verify_source-Evidence_example :
    (source_url : List ℕ) × (lookup (codes "url") direct_url ≡ some (string source_url))
    × Evidence urls repository commit none false version (codes "pip") direct_url source_url result
verify_source-Evidence_example =
    verify_source-Evidence urls repository commit none false version (codes "pip") direct_url result
      verify_direct_url

abbrev location : Location
location = record { parent = codes "site" ∷ []; name = dist_info }

abbrev distribution : Distribution
distribution = record {
  path = some location;
  is_symlink = false;
  is_dir = true;
  resolved = location;
  root = codes "site" ∷ [];
  metadata_name = some (some (codes "FlightSQL_DBAPI"));
  version = version;
}

abbrev json_text : JsonText
json_text = object (
    (codes "url", string repository)
    ∷ (
      codes "vcs_info",
      object (
          (codes "vcs", string (codes "git"))
          ∷ (codes "requested_revision", string commit)
          ∷ (codes "commit_id", string commit)
          ∷ []),
    )
    ∷ [])

abbrev pub system : System (List ℕ)
system = record {
  distributions = some (distribution ∷ []);
  dist_infos = λ root. dist_info ∷ codes "pip-23.0.dist-info" ∷ [];
  site = λ root. site;
  declared_name = λ s. some (codes "pip");
  csv_rows = λ s. some lines;
  statements = λ s. some (assignment (codes "__version__" ∷ []) (some version) ∷ []);
  json_text = λ s. some json_text;
  versions = record {
    is_available = true;
    read = λ s. some s;
    equal = λ a b. a == b;
    show = λ s. s;
  };
  urls = urls;
}

pub verify_installation : verify system commit version repository none false ≡ ok result
unfolding verify
verify_installation = refl
