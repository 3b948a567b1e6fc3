-- ===== src/Provenance/Main.antt =====
-- flightsql/provenance.py, the command: main. argparse, json.dumps and the texts of exceptions are
-- parameters; what is printed is a list of lines for each stream.
pub mod Laws
use flightsql_dbapi.Prelude.{
  ℕ, Bool, true, false, not, ◌||◌, Option, none, some, List, [], ◌∷◌, ◌++◌, ◌==◌, bytes_eq, any,
  if◌then◌else◌, String, ◌<>◌,
}
use flightsql_dbapi.Prelude.Dict.{Dict}
use flightsql_dbapi.Prelude.Text.{codes, starts_with}
use flightsql_dbapi.Errors.{
  ForeignClass, provenance_mismatch, Foreign, Exn, pep, foreign, Result, ok, raised, ◌>>=◌,
}
use flightsql_dbapi.Provenance.Hash.{provenance_error}
use flightsql_dbapi.Provenance.Verify.{
  SourceMode, git, source_archive, local_artifact, VerificationResult,
}
use flightsql_dbapi.Provenance.Installed.{System}
use flightsql_dbapi.Provenance.Installed.Layout.{verify}

-- The namespace that parse_args returns.
pub record Arguments : Type 0 where
  pub expected_commit : List ℕ
  pub expected_version : List ℕ
  pub expected_repository : List ℕ
  pub expected_artifact_sha256 : Option (List ℕ)
  pub allow_local_artifact : Bool
  pub json : Bool

-- What parse_args comes to: a namespace, a call of `error` with its text, or SystemExit after the
-- help, which no handler catches.
pub data Parsing : Type 0 where
  accepted : Arguments → Parsing
  rejected : String → Parsing
  exited : ℕ → Parsing

-- A value of the dictionaries that are given to json.dumps.
pub data Value : Type 0 where
  text : List ℕ → Value
  flag : Bool → Value
  missing : Value

-- The lines that were printed.
pub record Output : Type 0 where
  pub stdout : List (List ℕ)
  pub stderr : List (List ℕ)

-- main returns a code, or SystemExit leaves it.
pub data Run : Type 0 where
  returned : ℕ → Output → Run
  left : ℕ → Run

-- argparse, json.dumps with sorted keys, `str(error)` and `type(error).__name__`.
pub record Runtime : Type 0 where
  pub parse_args : List (List ℕ) → Parsing
  pub dumps : Dict (List ℕ) Value → List ℕ
  pub str : Exn → List ℕ
  pub type_name : Exn → List ℕ

unfoldable pub mode_name : SourceMode → List ℕ
mode_name git = codes "git"
mode_name source_archive = codes "source-archive"
mode_name local_artifact = codes "local-artifact"

abbrev pub optional : Option (List ℕ) → Value
optional none = missing
optional (some s) = text s

-- `to_dict`
unfoldable pub to_dict : VerificationResult → Dict (List ℕ) Value
unfolding mode_name
to_dict r =
    (codes "ok", flag r.is_ok)
    ∷ (codes "distribution", text r.distribution)
    ∷ (codes "installed_version", text r.installed_version)
    ∷ (codes "version_verified", flag r.version_verified)
    ∷ (codes "source_mode", text (mode_name r.source_mode))
    ∷ (codes "package_source_record_sha256_verified", flag r.package_source_record_sha256_verified)
    ∷ (
      codes "distribution_metadata_record_sha256_verified",
      flag r.distribution_metadata_record_sha256_verified,
    )
    ∷ (codes "direct_url_record_sha256_verified", flag r.direct_url_record_sha256_verified)
    ∷ (codes "expected_commit", text r.expected_commit)
    ∷ (codes "commit_verified", flag r.commit_verified)
    ∷ (codes "verified_commit", optional r.verified_commit)
    ∷ (codes "recorded_archive_sha256_matched", optional r.recorded_archive_sha256_matched)
    ∷ (codes "local_artifact_file_sha256_verified", optional r.local_artifact_file_sha256_verified)
    ∷ (codes "installer", text r.installer)
    ∷ []

-- An optional text as an f-string shows it.
abbrev shown : Option (List ℕ) → List ℕ
shown none = codes "None"
shown (some s) = s

-- `_success_text`
unfoldable pub success_text : VerificationResult → List ℕ
unfolding mode_name
success_text r =
    codes
      "verified recorded SHA-256 for FlightSQL package source and selected distribution metadata ("
    ++ (r.distribution
        ++ (codes " "
            ++ (r.installed_version
                ++ (codes "); source mode "
                    ++ (mode_name r.source_mode ++ closing r.commit_verified)))))
  where
    closing : Bool → List ℕ
    closing true = codes "; recorded source commit matched: " ++ shown r.verified_commit
    closing false =
        codes "; referenced local artifact file SHA-256 verified: "
        ++ (shown r.local_artifact_file_sha256_verified
            ++ (codes "; commit NOT verified (expected commit "
                ++ (r.expected_commit ++ codes " is contextual only)")))

-- `json_requested` of `main`
unfoldable pub json_requested : List (List ℕ) → Bool
unfolding bytes_eq starts_with
json_requested =
    any (λ argument. argument == codes "--json" || starts_with argument (codes "--json="))

-- `isinstance(error, ProvenanceError)`
abbrev pub is_provenance_error : Exn → Bool
is_provenance_error (pep c message cause) = false
is_provenance_error (foreign f) = f.is_instance provenance_mismatch

abbrev pub on_stdout : List ℕ → Output
on_stdout line = record { stdout = line ∷ []; stderr = [] }

abbrev pub on_stderr : List ℕ → Output
on_stderr line = record { stdout = []; stderr = line ∷ [] }

module _ (runtime : Runtime) where
  abbrev pub failure_members : List ℕ → List ℕ → Dict (List ℕ) Value
  failure_members message error_type =
      (codes "error", text message)
      ∷ (codes "error_type", text error_type)
      ∷ (codes "ok", flag false)
      ∷ []

  -- `_failure`
  unfoldable pub failure : Bool → List ℕ → List ℕ → ℕ → Run
  failure is_json message error_type code = returned code (
      if is_json
      then on_stdout (runtime.dumps (failure_members message error_type))
      else on_stderr (codes "FlightSQL provenance verification failed: " ++ message))

  -- The handlers of `main`.
  unfoldable pub handled : Bool → Exn → Run
  unfolding failure
  handled is_json error =
      if is_provenance_error error
      then failure is_json (runtime.str error) (codes "verification_failed") 1
      else failure is_json (runtime.type_name error ++ (codes ": " ++ runtime.str error))
          (codes "operational_error") 2

  abbrev pub success : Bool → VerificationResult → Output
  success true r = on_stdout (runtime.dumps (to_dict r))
  success false r = on_stdout (success_text r)

  abbrev pub reported : Bool → Bool → Result VerificationResult → Run
  reported is_json is_requested (ok r) = returned 0 (success is_requested r)
  reported is_json is_requested (raised error) = handled is_json error

  module _ {V : Type 0} (system : System V) where
    abbrev pub verified : Arguments → Result VerificationResult
    verified a =
        verify system a.expected_commit a.expected_version a.expected_repository
          a.expected_artifact_sha256 a.allow_local_artifact

    abbrev pub run_parsed : Bool → Parsing → Run
    run_parsed is_json (accepted a) = reported is_json a.json (verified a)
    run_parsed is_json (rejected message) =
        handled is_json (provenance_error ("invalid command line: " <> message))
    run_parsed is_json (exited code) = left code

    -- `main`, for the arguments `argv`.
    unfoldable pub main : List (List ℕ) → Run
    unfolding json_requested handled verify to_dict success_text
    main argv = run_parsed (json_requested argv) (runtime.parse_args argv)
