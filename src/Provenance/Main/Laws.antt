-- ===== src/Provenance/Main/Laws.antt =====
-- flightsql/provenance.py, main: what is printed, and what the exit code tells.
use flightsql_dbapi.Prelude.{
  ℕ, ◌≡◌, refl, sym, ap, subst, Bool, true, false, some, List, ◌++◌, eqb, bytes_eq, if◌then◌else◌,
  ◌<>◌,
}
use flightsql_dbapi.Prelude.Dict.{Dict, lookup}
use flightsql_dbapi.Prelude.Text.{codes}
use flightsql_dbapi.Errors.{Exn, Result, ok, raised}
use flightsql_dbapi.Provenance.Hash.{provenance_error}
use flightsql_dbapi.Provenance.Verify.{VerificationResult}
use flightsql_dbapi.Provenance.Verify.Evidence.{Evidence-ok}
use flightsql_dbapi.Provenance.Installed.{System}
use flightsql_dbapi.Provenance.Installed.Laws.{Verified, verify-Verified}
use flightsql_dbapi.Provenance.Main.{
  Arguments, Parsing, accepted, rejected, exited, Value, flag, Output, Run, returned, left, Runtime,
  to_dict, success_text, json_requested, is_provenance_error, on_stdout, on_stderr, failure,
  failure_members, handled, success, reported, verified, run_parsed, main,
}

module _ (runtime : Runtime) where
  -- With JSON, one line on stdout, of a dictionary whose "ok" is true for code 0 alone; without, one
  -- line, on stdout for code 0 and on stderr otherwise.
  abbrev pub Report : Bool → ℕ → Output → Type 0
  Report true code out =
      (members : Dict (List ℕ) Value) × (out ≡ on_stdout (runtime.dumps members))
      × (lookup (codes "ok") members ≡ some (flag (eqb code 0)))
  Report false code out =
      (line : List ℕ) × (out ≡ (if eqb code 0 then on_stdout line else on_stderr line))

  -- A run that returns prints such a report; any other is argparse's own exit.
  abbrev pub Reported : Bool → Run → Type 0
  Reported is_json (returned code out) = Report is_json code out
  Reported is_json (left code) = Unit {0}

  handled-Reported :
      (is_json : Bool) (error : Exn) → Reported is_json (handled runtime is_json error)
  unfolding handled failure lookup bytes_eq
  handled-Reported is_json error = by_class (is_provenance_error error) is_json
    where
      by_class :
          (b is_json : Bool)
          → Reported is_json (
              if b
              then failure runtime is_json (runtime.str error) (codes "verification_failed") 1
              else failure runtime is_json
                  (runtime.type_name error ++ (codes ": " ++ runtime.str error))
                  (codes "operational_error")
                  2)
      by_class true true =
          (failure_members runtime (runtime.str error) (codes "verification_failed"), refl, refl)
      by_class true false =
          (codes "FlightSQL provenance verification failed: " ++ runtime.str error, refl)
      by_class false true = (
        failure_members runtime (runtime.type_name error ++ (codes ": " ++ runtime.str error))
            (codes "operational_error"),
        refl,
        refl,
      )
      by_class false false = (
        codes "FlightSQL provenance verification failed: "
            ++ (runtime.type_name error ++ (codes ": " ++ runtime.str error)),
        refl,
      )

  success-Reported :
      (is_json : Bool) (r : VerificationResult)
      → r.is_ok ≡ true
      → Report is_json 0 (success runtime is_json r)
  unfolding to_dict lookup bytes_eq
  success-Reported true r e = (to_dict r, refl, ap (λ b. some (flag b)) e)
  success-Reported false r e = (success_text r, refl)

  module _ {V : Type 0} (system : System V) where
    reported-Reported :
        (is_json : Bool) (result : Result VerificationResult)
        → ((r : VerificationResult) → result ≡ ok r → r.is_ok ≡ true)
        → Reported is_json (reported runtime is_json is_json result)
    reported-Reported is_json (ok r) h = success-Reported is_json r (h r refl)
    reported-Reported is_json (raised error) h = handled-Reported is_json error

    verified-ok :
        (a : Arguments) (r : VerificationResult) → verified runtime system a ≡ ok r → r.is_ok ≡ true
    verified-ok a r e =
        let known =
          verify-Verified system a.expected_commit a.expected_version a.expected_repository
            a.expected_artifact_sha256 a.allow_local_artifact r e in
        Evidence-ok _ _ _ _ _ _ _ _ known.source_url r known.evidence

    -- Where argparse accepts `--json` exactly for the arguments that ask for it, every run that
    -- returns prints one line and nothing else: with JSON, a dictionary on stdout, whose "ok" is true
    -- exactly for the exit code 0; without, a text, on stdout for the code 0 and else on stderr.
    pub main-Reported :
        ((argv : List (List ℕ)) (a : Arguments)
          → runtime.parse_args argv ≡ accepted a
          → a.json ≡ json_requested argv)
        → (argv : List (List ℕ)) → Reported (json_requested argv) (main runtime system argv)
    unfolding main
    main-Reported agrees argv = step (runtime.parse_args argv) refl
      where
        step :
            (p : Parsing)
            → runtime.parse_args argv ≡ p
            → Reported (json_requested argv) (run_parsed runtime system (json_requested argv) p)
        step (accepted a) e =
            subst
              (λ b.
                Reported (json_requested argv)
                  (reported runtime (json_requested argv) b (verified runtime system a)))
              (sym (agrees argv a e))
              (reported-Reported (json_requested argv) (verified runtime system a) (verified-ok a))
        step (rejected message) e =
            handled-Reported (json_requested argv)
              (provenance_error ("invalid command line: " <> message))
        step (exited code) e = tt

    handled-nonzero :
        (is_json : Bool) (error : Exn) (out : Output)
        → ¬ (handled runtime is_json error ≡ returned 0 out)
    unfolding handled failure
    handled-nonzero is_json error out e = by_class (is_provenance_error error) _ _ e
      where
        by_class :
            (b : Bool) (o o' : Output)
            → ¬ ((if b then returned 1 o else returned 2 o') ≡ returned 0 out)
        by_class true o o' e = cc
        by_class false o o' e = cc

    -- The printed result is that of a verified installation.
    abbrev pub Passed : List (List ℕ) → Output → Type 0
    Passed argv out =
        (a : Arguments) × (r : VerificationResult) × (runtime.parse_args argv ≡ accepted a)
        × (out ≡ success runtime a.json r)
        × Verified system a.expected_commit a.expected_version a.expected_repository
            a.expected_artifact_sha256 a.allow_local_artifact r

    -- The code 0 is returned only where argparse accepted the arguments, and verify returned for them
    -- the result that is printed: what holds of a verified installation holds then.
    pub main_zero-Verified :
        (argv : List (List ℕ)) (out : Output)
        → main runtime system argv ≡ returned 0 out
        → Passed argv out
    unfolding main
    main_zero-Verified argv out e = by_parsing (runtime.parse_args argv) refl e
      where
        by_result :
            (a : Arguments) (result : Result VerificationResult)
            → runtime.parse_args argv ≡ accepted a
            → verified runtime system a ≡ result
            → reported runtime (json_requested argv) a.json result ≡ returned 0 out
            → Passed argv out
        by_result a (ok r) parsed h e = (
          a,
          r,
          parsed,
          cc,
          verify-Verified system a.expected_commit a.expected_version a.expected_repository
              a.expected_artifact_sha256 a.allow_local_artifact r h,
        )
        by_result a (raised error) parsed h e =
            elim (handled-nonzero (json_requested argv) error out e) [ ]

        by_parsing :
            (p : Parsing)
            → runtime.parse_args argv ≡ p
            → run_parsed runtime system (json_requested argv) p ≡ returned 0 out
            → Passed argv out
        by_parsing (accepted a) h e = by_result a (verified runtime system a) h refl e
        by_parsing (rejected message) h e =
            elim (handled-nonzero (json_requested argv)
              (provenance_error ("invalid command line: " <> message)) out e) [ ]
        by_parsing (exited code) h e = cc
