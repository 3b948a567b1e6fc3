-- ===== src/Tests/Command.antt =====
-- The command on one installation: with JSON, and with a commit that is not full.
use flightsql_dbapi.Prelude.{ℕ, ◌≡◌, refl, sym, ap, Bool, false, none, List, [], ◌∷◌}
use flightsql_dbapi.Prelude.Text.{codes}
use flightsql_dbapi.Provenance.Main.{
  Arguments, Parsing, accepted, returned, Runtime, json_requested, on_stdout, on_stderr, main,
}
use flightsql_dbapi.Provenance.Main.Laws.{Passed, Reported, main-Reported, main_zero-Verified}
use flightsql_dbapi.Tests.Installation.{system, commit, version, repository}

abbrev arguments : List ℕ → Bool → Arguments
arguments expected json = record {
  expected_commit = expected;
  expected_version = version;
  expected_repository = repository;
  expected_artifact_sha256 = none;
  allow_local_artifact = false;
  json = json;
}

-- The first argument is the commit.
abbrev parse_args : List (List ℕ) → Parsing
parse_args (expected ∷ argv) = accepted (arguments expected (json_requested (expected ∷ argv)))
parse_args [] = accepted (arguments [] false)

abbrev runtime : Runtime
runtime = record {
  parse_args = parse_args;
  dumps = λ members. codes "{}";
  str = λ error. codes "not full";
  type_name = λ error. codes "ValueError";
}

accepted_injective : (a b : Arguments) → accepted a ≡ accepted b → a ≡ b
accepted_injective a b e = cc

agrees :
    (argv : List (List ℕ)) (a : Arguments)
    → parse_args argv ≡ accepted a
    → a.json ≡ json_requested argv
unfolding json_requested
agrees [] a e = ap (λ a. a.json) (sym (accepted_injective _ a e))
agrees (expected ∷ argv) a e = ap (λ a. a.json) (sym (accepted_injective _ a e))

main_json : main runtime system (commit ∷ codes "--json" ∷ []) ≡ returned 0 (on_stdout (codes "{}"))
unfolding main
main_json = refl

main_short_commit :
    main runtime system (codes "0123" ∷ [])
    ≡ returned 1 (on_stderr (codes "FlightSQL provenance verification failed: not full"))
unfolding main
main_short_commit = refl

main-Reported_example :
    Reported runtime
      (json_requested (commit ∷ codes "--json" ∷ []))
      (main runtime system (commit ∷ codes "--json" ∷ []))
main-Reported_example = main-Reported runtime system agrees (commit ∷ codes "--json" ∷ [])

main_zero-Verified_example :
    Passed runtime system (commit ∷ codes "--json" ∷ []) (on_stdout (codes "{}"))
main_zero-Verified_example =
    main_zero-Verified runtime system (commit ∷ codes "--json" ∷ []) (on_stdout (codes "{}"))
      main_json
