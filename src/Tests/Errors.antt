-- ===== src/Tests/Errors.antt =====
-- `translate_errors` at concrete exceptions.
use flightsql_dbapi.Prelude.{◌≡◌, refl, ◌↔◌, Bool, true, false, ◌||◌, some}
use flightsql_dbapi.Errors.{
  ForeignClass, flight_unavailable, flight_timed_out, flight_cancelled, flight_unauthenticated,
  flight_unauthorized, flight_error, arrow_exception, Foreign, ExceptionClass, operational_error,
  database_error, error, pep, foreign, raised, Result,
}
use flightsql_dbapi.Errors.Translate.{dbapi_error, translate_errors, is_subclass}
use flightsql_dbapi.Errors.Translation.{
  IsDocumented, translate_errors-foreign, dbapi_error-operational, translate_errors_idem,
}

abbrev unavailable_class : ForeignClass → Bool
unavailable_class flight_unavailable = true
unavailable_class flight_error = true
unavailable_class arrow_exception = true
unavailable_class _ = false

abbrev unavailable : Foreign
unavailable = record { is_instance = unavailable_class; message = "no server" }

documented : IsDocumented unavailable
documented = record {
  unavailable = λ h. refl;
  timed_out = λ h. refl;
  cancelled = λ h. refl;
  unauthenticated = λ h. refl;
  unauthorized = λ h. refl;
  internal = λ h. refl;
  not_implemented = λ h. refl;
  invalid = λ h. refl;
  wrong_type = λ h. refl;
  no_key = λ h. refl;
  no_index = λ h. refl;
}

translate_errors-foreign_example :
    (c : ExceptionClass) × (translate_errors {A = Unit {0}} (raised (foreign unavailable))
      ≡ raised (pep c "no server" (some unavailable)))
    × (is_subclass c database_error ≡ true)
    × (is_subclass c error ≡ true)
translate_errors-foreign_example = translate_errors-foreign unavailable refl

abbrev failed : Result (Unit {0})
failed = raised (foreign unavailable)

translate_errors_idem_example : translate_errors (translate_errors failed) ≡ translate_errors failed
translate_errors_idem_example = translate_errors_idem failed

dbapi_error-operational_example : (dbapi_error unavailable ≡ some operational_error) ↔ (
    (unavailable_class flight_unavailable
      || (unavailable_class flight_timed_out
          || (unavailable_class flight_cancelled
              || (unavailable_class flight_unauthenticated
                  || unavailable_class flight_unauthorized))))
    ≡ true)
dbapi_error-operational_example = dbapi_error-operational unavailable
