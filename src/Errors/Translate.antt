-- ===== src/Errors/Translate.antt =====
-- flightsql/util.py: check_closed, translate_errors and dbapi_error.
use flightsql_dbapi.Prelude.{
  Bool, false, ◌||◌, Option, none, some, String, ◌<>◌, ◌==◌, if◌then◌else◌,
}
use flightsql_dbapi.Errors.{
  ExceptionClass, error, class_eq, base, internal_error, operational_error, programming_error,
  database_error, not_supported_error, flight_unavailable, flight_timed_out, flight_cancelled,
  flight_unauthenticated, flight_unauthorized, flight_internal, flight_error, arrow_not_implemented,
  arrow_invalid, arrow_type_error, arrow_key_error, arrow_index_error, arrow_exception, Foreign,
  Exn, pep, foreign, Result, ok, raised,
}

-- `issubclass(c, d)`; no class has more than two bases above it.
unfoldable pub is_subclass : ExceptionClass → ExceptionClass → Bool
unfolding class_eq base
is_subclass c d = c == d || above (base c)
  where
    last : Option ExceptionClass → Bool
    last none = false
    last (some b) = b == d

    above : Option ExceptionClass → Bool
    above none = false
    above (some b) = b == d || last (base b)

-- The class of the exception that `dbapi_error` returns; its message is the error's own.
unfoldable pub dbapi_error : Foreign → Option ExceptionClass
dbapi_error e =
    if e.is_instance flight_unavailable
      || (e.is_instance flight_timed_out || e.is_instance flight_cancelled)
    then some operational_error
    else if e.is_instance flight_unauthenticated || e.is_instance flight_unauthorized
    then some operational_error
    else if e.is_instance arrow_not_implemented
    then some not_supported_error
    else if e.is_instance flight_internal
    then some internal_error
    else if e.is_instance arrow_invalid
        || (e.is_instance arrow_type_error
            || (e.is_instance arrow_key_error || e.is_instance arrow_index_error))
    then some programming_error
    else if e.is_instance flight_error || e.is_instance arrow_exception
    then some database_error
    else none

-- The handlers of `translate_errors`: `except Error: raise`, then `except Exception`. A Warning is
-- no Error, and `dbapi_error` has no class for it, so it is raised again as well.
unfoldable pub translate_exn : Exn → Exn
unfolding dbapi_error
translate_exn (pep c m k) = pep c m k
translate_exn (foreign e) = elim (dbapi_error e) [
  | none ↦ foreign e
  | some c ↦ pep c e.message (some e)
]

unfoldable pub translate_errors {ℓ} : {A : Type ℓ} → Result A → Result A
unfolding translate_exn
translate_errors (ok a) = ok a
translate_errors (raised e) = raised (translate_exn e)

-- `raise Error(f"{self.__class__.__name__} already closed")`.
abbrev pub already_closed : String → Exn
already_closed class_name = pep error (class_name <> " already closed") none
