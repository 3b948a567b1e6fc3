-- ===== src/Errors/Translation.antt =====
-- flightsql/util.py: the classes of the errors that `translate_errors` and `dbapi_error` make.
use flightsql_dbapi.Prelude.{
  ◌≡◌, refl, ◌↔◌, inl, inr, true, false, ◌||◌, none, some, arith, Option-cases,
}
use flightsql_dbapi.Errors.{
  ExceptionClass, error, class_eq, operational_error, database_error, flight_unavailable,
  flight_timed_out, flight_cancelled, flight_unauthenticated, flight_unauthorized, flight_internal,
  flight_error, arrow_not_implemented, arrow_invalid, arrow_type_error, arrow_key_error,
  arrow_index_error, arrow_exception, Foreign, Exn, pep, foreign, Result, ok, raised,
}
use flightsql_dbapi.Errors.Translate.{is_subclass, dbapi_error, translate_exn, translate_errors}

-- pyarrow's documented hierarchy: the Flight errors are FlightErrors, and the Arrow errors
-- ArrowExceptions.
pub record IsDocumented (e : Foreign) : Type 0 where
  pub unavailable : e.is_instance flight_unavailable ≡ true → e.is_instance flight_error ≡ true
  pub timed_out : e.is_instance flight_timed_out ≡ true → e.is_instance flight_error ≡ true
  pub cancelled : e.is_instance flight_cancelled ≡ true → e.is_instance flight_error ≡ true
  pub unauthenticated :
      e.is_instance flight_unauthenticated ≡ true → e.is_instance flight_error ≡ true
  pub unauthorized : e.is_instance flight_unauthorized ≡ true → e.is_instance flight_error ≡ true
  pub internal : e.is_instance flight_internal ≡ true → e.is_instance flight_error ≡ true
  pub not_implemented :
      e.is_instance arrow_not_implemented ≡ true → e.is_instance arrow_exception ≡ true
  pub invalid : e.is_instance arrow_invalid ≡ true → e.is_instance arrow_exception ≡ true
  pub wrong_type : e.is_instance arrow_type_error ≡ true → e.is_instance arrow_exception ≡ true
  pub no_key : e.is_instance arrow_key_error ≡ true → e.is_instance arrow_exception ≡ true
  pub no_index : e.is_instance arrow_index_error ≡ true → e.is_instance arrow_exception ≡ true

-- Under pyarrow's documented hierarchy, `dbapi_error` returns no exception exactly for the errors
-- that are neither a FlightError nor an ArrowException.
pub dbapi_error-none_iff :
    (e : Foreign)
    → IsDocumented e
    → (dbapi_error e ≡ none)
      ↔ ((e.is_instance flight_error ≡ false) × (e.is_instance arrow_exception ≡ false))
unfolding dbapi_error
dbapi_error-none_iff e d = (λ h. (ground arith, ground arith), λ h. ground arith)

-- Every class that `dbapi_error` returns is a DatabaseError, and so an Error.
dbapi_error-is_subclass :
    (e : Foreign) (c : ExceptionClass)
    → dbapi_error e ≡ some c
    → (is_subclass c database_error ≡ true) × (is_subclass c error ≡ true)
unfolding dbapi_error is_subclass
dbapi_error-is_subclass e error h = absurd (ground arith)
dbapi_error-is_subclass e _ h = ground arith

-- Every FlightError and every ArrowException leaves `translate_errors` as a subclass of
-- DatabaseError, with its message, and with itself as the cause.
pub translate_errors-foreign :
    (e : Foreign)
    → (e.is_instance flight_error || e.is_instance arrow_exception) ≡ true
    → (c : ExceptionClass) × (translate_errors {A = Unit {0}} (raised (foreign e))
        ≡ raised (pep c e.message (some e)))
      × (is_subclass c database_error ≡ true)
      × (is_subclass c error ≡ true)
unfolding translate_errors
translate_errors-foreign e h = elim (Option-cases (dbapi_error e)) [
  | inl nothing ↦ absurd (unfold dbapi_error in ground arith)
  | inr (c, is_c) ↦ (
    c,
    rw (is_c, translate_exn),
    (dbapi_error-is_subclass e c is_c).0,
    (dbapi_error-is_subclass e c is_c).1,
  )
]

-- A failure is an OperationalError after translation exactly if the server was unavailable, the
-- call timed out or was cancelled, or the caller was not authenticated or not authorized.
pub dbapi_error-operational :
    (e : Foreign)
    → (dbapi_error e ≡ some operational_error) ↔ (
        (e.is_instance flight_unavailable
          || (e.is_instance flight_timed_out
              || (e.is_instance flight_cancelled
                  || (e.is_instance flight_unauthenticated || e.is_instance flight_unauthorized))))
        ≡ true)
unfolding dbapi_error
dbapi_error-operational e = (λ h. ground arith, λ h. ground arith)

-- Translating twice is translating once: nested decorated methods do not wrap an error again.
pub translate_errors_idem {ℓ} :
    {A : Type ℓ} (r : Result A) → translate_errors (translate_errors r) ≡ translate_errors r
unfolding translate_errors
translate_errors_idem (ok a) = refl
translate_errors_idem (raised (pep c m k)) = refl
translate_errors_idem (raised (foreign e)) = ground arith

-- An exception that is no error of pyarrow or Flight.
abbrev pub Translated : Exn → Type 0
Translated (pep c message cause) = Unit {0}
Translated (foreign e) =
    (e.is_instance flight_error ≡ false) × (e.is_instance arrow_exception ≡ false)

-- What one more translation leaves alone is no such error.
pub translate_exn-Translated : (e : Exn) → translate_exn e ≡ e → Translated e
translate_exn-Translated (pep c message cause) h = tt
translate_exn-Translated (foreign e) h = elim (Option-cases (dbapi_error e)) [
  | inl nothing ↦ unfold dbapi_error in (ground arith, ground arith)
  | inr (c, is_c) ↦ absurd (unfold translate_exn in cc (h, is_c))
]
