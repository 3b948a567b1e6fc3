-- ===== src/Client/Handle/Carried.antt =====
-- flightsql/client.py, _updated_prepared_handle: the handle that a DoPut result carries.
use flightsql_dbapi.Prelude.{
  ℕ, ◌≡◌, refl, sym, ap, ◌∙◌, ◌≢◌, ◌↔◌, inl, inr, false, Option, none, some, List, [], ◌∷◌, All,
  nat_eq, bytes_eq, option_eq, ◌==◌, eq_of_==, if-true, if-false, Bool-cases,
}
use flightsql_dbapi.Prelude.Dict.{lookup}
use flightsql_dbapi.Client.Wire.{protobuf_fields}
use flightsql_dbapi.Client.Wire.RoundTrip.{Field, message, Fits, collected}
use flightsql_dbapi.Client.Handle.{
  starts_with, result_url, any_prefix, found, non_empty, or_empty, choose_handle,
  updated_prepared_handle,
}
use flightsql_dbapi.Client.Handle.Laws.{
  found-message, updated-choose, updated-bare, choose-url, non_empty-some,
}

-- A message carries a handle bare, as its last field 1, or wrapped in an Any: then field 1 is the type
-- URL of DoPutPreparedStatementResult, and the handle is in field 1 of the bytes in field 2.
pub data Carried (fs : List Field) (handle : List ℕ) : Type 0 where
  bare_handle :
      lookup 1 (collected [] fs) ≡ some handle
      → handle ≢ []
      → starts_with handle any_prefix ≡ false
      → Carried fs handle
  wrapped_handle :
      (payload : List ℕ)
      → lookup 1 (collected [] fs) ≡ some result_url
      → lookup 2 (collected [] fs) ≡ some payload
      → lookup 1 (found (protobuf_fields payload)) ≡ some handle
      → handle ≢ []
      → Carried fs handle

non_empty-eq : (o : Option (List ℕ)) (h : List ℕ) → non_empty o ≡ some h → (o ≡ some h) × (h ≢ [])
unfolding non_empty
non_empty-eq none h e = cc
non_empty-eq (some []) h e = cc
non_empty-eq (some (b ∷ bs)) h e = (e, λ p. cc)

module _ (fs : List Field) (handle : List ℕ) where
  plain-Carried :
      (first : Option (List ℕ))
      → lookup 1 (collected [] fs) ≡ first
      → choose_handle first none ≡ some handle
      → Carried fs handle
  unfolding choose_handle or_empty
  plain-Carried first h e = elim (Bool-cases (starts_with (or_empty first) any_prefix)) [
    | inl url ↦
        let refuted =
          sym (if-true (starts_with (or_empty first) any_prefix) none (non_empty first) url) ∙ e in
        cc
    | inr plain ↦
        let (is, filled) = non_empty-eq first handle (
          sym (if-false (starts_with (or_empty first) any_prefix) none (non_empty first) plain)
          ∙ e) in
        bare_handle (h ∙ is) filled (sym (ap (λ o. starts_with (or_empty o) any_prefix) is) ∙ plain)
  ]

  chosen-Carried :
      (first second : Option (List ℕ))
      → lookup 1 (collected [] fs) ≡ first
      → lookup 2 (collected [] fs) ≡ second
      → choose_handle first second ≡ some handle
      → Carried fs handle
  unfolding choose_handle
  chosen-Carried first none h k e = plain-Carried first h e
  chosen-Carried first (some w) h k e = elim (Bool-cases (first == some result_url)) [
    | inl url ↦
        let (held, filled) =
          non_empty-eq (lookup 1 (found (protobuf_fields w))) handle
            (sym (if-true (first == some result_url) _ _ url) ∙ e) in
        wrapped_handle w (h ∙ eq_of_== first (some result_url) url) k held filled
    | inr other ↦ plain-Carried first h (sym (if-false (first == some result_url) _ _ other) ∙ e)
  ]

  Carried-updated :
      All Fits fs → Carried fs handle → updated_prepared_handle (message fs) ≡ some handle
  Carried-updated fits (bare_handle first filled plain) =
      updated-bare fs handle fits first filled plain
  Carried-updated fits (wrapped_handle payload url second held filled) =
      rw (updated-choose (message fs), found-message fs fits, url, second)
        (choose-url payload ∙ ap non_empty held ∙ non_empty-some handle filled)

-- Of a well-formed DoPut result the handle that is returned is exactly the one that it carries, bare_handle
-- or wrapped in an Any, and none is returned where it carries none: an empty handle and the type
-- URL of any message are no handle.
pub updated-Carried :
    (fs : List Field) (handle : List ℕ)
    → All Fits fs
    → (updated_prepared_handle (message fs) ≡ some handle) ↔ Carried fs handle
updated-Carried fs handle fits = (
  (λ e.
      chosen-Carried fs handle (lookup 1 (collected [] fs)) (lookup 2 (collected [] fs)) refl refl
        (rw (updated-choose (message fs), found-message fs fits) at e)),
  λ carried. Carried-updated fs handle fits carried,
)
