-- ===== src/Client/Handle/Laws.antt =====
-- flightsql/client.py, _updated_prepared_handle: the forms of a DoPut result.
use flightsql_dbapi.Prelude.{
  ℕ, ◌≡◌, refl, ◌≢◌, ap, true, false, Option, none, some, List, [], ◌∷◌, All, arith, nat_eq,
  bytes_eq, option_eq, ==_refl, ==_ne,
}
use flightsql_dbapi.Prelude.Dict.{lookup}
use flightsql_dbapi.Client.Wire.{protobuf_fields}
use flightsql_dbapi.Client.Wire.RoundTrip.{Field, message, Fits, collected, protobuf_fields-message}
use flightsql_dbapi.Client.Handle.{
  starts_with, result_url, any_prefix, found, non_empty, choose_handle, updated_prepared_handle,
}

-- The fields that a message holds, as the code finds them.
pub found-message :
    (fs : List Field) → All Fits fs → found (protobuf_fields (message fs)) ≡ collected [] fs
unfolding found
found-message fs fits = rw (protobuf_fields-message fs fits)

pub updated-choose :
    (payload : List ℕ)
    → updated_prepared_handle payload
      ≡ choose_handle
          (lookup 1 (found (protobuf_fields payload)))
          (lookup 2 (found (protobuf_fields payload)))
unfolding updated_prepared_handle protobuf_fields starts_with any_prefix
updated-choose [] = refl
updated-choose (b ∷ bs) = refl

url_has_prefix : starts_with result_url any_prefix ≡ true
unfolding starts_with result_url any_prefix
url_has_prefix = refl

pub non_empty-some : (h : List ℕ) → h ≢ [] → non_empty (some h) ≡ some h
unfolding non_empty
non_empty-some [] n = absurd (n refl)
non_empty-some (b ∷ bs) n = refl

pub choose-url :
    (w : List ℕ)
    → choose_handle (some result_url) (some w) ≡ non_empty (lookup 1 (found (protobuf_fields w)))
choose-url w = unfold choose_handle in rw (==_refl {A = Option (List ℕ)} (some result_url))

choose-ne_url :
    (first w : List ℕ)
    → first ≢ result_url
    → choose_handle (some first) (some w) ≡ choose_handle (some first) none
choose-ne_url first w h =
    unfold choose_handle in
    rw (==_ne {A = Option (List ℕ)} (some first) (some result_url) (λ e. h (cc)))

pub updated-bare :
    (fs : List Field) (handle : List ℕ)
    → All Fits fs
    → lookup 1 (collected [] fs) ≡ some handle
    → handle ≢ []
    → starts_with handle any_prefix ≡ false
    → updated_prepared_handle (message fs) ≡ some handle
updated-bare fs handle fits first filled plain =
    rw (updated-choose (message fs), found-message fs fits, first)
      (choose (lookup 2 (collected [] fs)))
  where
    not_url : handle ≢ result_url
    not_url e = cc (plain, url_has_prefix, ap (λ (t : List ℕ). starts_with t any_prefix) e)

    choose : (second : Option (List ℕ)) → choose_handle (some handle) second ≡ some handle
    choose none = unfold choose_handle in rw (plain, non_empty-some handle filled)
    choose (some w) =
        rw (choose-ne_url handle w not_url)
          (unfold choose_handle in rw (plain, non_empty-some handle filled))

-- The same wrapped in an Any: for every message with the type URL of DoPutPreparedStatementResult
-- as its last field 1 and a message as its last field 2 whose last field 1 is `handle`, not empty,
-- that handle is returned, whatever it begins with.
pub updated-wrapped :
    (outer inner : List Field) (handle : List ℕ)
    → All Fits outer
    → All Fits inner
    → lookup 1 (collected [] outer) ≡ some result_url
    → lookup 2 (collected [] outer) ≡ some (message inner)
    → lookup 1 (collected [] inner) ≡ some handle
    → handle ≢ []
    → updated_prepared_handle (message outer) ≡ some handle
updated-wrapped outer inner handle fits_outer fits_inner url wrapped first filled =
    rw (updated-choose (message outer), found-message outer fits_outer, url, wrapped)
      (rw (choose-url (message inner), found-message inner fits_inner, first)
        (non_empty-some handle filled))

-- An Any that wraps some other message yields no handle: the URL differs from that of
-- DoPutPreparedStatementResult, and has the prefix of one.
pub updated-other_any :
    (fs : List Field) (url : List ℕ)
    → All Fits fs
    → lookup 1 (collected [] fs) ≡ some url
    → url ≢ result_url
    → starts_with url any_prefix ≡ true
    → updated_prepared_handle (message fs) ≡ none
updated-other_any fs url fits first other prefix =
    rw (updated-choose (message fs), found-message fs fits, first)
      (choose (lookup 2 (collected [] fs)))
  where
    choose : (second : Option (List ℕ)) → choose_handle (some url) second ≡ none
    choose none = unfold choose_handle in rw prefix
    choose (some w) = rw (choose-ne_url url w other) (unfold choose_handle in rw prefix)

non_empty-ne_nil : (o : Option (List ℕ)) (h : List ℕ) → non_empty o ≡ some h → h ≢ []
unfolding non_empty
non_empty-ne_nil none h e = cc
non_empty-ne_nil (some []) h e = cc
non_empty-ne_nil (some (b ∷ bs)) h e = λ p. cc

-- No payload, well formed or not, yields an empty handle.
pub updated-ne_nil :
    (payload handle : List ℕ) → updated_prepared_handle payload ≡ some handle → handle ≢ []
updated-ne_nil payload handle e =
    choice (lookup 1 (found (protobuf_fields payload))) (lookup 2 (found (protobuf_fields payload)))
      (rw (updated-choose payload) at e)
  where
    plain : (first : Option (List ℕ)) → choose_handle first none ≡ some handle → handle ≢ []
    plain first h = unfold choose_handle in ground (arith, non_empty-ne_nil first handle)

    choice :
        (first second : Option (List ℕ)) → choose_handle first second ≡ some handle → handle ≢ []
    choice first none h = plain first h
    choice first (some w) h =
        unfold choose_handle in
        ground (
          arith,
          non_empty-ne_nil first handle,
          non_empty-ne_nil (lookup 1 (found (protobuf_fields w))) handle,
        )
