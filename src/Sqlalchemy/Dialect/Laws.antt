-- ===== src/Sqlalchemy/Dialect/Laws.antt =====
-- flightsql/sqlalchemy.py, the dialects: what holds once one is initialized, and which errors of
-- the DB API mean a lost connection.
use flightsql_dbapi.Prelude.{
  ◌≡◌, refl, sym, ap, ◌∙◌, subst, ◌⊎◌, inl, inr, Bool, true, false, Option, none, some, ◌==◌,
  eq_of_==, option_eq, bytes_eq, nat_eq, Bool-cases, if-true, if-false, if◌then◌else◌, arith,
}
use flightsql_dbapi.Prelude.Dict.{lookup}
use flightsql_dbapi.Errors.{Exn, foreign, Foreign, Result, ok, raised, flight_unavailable}
use flightsql_dbapi.Errors.Translate.{translate_exn, dbapi_error}
use flightsql_dbapi.Effects.{Exec, pure, raise, on_world, catching, ◌>>◌}
use flightsql_dbapi.Effects.Laws.{continue-eq-ok}
use flightsql_dbapi.Sqlalchemy.Url.{Text}
use flightsql_dbapi.Sqlalchemy.Dialect.{
  InfoValue, null_info, text_info, bool_info, other_info, literal_bind, prepared_statement, Dialect,
  Opened, truthy, default_identifier_quote, quote_of, with_read_only, with_sql_info,
  sql_info_or_empty, initialize, uses_prepared, with_compiler, unverified, mismatched,
  reported_catalog, compared, check_catalog, datafusion_initialize, is_disconnect,
}

-- An error of pyarrow, as the DB API raises it, ends the connection exactly where it is a
-- FlightUnavailableError.
pub is_disconnect-translate_exn :
    (f : Foreign) → is_disconnect (translate_exn (foreign f)) ≡ f.is_instance flight_unavailable
unfolding is_disconnect translate_exn dbapi_error
is_disconnect-translate_exn f = ground arith

catching_ok :
    {S A : Type 0} (m : Exec S A) (handler : Exn → Exec S A) (s : S) (a : A) (s' : S)
    → catching m handler s ≡ (ok a, s')
    → (m s ≡ (ok a, s')) ⊎ ((e : Exn) × (t : S) × (handler e t ≡ (ok a, s')))
catching_ok {S} {A} m handler s a s' e = step (m s) e
  where
    step :
        (x : Result A × S)
        → catching (λ _. x) handler s ≡ (ok a, s')
        → (x ≡ (ok a, s')) ⊎ ((e : Exn) × (t : S) × (handler e t ≡ (ok a, s')))
    step (ok b, t) h = inl h
    step (raised e, t) h = inr (e, t, h)

on_world_ok :
    {O W A : Type 0} (m : Exec W A) (o o' : O) (w w' : W) (a : A)
    → on_world m (o, w) ≡ (ok a, (o', w'))
    → (o ≡ o') × (m w ≡ (ok a, w'))
on_world_ok m o o' w w' a e = (ap (λ x. x.1.0) e, λ i. ((e i).0, (e i).1.1))

both_raise :
    {S A : Type 0} (b : Bool) (x y : Exn) (s : S) (a : A) (s' : S)
    → (if b then raise x else raise y) s ≡ (ok a, s')
    → ⊥
both_raise true x y s a s' e = cc
both_raise false x y s a s' e = cc

truthy-quote_of : (v : Option InfoValue) → truthy (quote_of v) ≡ true
truthy-quote_of none = refl
truthy-quote_of (some v) = elim (Bool-cases (truthy v)) [
  | inl h ↦ ap truthy (if-true (truthy v) v default_identifier_quote h) ∙ h
  | inr h ↦ ap truthy (if-false (truthy v) v default_identifier_quote h)
]

-- The identifier quote is never empty.
abbrev pub Quoted : Dialect → Type 0
Quoted d = (truthy d.initial_quote ≡ true) × (d.final_quote ≡ d.initial_quote)

read_only-Quoted : (v : Option InfoValue) (d : Dialect) → Quoted d → Quoted (with_read_only v d)
read_only-Quoted none d h = h
read_only-Quoted (some null_info) d h = h
read_only-Quoted (some (text_info s)) d h = h
read_only-Quoted (some (bool_info b)) d h = h
read_only-Quoted (some (other_info b)) d h = h

module _ {W : Type 0} (opened : Opened W) where
  initialize-Quoted :
      (d d' : Dialect) (w w' : W) → initialize opened (d, w) ≡ (ok tt, (d', w')) → Quoted d'
  unfolding initialize with_sql_info
  initialize-Quoted d d' w w' e =
      let (u, (d1, w1), e1, f1) =
        continue-eq-ok (on_world opened.default_initialize (d, w)) _ tt (d', w') e in
      let (info, (d2, w2), e2, f2) =
        continue-eq-ok (on_world (sql_info_or_empty opened) (d1, w1)) _ tt (d', w') f1 in
      subst Quoted (ap (λ x. x.1.0) f2)
        (read_only-Quoted (lookup 3 info) _ (truthy-quote_of (lookup 504 info), refl))

  -- The server's default catalog is the one of the URL, by the last query sent.
  abbrev pub Verified : Option Text → W → Type 0
  Verified none w = Unit {0}
  Verified (some catalog) w =
      (before : W) × (opened.default_catalog before ≡ (ok (some catalog), w))

  accepts_catalog :
      (found : Option Text) (catalog : Text) (w : W)
      → (found == some catalog) ≡ true
      → compared opened catalog found w ≡ (ok tt, w)
  accepts_catalog found catalog w h =
      ap (λ m. m w) (if-true (found == some catalog) (pure tt) (raise (mismatched opened)) h)

  rejects_catalog :
      (found : Option Text) (catalog : Text) (w : W)
      → (found == some catalog) ≡ false
      → compared opened catalog found w ≡ (raised (mismatched opened), w)
  rejects_catalog found catalog w h =
      ap (λ m. m w) (if-false (found == some catalog) (pure tt) (raise (mismatched opened)) h)

  check_catalog-Verified :
      (c : Option Text) (w w' : W) → check_catalog opened c w ≡ (ok tt, w') → Verified c w'
  check_catalog-Verified none w w' e = tt
  check_catalog-Verified (some catalog) w w' e =
      let (found, w1, e1, f1) =
        continue-eq-ok (reported_catalog opened w) (compared opened catalog) tt w' e in
      elim (Bool-cases (found == some catalog)) [
        | inl h ↦ elim (catching_ok opened.default_catalog _ w found w1 e1) [
          | inl asked ↦ (
            w,
            asked ∙ (λ i. (
              ok (eq_of_== found (some catalog) h i),
              ap (λ x. x.1) (sym (accepts_catalog found catalog w1 h) ∙ f1) i,
            )),
          )
          | inr (x, t, failed) ↦
              absurd (both_raise (opened.is_dbapi_error x) (unverified opened) x t found w1 failed)
        ]
        | inr h ↦
            let refused : ◌≡◌ {A = Result (Unit {0}) × W} (raised (mismatched opened), w1)
                (ok tt, w') =
              sym (rejects_catalog found catalog w1 h) ∙ f1 in
            cc
      ]

  -- Where the initialization of the DataFusion dialect returns, a catalog in the URL is the default
  -- catalog that the server reported last, the compiler prepares statements exactly where that
  -- feature is on, and the identifier quote is the same on both sides and not empty.
  pub datafusion_initialize-Verified :
      (d d' : Dialect) (w w' : W)
      → datafusion_initialize opened (d, w) ≡ (ok tt, (d', w'))
      → Verified opened.catalog w'
        × (d'.statement_compiler
            ≡ (if uses_prepared opened.features then prepared_statement else literal_bind))
        × Quoted d'
  unfolding datafusion_initialize
  datafusion_initialize-Verified d d' w w' e =
      let (u, (d1, w1), e1, f1) =
        continue-eq-ok (initialize opened (d, w)) (λ _. with_compiler opened >> checked) tt (d', w')
          e in
      let (same, agreed) = on_world_ok (check_catalog opened opened.catalog) _ d' w1 w' tt f1 in
      (
        check_catalog-Verified opened.catalog w1 w' agreed,
        ap (λ x. x.statement_compiler) (sym same),
        subst Quoted same (initialize-Quoted d d1 w w1 e1),
      )
    where
      checked : Exec (Dialect × W) (Unit {0})
      checked = on_world (check_catalog opened opened.catalog)
