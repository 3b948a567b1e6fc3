-- ===== src/Dbapi/Cursor/Execution.antt =====
-- flightsql/dbapi.py, Cursor: what `execute` and `executemany` leave in the cursor and behind it.
use flightsql_dbapi.Prelude.{
  ◌≡◌, refl, ap, ◌∙◌, sym, subst, if-false, if-true, ◌⊎◌, inl, inr, true, false, Option, none, some,
  List, [], ◌∷◌, String, Bool-cases,
}
use flightsql_dbapi.Errors.{Exn, Result, ok, raised}
use flightsql_dbapi.Errors.Translate.{translate_exn, translate_errors, already_closed}
use flightsql_dbapi.Errors.Translation.{Translated, translate_exn-Translated, translate_errors_idem}
use flightsql_dbapi.Effects.{Exec, on_world, lift, translating, around, continue, ◌>>=◌}
use flightsql_dbapi.Effects.Outcome.{
  Outcome, Outcome-bind, Outcome-translating, Outcome-on_world, Outcome-around, Outcome-using,
  Outcome-weaken, Outcome-lift, using-closes,
}
use flightsql_dbapi.Dbapi.Cursor.{
  Cursor, CursorClient, reset, store_results, read_info, execute_direct, run_statement,
  prepared_body, execute_prepared, execute_body, when_open, execute, params_or_empty, each_params,
  executemany_body, executemany,
}

module _ {W V S Batch T R D : Type 0} (client : CursorClient W V S Batch T R D) where
  abbrev pub Empty : Cursor R D → Type 0
  Empty c = (c.description ≡ none) × (c.results ≡ [])

  -- The rows and the description are those of one table, converted.
  abbrev pub Loaded : Cursor R D → Type 0
  Loaded c =
      (table : T) × (rows : List R) × (columns : List D) × (client.dbapi_results table
        ≡ ok (rows, columns))
      × (c.results ≡ rows)
      × (c.description ≡ some columns)

  abbrev pub Fresh : Cursor R D → Type 0
  Fresh c = Empty c ⊎ Loaded c

  abbrev pub cursor_of : Cursor R D × W → Cursor R D
  cursor_of s = s.0

  abbrev inner_cursor_of : S × (Cursor R D × W) → Cursor R D
  inner_cursor_of s = s.1.0

  store_results-Loaded :
      (table : T) (found : List R × List D) (s : Cursor R D × W)
      → client.dbapi_results table ≡ ok found
      → Outcome cursor_of Loaded Fresh (store_results client found s)
  unfolding store_results
  store_results-Loaded table (rows, columns) (c, w) e = (table, rows, columns, e, refl, refl)

  execute_direct-Loaded :
      (query : String) (c : Cursor R D) (w : W)
      → Empty c
      → Outcome cursor_of Loaded Fresh (execute_direct client query (c, w))
  unfolding execute_direct
  execute_direct-Loaded query c w h =
      Outcome-bind cursor_of Empty Loaded Fresh (on_world direct) _ (c, w)
        (Outcome-weaken cursor_of Empty Empty Empty Fresh (on_world direct (c, w)) (λ c' e. e)
          (λ c' e. inl e) (Outcome-on_world Empty direct c w h))
        (λ table s e p. load table s p)
    where
      direct : Exec W T
      direct = client.execute query >>= read_info client

      load :
          (table : T) (s : Cursor R D × W)
          → Empty s.0
          → Outcome cursor_of Loaded Fresh
              ((lift (client.dbapi_results table) >>= store_results client) s)
      load table s p =
          Outcome-bind cursor_of Empty Loaded Fresh (lift (client.dbapi_results table))
            (store_results client) s
            (Outcome-weaken cursor_of Empty Empty Empty Fresh (lift (client.dbapi_results table) s)
              (λ c' e. e) (λ c' e. inl e)
              (Outcome-lift cursor_of Empty (client.dbapi_results table) s p))
            (λ found s' e q. store_results-Loaded table found s' (cc e))

  prepared_body-Loaded :
      (values : List V) (s : S) (x : Cursor R D × W)
      → Empty x.0
      → Outcome inner_cursor_of Loaded Fresh (prepared_body client values (s, x))
  unfolding prepared_body
  prepared_body-Loaded values s (c, w) h =
      Outcome-bind inner_cursor_of Empty Loaded Fresh (around (run_statement client values)) _
        (s, (c, w))
        (Outcome-weaken inner_cursor_of Empty Empty Empty Fresh
          (around (run_statement client values) (s, (c, w))) (λ c' e. e) (λ c' e. inl e)
          (Outcome-around Empty (run_statement client values) s c w h))
        (λ table t e p. load table t p)
    where
      load :
          (table : T) (t : S × (Cursor R D × W))
          → Empty t.1.0
          → Outcome inner_cursor_of Loaded Fresh (
              (lift (client.dbapi_results table) >>= λ found. on_world (store_results client found))
                t)
      load table t p =
          Outcome-bind inner_cursor_of Empty Loaded Fresh (lift (client.dbapi_results table)) _ t
            (Outcome-weaken inner_cursor_of Empty Empty Empty Fresh
              (lift (client.dbapi_results table) t) (λ c' e. e) (λ c' e. inl e)
              (Outcome-lift inner_cursor_of Empty (client.dbapi_results table) t p))
            (λ found t' e q. unfold store_results in (table, found.0, found.1, cc e, refl, refl))

  execute_prepared-Loaded :
      (query : String) (values : List V) (c : Cursor R D) (w : W)
      → Empty c
      → Outcome cursor_of Loaded Fresh (execute_prepared client query values (c, w))
  unfolding execute_prepared
  execute_prepared-Loaded query values c w h =
      Outcome-using Empty Loaded Fresh (on_world (client.prepare query))
        (prepared_body client values) client.close_statement (c, w) (λ c' l. inr l)
        (Outcome-weaken cursor_of Empty Empty Empty Fresh (on_world (client.prepare query) (c, w))
          (λ c' e. e) (λ c' e. inl e) (Outcome-on_world Empty (client.prepare query) c w h))
        (prepared_body-Loaded values)

  execute_body-Loaded :
      (query : String) (values : List V) (c : Cursor R D) (w : W)
      → Empty c
      → Outcome cursor_of Loaded Fresh (execute_body client query values (c, w))
  unfolding execute_body
  execute_body-Loaded query [] c w h = execute_direct-Loaded query c w h
  execute_body-Loaded query (v ∷ vs) c w h = execute_prepared-Loaded query (v ∷ vs) c w h

  when_open-translating :
      (body : Exec (Cursor R D × W) (Unit {0})) (c : Cursor R D) (w : W)
      → c.closed ≡ false
      → when_open client body (c, w) ≡ translating body (reset client c, w)
  unfolding when_open
  when_open-translating body c w is_open = if-false c.closed _ _ is_open

  translated-fixed :
      (r : Result (Unit {0})) (e : Exn) → translate_errors r ≡ raised e → translate_exn e ≡ e
  unfolding translate_errors
  translated-fixed r e h =
      let p : translate_errors (raised e) ≡ raised e =
        subst (λ t. translate_errors t ≡ t) h (translate_errors_idem r) in
      cc p

  when_open-closed :
      (body : Exec (Cursor R D × W) (Unit {0})) (c : Cursor R D) (w : W)
      → c.closed ≡ true
      → when_open client body (c, w) ≡ (raised (already_closed "Cursor"), (c, w))
  unfolding when_open
  when_open-closed body c w shut = if-true c.closed _ _ shut

  when_open_translated :
      (body : Exec (Cursor R D × W) (Unit {0})) (c : Cursor R D) (w : W) (e : Exn)
      → (when_open client body (c, w)).0 ≡ raised e
      → translate_exn e ≡ e
  when_open_translated body c w e h = elim (Bool-cases c.closed) [
    | inl shut ↦
        let q : already_closed "Cursor" ≡ e = cc (h, when_open-closed body c w shut) in
        subst (λ x. translate_exn x ≡ x) q (unfold translate_exn in refl)
    | inr is_open ↦
        translated-fixed (body (reset client c, w)).0 e
          (subst (λ r. r.0 ≡ raised e) (when_open-translating body c w is_open) h)
  ]

  -- On an open cursor, whatever it holds and whatever the client does: when `execute` returns, the
  -- rows and the description are those of one table, converted by `dbapi_results`, and when it
  -- raises, the cursor holds these or nothing.
  pub execute-Fresh :
      (query : String) (params : Option (List V)) (c : Cursor R D) (w : W)
      → c.closed ≡ false
      → Outcome cursor_of Loaded Fresh (execute client query params (c, w))
  unfolding execute
  execute-Fresh query params c w is_open =
      subst (λ r. Outcome cursor_of Loaded Fresh r)
        (sym
          (when_open-translating (execute_body client query (params_or_empty params)) c w is_open))
        (Outcome-translating cursor_of Loaded Fresh
          (execute_body client query (params_or_empty params)) (reset client c, w)
          (execute_body-Loaded query (params_or_empty params) (reset client c) w
            (unfold reset in (refl, refl))))

  -- On an open cursor `executemany` with parameters leaves no rows and no description, whether it
  -- returns or raises.
  pub executemany-Empty :
      (query : String) (params : Option (List V)) (rest : List (Option (List V))) (c : Cursor R D)
      (w : W)
      → c.closed ≡ false
      → Outcome cursor_of Empty Empty (executemany client query (params ∷ rest) (c, w))
  unfolding executemany
  executemany-Empty query params rest c w is_open =
      subst (λ r. Outcome cursor_of Empty Empty r)
        (sym (when_open-translating (executemany_body client query (params ∷ rest)) c w is_open))
        (Outcome-translating cursor_of Empty Empty (executemany_body client query (params ∷ rest))
          (reset client c, w)
          (unfold executemany_body in
            Outcome-using Empty Empty Empty (on_world (client.prepare query))
              (around (each_params client (params ∷ rest))) client.close_statement
              (reset client c, w) (λ c' e. e)
              (Outcome-on_world Empty (client.prepare query) (reset client c) w
                (unfold reset in (refl, refl)))
              (λ s y e. Outcome-around Empty (each_params client (params ∷ rest)) s y.0 y.1 e)))

  abbrev statement_of : S × (Cursor R D × W) → S × W
  statement_of t = (t.0, t.1.1)

  abbrev loading : T → Exec (S × (Cursor R D × W)) (Unit {0})
  loading table =
      lift (client.dbapi_results table) >>= λ found. on_world (store_results client found)

  statement_of-loading :
      (table : T) (t : S × (Cursor R D × W)) → statement_of (loading table t).1 ≡ statement_of t
  statement_of-loading table t = by_found (client.dbapi_results table)
    where
      by_found :
          (r : Result (List R × List D))
          → statement_of ((lift r >>= λ found. on_world (store_results client found)) t).1
            ≡ statement_of t
      by_found (ok found) = unfold store_results in refl
      by_found (raised e) = refl

  -- What the body leaves of the statement and of the world is what the run of the binding left.
  prepared_body-run_statement :
      (values : List V) (s : S) (c : Cursor R D) (w : W)
      → statement_of (prepared_body client values (s, (c, w))).1
        ≡ (run_statement client values (s, w)).1
  unfolding prepared_body
  prepared_body-run_statement values s c w = by_run (run_statement client values (s, w))
    where
      by_run :
          (r : Result T × (S × W))
          → statement_of (continue (r.0, (r.1.0, (c, r.1.1))) loading).1 ≡ r.1
      by_run (ok table, t) = statement_of-loading table (t.0, (c, t.1))
      by_run (raised e, t) = refl

  -- Where preparing returned `s`, `execute` with parameters runs the binding once on `s` and then
  -- closes the statement that this left, on every path: the world that it leaves is the one that
  -- this close left.
  pub execute_closes :
      (query : String) (v : V) (vs : List V) (c : Cursor R D) (w : W) (s : S) (w₁ : W)
      → c.closed ≡ false
      → client.prepare query w ≡ (ok s, w₁)
      → (execute client query (some (v ∷ vs)) (c, w)).1.1
        ≡ (client.close_statement (run_statement client (v ∷ vs) (s, w₁)).1).1.1
  unfolding execute
  execute_closes query v vs c w s w₁ is_open e =
      ap (λ r. r.1.1) (when_open-translating (execute_body client query (v ∷ vs)) c w is_open)
      ∙ (unfold execute_body in
          using-closes (on_world (client.prepare query)) (prepared_body client (v ∷ vs))
            client.close_statement (reset client c, w) (reset client c, w₁) s (rw e))
      ∙ ap (λ t. (client.close_statement t).1.1)
          (prepared_body-run_statement (v ∷ vs) s (reset client c) w₁)

  -- No FlightError and no ArrowException leaves `execute`, on an open cursor or a closed one.
  pub execute-Translated :
      (query : String) (params : Option (List V)) (c : Cursor R D) (w : W) (e : Exn)
      → (execute client query params (c, w)).0 ≡ raised e
      → Translated e
  unfolding execute
  execute-Translated query params c w e h =
      translate_exn-Translated e
        (when_open_translated (execute_body client query (params_or_empty params)) c w e h)

  -- The same of `executemany`.
  pub executemany-Translated :
      (query : String) (seq : List (Option (List V))) (c : Cursor R D) (w : W) (e : Exn)
      → (executemany client query seq (c, w)).0 ≡ raised e
      → Translated e
  unfolding executemany
  executemany-Translated query seq c w e h =
      translate_exn-Translated e (when_open_translated (executemany_body client query seq) c w e h)
