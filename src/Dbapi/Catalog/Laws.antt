-- ===== src/Dbapi/Catalog/Laws.antt =====
-- flightsql/dbapi.py, Connection._catalog_fallback: when it asks the server, and what it may settle on.
use flightsql_dbapi.Prelude.{
  ◌≡◌, refl, sym, ap, subst, ==_refl, ◌⊎◌, inl, inr, Bool, true, false, ◌||◌, not, Option, none,
  some, List, [], ◌∷◌, String, ◌==◌, contains, string_eq, Bool-cases, if-true, if-false,
  if◌then◌else◌,
}
use mathlib.Core.Option.{none-ne-some, some-injective}
use flightsql_dbapi.Errors.{Foreign, pep, foreign, Result, ok, raised, ForeignClass}
use flightsql_dbapi.Effects.{Exec, raise, pure}
use flightsql_dbapi.Effects.Laws.{continue-eq-ok}
use flightsql_dbapi.Dbapi.Response.{
  tables_from_info, Value, null, text, binary, other, MetadataClient,
}
use flightsql_dbapi.Dbapi.Catalog.{
  Scope, transient_probe_errors, transient_metadata_probe_errors, is_transient, is_none, is_single,
  listed_text, listed_default, setting_values, default_catalog_query, is_probe_error, schema_names,
  catalog_names, default_catalog, catalog_probe_failed, decide, after_default, choose_catalog,
  after_catalogs, resolve_catalog, Probe, empty, answers, failed, propagated, schemas_probe,
  after_schemas, catalog_fallback,
}

module _ {W Reader : Type 0} (client : MetadataClient W Reader) where
  -- With a catalog configured, or an outcome already cached, the discovery answers false, changes
  -- nothing and sends nothing.
  pub catalog_fallback-decided :
      (unscoped_schemas_empty : Bool) (scope : Scope) (w : W)
      → (not (is_none scope.catalog) || not (is_none scope.resolved)) ≡ true
      → catalog_fallback client unscoped_schemas_empty (scope, w) ≡ (ok false, (scope, w))
  unfolding catalog_fallback
  catalog_fallback-decided b scope w h =
      if-true (not (is_none scope.catalog) || not (is_none scope.resolved)) _ _ h

  -- GetCatalogs answered with the name, in some state of the server.
  abbrev pub Listed : String → Type 0
  Listed name =
      (w : W) × (w' : W) × (names : List String) × (catalog_names client w ≡ (ok names, w'))
      × (contains names name ≡ true)

  -- The scope after a run of the discovery, by its result.
  abbrev pub Settled : Scope → Result Bool × (Scope × W) → Type 0
  Settled before (ok true, (after, w)) =
      (name : String) × (after ≡ record before { resolved = some (some name) }) × Listed name
  Settled before (ok false, (after, w)) =
      (after ≡ before) ⊎ (after ≡ record before { resolved = some none })
  Settled before (raised e, (after, w)) = after ≡ before

  listed_default-listed :
      (values : List Value) (names : List String)
      → (listed_default values names ≡ none)
        ⊎ ((name : String) × (listed_default values names ≡ some name)
            × (contains names name ≡ true))
  unfolding listed_default listed_text
  listed_default-listed [] names = inl refl
  listed_default-listed (null ∷ []) names = inl refl
  listed_default-listed (binary b ∷ []) names = inl refl
  listed_default-listed (other ∷ []) names = inl refl
  listed_default-listed (text name ∷ []) names = elim (Bool-cases (contains names name)) [
    | inl h ↦ inr (name, if-true (contains names name) _ _ h, h)
    | inr h ↦ inl (if-false (contains names name) _ _ h)
  ]
  listed_default-listed (v ∷ v' ∷ values) names = inl refl

  default_catalog-listed :
      (names : List String) (w : W) (name : String)
      → (default_catalog client names w).0 ≡ ok (some name)
      → contains names name ≡ true
  unfolding default_catalog
  default_catalog-listed names w name e =
      let (info, w₁, _, e₁) =
        continue-eq-ok (client.execute default_catalog_query w) _ (some name)
          (default_catalog client names w).1
          (ap (λ r. (r, (default_catalog client names w).1)) e) in
      let (tables, w₂, _, e₂) =
        continue-eq-ok (tables_from_info client info w₁) _ (some name)
          (default_catalog client names w).1 e₁ in
      let (values, w₃, _, e₃) =
        continue-eq-ok (setting_values tables, w₂) (λ values. pure (listed_default values names))
          (some name) (default_catalog client names w).1 e₂ in
      elim (listed_default-listed values names) [
        | inl missing ↦ absurd (none-ne-some name (cc (missing, e₃)))
        | inr (found, chosen, listed) ↦ cc
      ]

  probe_failed-Settled :
      (e : Foreign) (transient : List ForeignClass) (scope : Scope) (w : W)
      → Settled scope (catalog_probe_failed client e transient (scope, w))
  unfolding catalog_probe_failed
  probe_failed-Settled e transient scope w = elim (Bool-cases (is_transient transient e)) [
    | inl h ↦ inl (if-true (is_transient transient e) _ _ h)
    | inr h ↦ inr (if-false (is_transient transient e) _ _ h)
  ]

  decide-Settled :
      (name : Option String) (scope : Scope) (w : W)
      → ((found : String) → name ≡ some found → Listed found)
      → Settled scope (decide client name (scope, w))
  unfolding decide
  decide-Settled none scope w h = inr refl
  decide-Settled (some name) scope w h = (name, refl, h name refl)

  caught-Settled :
      (e : Foreign) (transient : List ForeignClass) (scope : Scope) (w : W)
      → Settled scope (
          (if is_probe_error e then catalog_probe_failed client e transient else raise (foreign e))
            (scope, w))
  caught-Settled e transient scope w = elim (Bool-cases (is_probe_error e)) [
    | inl yes_probe ↦
        subst (λ (m : Exec (Scope × W) Bool). Settled scope (m (scope, w)))
          (sym (if-true (is_probe_error e) _ _ yes_probe))
          (probe_failed-Settled e transient scope w)
    | inr no_probe ↦
        subst (λ (m : Exec (Scope × W) Bool). Settled scope (m (scope, w)))
          (sym (if-false (is_probe_error e) _ _ no_probe)) refl
  ]

  after_default-Settled :
      (r : Result (Option String)) (scope : Scope) (w : W)
      → ((found : String) → r ≡ ok (some found) → Listed found)
      → Settled scope (after_default client r (scope, w))
  unfolding after_default
  after_default-Settled (ok name) scope w h =
      decide-Settled name scope w (λ found e. h found (ap ok e))
  after_default-Settled (raised (pep c m k)) scope w h = refl
  after_default-Settled (raised (foreign e)) scope w h =
      caught-Settled e transient_probe_errors scope w

  contains-first :
      (name found : String) (names : List String)
      → some name ≡ some found
      → contains (name ∷ names) found ≡ true
  contains-first name found names e =
      let p : (found == name) ≡ true =
        subst (λ x. (found == x) ≡ true) (sym (some-injective name found e)) (==_refl found) in
      rw p

  choose_catalog-Settled :
      (names : List String) (scope : Scope) (w w₁ : W)
      → catalog_names client w₁ ≡ (ok names, w)
      → Settled scope (choose_catalog client names (scope, w))
  unfolding choose_catalog
  choose_catalog-Settled [] scope w w₁ e = decide-Settled none scope w (λ found f. cc)
  choose_catalog-Settled (name ∷ names) scope w w₁ e =
      elim (Bool-cases (is_single (name ∷ names))) [
        | inl single ↦
            subst (λ r. Settled scope r) (sym (if-true (is_single (name ∷ names)) _ _ single))
              (decide-Settled (some name) scope w
                (λ found f. (w₁, w, name ∷ names, e, contains-first name found names f)))
        | inr several ↦
            subst (λ r. Settled scope r) (sym (if-false (is_single (name ∷ names)) _ _ several))
              (after_default-Settled (default_catalog client (name ∷ names) w).0 scope
                (default_catalog client (name ∷ names) w).1
                (λ found f.
                  (w₁, w, name ∷ names, e, default_catalog-listed (name ∷ names) w found f)))
      ]

  after_catalogs-Settled :
      (r : Result (List String)) (scope : Scope) (w w₁ : W)
      → catalog_names client w₁ ≡ (r, w)
      → Settled scope (after_catalogs client r (scope, w))
  unfolding after_catalogs
  after_catalogs-Settled (ok names) scope w w₁ e = choose_catalog-Settled names scope w w₁ e
  after_catalogs-Settled (raised (pep c m k)) scope w w₁ e = refl
  after_catalogs-Settled (raised (foreign x)) scope w w₁ e =
      caught-Settled x transient_metadata_probe_errors scope w

  resolve_catalog-Settled :
      (scope : Scope) (w : W) → Settled scope (resolve_catalog client (scope, w))
  unfolding resolve_catalog
  resolve_catalog-Settled scope w =
      after_catalogs-Settled (catalog_names client w).0 scope (catalog_names client w).1 w refl

  after_schemas-Settled :
      (probe : Probe) (scope : Scope) (w : W)
      → Settled scope (after_schemas client probe (scope, w))
  unfolding after_schemas
  after_schemas-Settled empty scope w = resolve_catalog-Settled scope w
  after_schemas-Settled answers scope w =
      decide-Settled none scope w (λ found f. absurd (none-ne-some found f))
  after_schemas-Settled (failed e) scope w =
      probe_failed-Settled e transient_metadata_probe_errors scope w
  after_schemas-Settled (propagated e) scope w = refl

  -- From any scope and any server: the discovery returns true only with a catalog that GetCatalogs
  -- listed, which is then the cached outcome; it returns false with the scope as it was or the
  -- outcome that there is no catalog; an exception leaves the scope as it was.
  pub catalog_fallback-Settled :
      (unscoped_schemas_empty : Bool) (scope : Scope) (w : W)
      → Settled scope (catalog_fallback client unscoped_schemas_empty (scope, w))
  unfolding catalog_fallback
  catalog_fallback-Settled b scope w =
      elim (Bool-cases (not (is_none scope.catalog) || not (is_none scope.resolved))) [
        | inl decided ↦
            subst (λ r. Settled scope r)
              (sym
                (if-true (not (is_none scope.catalog) || not (is_none scope.resolved)) _ _ decided))
              (inl refl)
        | inr undecided ↦
            subst (λ r. Settled scope r)
              (sym (
                if-false (not (is_none scope.catalog) || not (is_none scope.resolved)) _ _
                  undecided))
              (discover b)
      ]
    where
      discover :
          (b : Bool)
          → Settled scope (
              if b
              then resolve_catalog client (scope, w)
              else (after_schemas client
                  (schemas_probe (schema_names client none w).0)
                  (scope, (schema_names client none w).1)))
      discover true = resolve_catalog-Settled scope w
      discover false =
          after_schemas-Settled (schemas_probe (schema_names client none w).0) scope
            (schema_names client none w).1
