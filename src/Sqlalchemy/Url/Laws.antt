-- ===== src/Sqlalchemy/Url/Laws.antt =====
-- flightsql/sqlalchemy.py, client_from_url: the arguments of the client it makes.
use flightsql_dbapi.Prelude.{
  ℕ, ◌≡◌, refl, sym, ap, ◌∙◌, subst, inl, inr, Bool, true, false, ◌&&◌, ◌||◌, Option, none, some,
  List, [], ◌++◌, ◌==◌, contains, bytes_eq, if◌then◌else◌, Bool-cases, if-false, Option-cases,
}
use mathlib.Core.Bool.{false≢true}
use mathlib.Core.Option.{some-ne-none}
use flightsql_dbapi.Prelude.Dict.{
  Dict, lookup, erase, update, keys, lookup-erase, contains-keys, last_value, lookup-update,
}
use flightsql_dbapi.Prelude.Text.{starts_with}
use flightsql_dbapi.Errors.{Result, ok, raised, ◌>>=◌}
use flightsql_dbapi.Sqlalchemy.Url.{
  Text, Url, ClientArguments, or_blank, feature_prefix, insecure_key, verification_key, token_key,
  both_error, client_arguments, without_options, move_features, required, arguments_of, options_of,
  query_pairs, client_from_url, parse_boolean_query_value,
}
use flightsql_dbapi.Sqlalchemy.Url.Routes.{
  first_of, lookup_metadata-move_features, lookup_features-move_features, other_key,
}

abbrev pub is_option : Text → Bool
is_option key = key == token_key || (key == verification_key || key == insecure_key)

absent_of_contains :
    (key : Text) (d : Dict Text Text) → contains (keys d) key ≡ false → lookup key d ≡ none
absent_of_contains key d h = elim (Option-cases (lookup key d)) [
  | inl missing ↦ missing
  | inr found ↦
      absurd
        (false≢true (sym h ∙ (contains-keys d key).1 (λ e. some-ne-none found.0 (sym found.1 ∙ e))))
]

metadata_of_contained :
    (p c : Bool) (o : Option Text)
    → (c ≡ false → o ≡ none)
    → (if p && c then none else o) ≡ (if p then none else o)
metadata_of_contained true true o h = refl
metadata_of_contained true false o h = h refl
metadata_of_contained false c o h = refl

feature_of_contained :
    (c : Bool) (o : Option Text)
    → (c ≡ false → o ≡ none)
    → (if c then first_of o none else none) ≡ o
feature_of_contained true none h = refl
feature_of_contained true (some v) h = refl
feature_of_contained false o h = sym (h refl)

either_if :
    (a b : Bool) (o : Option Text)
    → (if a then none else (if b then none else o)) ≡ (if a || b then none else o)
either_if true b o = refl
either_if false b o = refl

nested_if :
    (a b c : Bool) (o : Option Text)
    → (if a then none else (if b then none else (if c then none else o)))
      ≡ (if a || (b || c) then none else o)
nested_if true b c o = refl
nested_if false true c o = refl
nested_if false false true o = refl
nested_if false false false o = refl

lookup-without_options :
    (key : Text) (all : Dict Text Text)
    → lookup key (without_options all) ≡ (if is_option key then none else lookup key all)
unfolding without_options
lookup-without_options key all =
    lookup-erase key token_key (erase verification_key (erase insecure_key all))
    ∙ ap (λ o. if key == token_key then none else o)
        (lookup-erase key verification_key (erase insecure_key all)
          ∙ ap (λ o. if key == verification_key then none else o)
              (lookup-erase key insecure_key all))
    ∙ nested_if (key == token_key) (key == verification_key) (key == insecure_key) (lookup key all)

metadata_of : Dict Text Text → Dict Text Text
metadata_of all = (move_features (keys (without_options all)) ([], without_options all)).1

features_of : Dict Text Text → Dict Text Text
features_of all = (move_features (keys (without_options all)) ([], without_options all)).0

lookup-metadata_of :
    (key : Text) (all : Dict Text Text)
    → lookup key (metadata_of all)
      ≡ (if starts_with key feature_prefix || is_option key then none else lookup key all)
unfolding metadata_of
lookup-metadata_of key all =
    lookup_metadata-move_features key (keys (without_options all)) ([], without_options all)
    ∙ metadata_of_contained (starts_with key feature_prefix)
        (contains (keys (without_options all)) key) (lookup key (without_options all))
        (absent_of_contains key (without_options all))
    ∙ ap (λ o. if starts_with key feature_prefix then none else o) (lookup-without_options key all)
    ∙ either_if (starts_with key feature_prefix) (is_option key) (lookup key all)

feature_not_option : (name : Text) → is_option (feature_prefix ++ name) ≡ false
feature_not_option name i =
    other_key name token_key (unfold starts_with in refl) i
    || (other_key name verification_key (unfold starts_with in refl) i
        || other_key name insecure_key (unfold starts_with in refl) i)

lookup-features_of :
    (name : Text) (all : Dict Text Text)
    → lookup name (features_of all) ≡ lookup (feature_prefix ++ name) all
unfolding features_of lookup
lookup-features_of name all =
    lookup_features-move_features name (keys (without_options all)) ([], without_options all)
    ∙ feature_of_contained (contains (keys (without_options all)) (feature_prefix ++ name))
        (lookup (feature_prefix ++ name) (without_options all))
        (absent_of_contains (feature_prefix ++ name) (without_options all))
    ∙ lookup-without_options (feature_prefix ++ name) all
    ∙ ap (λ b. if b then none else lookup (feature_prefix ++ name) all) (feature_not_option name)

abbrev Routed : Dict Text Text → ClientArguments → Type 0
Routed all args =
    (args.metadata ≡ metadata_of all)
    × (args.features ≡ features_of all)
    × (args.token ≡ lookup token_key all)
    × ((args.insecure && args.disable_server_verification) ≡ false)

client_arguments-Routed :
    (url : Url) (all : Dict Text Text) (insecure skip : Bool) (host : Text) (port : ℕ)
    → (insecure && skip) ≡ false
    → Routed all (client_arguments url all insecure skip host port)
unfolding client_arguments metadata_of features_of
client_arguments-Routed url all insecure skip host port h = (refl, refl, refl, h)

returned : (args : ClientArguments) → Result ClientArguments → ClientArguments
returned args (ok a) = a
returned args (raised e) = args

required-Routed :
    (url : Url) (all : Dict Text Text) (insecure skip : Bool) (host : Option Text) (port : Option ℕ)
    (args : ClientArguments)
    → (insecure && skip) ≡ false
    → (required host >>= λ h.
        required port >>= λ p. ok (client_arguments url all insecure skip h p))
      ≡ ok args
    → Routed all args
unfolding returned
required-Routed url all insecure skip none port args flags e = cc
required-Routed url all insecure skip (some h) none args flags e = cc
required-Routed url all insecure skip (some h) (some p) args flags e =
    subst (Routed all) (ap (returned args) e)
      (client_arguments-Routed url all insecure skip h p flags)

arguments_of-Routed :
    (url : Url) (all : Dict Text Text) (insecure skip : Bool) (args : ClientArguments)
    → arguments_of url all insecure skip ≡ ok args
    → Routed all args
unfolding arguments_of
arguments_of-Routed url all insecure skip args e = elim (Bool-cases (insecure && skip)) [
  | inl both ↦ cc
  | inr flags ↦
      required-Routed url all insecure skip url.host url.port args flags
        (sym (if-false (insecure && skip) (raised both_error) _ flags) ∙ e)
]

-- A bind that returns.
bind-Routed :
    {A : Type 0} (all : Dict Text Text) (r : Result A) (f : A → Result ClientArguments)
    (args : ClientArguments)
    → ((a : A) → f a ≡ ok args → Routed all args)
    → (r >>= f) ≡ ok args
    → Routed all args
bind-Routed all (ok a) f args then_ e = then_ a e
bind-Routed all (raised x) f args then_ e = cc

options_of-Routed :
    (url : Url) (all : Dict Text Text) (args : ClientArguments)
    → options_of url all ≡ ok args
    → Routed all args
unfolding options_of
options_of-Routed url all args e =
    bind-Routed all (parse_boolean_query_value (or_blank (lookup insecure_key all))) _ args
      (λ insecure.
        bind-Routed all (parse_boolean_query_value (or_blank (lookup verification_key all))) _ args
          (λ skip. arguments_of-Routed url all insecure skip args))
      e

-- Of the query parameters whose lowered name is `key` the last counts: a client made from the
-- URL carries it as a header under its name, unless it is an option or a feature, as a
-- feature under the rest of its name after the prefix, and as the token for `token`; and it is
-- never both insecure and without verification of the server. So a feature is not sent as a header,
-- where README.md says that every parameter but the three options is.
pub client_from_url-last_value :
    (url : Url) (pairs : List (Text × Text)) (args : ClientArguments) (key : Text)
    → query_pairs url.query ≡ ok pairs
    → client_from_url url ≡ ok args
    → (lookup key args.metadata ≡ (
        if starts_with key feature_prefix || is_option key
        then none
        else last_value key pairs none))
      × (lookup key args.features ≡ last_value (feature_prefix ++ key) pairs none)
      × (args.token ≡ last_value token_key pairs none)
      × ((args.insecure && args.disable_server_verification) ≡ false)
unfolding client_from_url lookup
client_from_url-last_value url pairs args key q e =
    let routed : Routed (update [] pairs) args =
      options_of-Routed url (update [] pairs) args
        (sym (ap (λ r. r >>= λ ps. options_of url (update [] ps)) q) ∙ e) in
    (
      ap (lookup key) routed.0
          ∙ lookup-metadata_of key (update [] pairs)
          ∙ ap (λ o. if starts_with key feature_prefix || is_option key then none else o)
              (lookup-update key [] pairs),
      ap (lookup key) routed.1
          ∙ lookup-features_of key (update [] pairs)
          ∙ lookup-update (feature_prefix ++ key) [] pairs,
      routed.2 ∙ lookup-update token_key [] pairs,
      routed.3,
    )
