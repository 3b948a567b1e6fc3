-- ===== src/Effects.antt =====
-- Methods that change an object and may raise. What was written before a raise stays written, so
-- the state comes back beside the error too.
pub mod Laws
pub mod Outcome
pub mod Every
use flightsql_dbapi.Prelude.{Bool, true, false, String}
use flightsql_dbapi.Errors.{Exn, Result, ok, raised}
use flightsql_dbapi.Errors.Translate.{translate_errors, already_closed}

abbrev pub Exec {ℓ κ} : Type ℓ → Type κ → Type (ℓ ⊔ κ)
Exec S A = S → Result A × S

module _ {ℓ κ} {S : Type ℓ} {A : Type κ} where
  abbrev pub pure : A → Exec S A
  pure a s = (ok a, s)

  abbrev pub raise : Exn → Exec S A
  raise e s = (raised e, s)

  abbrev pub lift : Result A → Exec S A
  lift r s = (r, s)

module _ {ℓ κ μ} {S : Type ℓ} {A : Type κ} {B : Type μ} where
  abbrev pub continue : Result A × S → (A → Exec S B) → Result B × S
  continue (ok a, s) f = f a s
  continue (raised e, s) f = (raised e, s)

  infixl 5 ◌>>=◌ ◌>>◌
  abbrev pub ◌>>=◌ : Exec S A → (A → Exec S B) → Exec S B
  ◌>>=◌ m f s = continue (m s) f

  abbrev pub ◌>>◌ : Exec S A → Exec S B → Exec S B
  m >> n = m >>= λ _. n

module _ {ℓ κ} {S : Type ℓ} {A : Type κ} where
  -- `@translate_errors`
  abbrev pub translating : Exec S A → Exec S A
  translating m s = let (r, s') = m s in (translate_errors r, s')

  -- `@check_closed` on a method of a class of that name.
  abbrev pub check_closed : (S → Bool) → String → Exec S A → Exec S A
  check_closed closed class_name m s = guarded (closed s)
    where
      guarded : Bool → Result A × S
      guarded true = (raised (already_closed class_name), s)
      guarded false = m s

  -- An action on what lies behind an object, run beside the object.
  abbrev pub on_world {μ} : {O : Type μ} → Exec S A → Exec (O × S) A
  on_world m (o, s) = let (r, s') = m s in (r, (o, s'))

  -- `try: m except Exception as error: handler(error)`.
  abbrev pub catching : Exec S A → (Exn → Exec S A) → Exec S A
  catching m handler s = handle (m s)
    where
      handle : Result A × S → Result A × S
      handle (ok a, s') = (ok a, s')
      handle (raised e, s') = handler e s'

abbrev pub exit_result {ℓ} : {A : Type ℓ} → Result A → Result (Unit {0}) → Result A
exit_result r (ok _) = r
exit_result r (raised e) = raised e

module _ {ℓ κ μ} {X : Type ℓ} {S : Type κ} {A : Type μ} where
  abbrev pub exiting : Exec (S × X) (Unit {0}) → Result A × (S × X) → Result A × X
  exiting close (r, s) = let (c, (_, x)) = close s in (exit_result r c, x)

  abbrev pub entering : Exec (S × X) A → Exec (S × X) (Unit {0}) → Result S × X → Result A × X
  entering body close (raised e, x) = (raised e, x)
  entering body close (ok s, x) = exiting close (body (s, x))

  -- `with enter as s: body`, whose exit closes `s` also after an exception, and whose own
  -- exception takes the place of that one.
  abbrev pub using : Exec X S → Exec (S × X) A → Exec (S × X) (Unit {0}) → Exec X A
  using enter body close x = entering body close (enter x)

-- An action on `s` and the world, run where an object lies between them.
abbrev pub around {ℓ κ μ ν} :
    {S : Type ℓ} {O : Type κ} {W : Type μ} {A : Type ν} → Exec (S × W) A → Exec (S × (O × W)) A
around m (s, (o, w)) = let (r, (s', w')) = m (s, w) in (r, (s', (o, w')))
