-- ===== src/Effects/Laws.antt =====
-- Inversion of a block that returned.
use flightsql_dbapi.Prelude.{◌≡◌, refl}
use flightsql_dbapi.Errors.{Result, ok, raised}
use flightsql_dbapi.Effects.{Exec, continue}

module _ {ℓ κ μ} {S : Type ℓ} {A : Type κ} {B : Type μ} where
  pub continue-eq-ok :
      (r : Result A × S) (f : A → Exec S B) (b : B) (s' : S)
      → continue r f ≡ (ok b, s')
      → (a : A) × (s : S) × (r ≡ (ok a, s)) × (f a s ≡ (ok b, s'))
  continue-eq-ok (ok a, s) f b s' e = (a, s, refl, e)
  continue-eq-ok (raised x, s) f b s' e = cc
