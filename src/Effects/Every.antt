-- ===== src/Effects/Every.antt =====
-- What holds of a value that a call returns, if it returns one.
use flightsql_dbapi.Errors.{Result, ok, raised}
use flightsql_dbapi.Effects.{Exec, continue}

abbrev pub Every : {A : Type 0} → (A → Type 0) → Result A → Type 0
Every P (ok a) = P a
Every P (raised e) = Unit {0}

pub Every-map :
    {A : Type 0} (P Q : A → Type 0) (r : Result A) → ((a : A) → P a → Q a) → Every P r → Every Q r
Every-map P Q (ok a) f h = f a h
Every-map P Q (raised e) f h = tt

pub Every-continue :
    {A B S : Type 0} (P : A → Type 0) (Q : B → Type 0) (r : Result A × S) (f : A → Exec S B)
    → Every P r.0
    → ((a : A) (s : S) → P a → Every Q (f a s).0)
    → Every Q (continue r f).0
Every-continue P Q (ok a, s) f h k = k a s h
Every-continue P Q (raised e, s) f h k = tt

pub Every-Unit : {A : Type 0} (r : Result A) → Every (λ (_ : A). Unit {0}) r
Every-Unit (ok a) = tt
Every-Unit (raised e) = tt
