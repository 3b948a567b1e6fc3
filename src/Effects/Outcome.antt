-- ===== src/Effects/Outcome.antt =====
-- What holds of a part of the state after a call that returned, and after one that raised.
use flightsql_dbapi.Prelude.{◌≡◌, refl, ap}
use flightsql_dbapi.Errors.{Result, ok, raised}
use flightsql_dbapi.Errors.Translate.{translate_errors}
use flightsql_dbapi.Effects.{
  Exec, continue, lift, on_world, translating, using, entering, exiting, exit_result, around, ◌>>=◌,
}

-- `Q` of the viewed part after a return, `E` after a raise.
abbrev pub Outcome :
    {A S C : Type 0} → (S → C) → (C → Type 0) → (C → Type 0) → Result A × S → Type 0
Outcome view Q E (ok a, s) = Q (view s)
Outcome view Q E (raised e, s) = E (view s)

module _ {A B S C : Type 0} (view : S → C) (P Q E : C → Type 0) where
  pub Outcome-bind :
      (m : Exec S A) (f : A → Exec S B) (s : S)
      → Outcome view P E (m s)
      → ((a : A) (s' : S) → m s ≡ (ok a, s') → P (view s') → Outcome view Q E (f a s'))
      → Outcome view Q E ((m >>= f) s)
  Outcome-bind m f s h k = step (m s) refl h
    where
      step : (r : Result A × S) → m s ≡ r → Outcome view P E r → Outcome view Q E (continue r f)
      step (ok a, s') e p = k a s' e p
      step (raised x, s') e p = p

pub Outcome-translating :
    {A S C : Type 0} (view : S → C) (Q E : C → Type 0) (m : Exec S A) (s : S)
    → Outcome view Q E (m s)
    → Outcome view Q E (translating m s)
Outcome-translating {A} {S} view Q E m s h = step (m s) h
  where
    step : (r : Result A × S) → Outcome view Q E r → Outcome view Q E (translate_errors r.0, r.1)
    step (ok a, s') p = unfold translate_errors in p
    step (raised x, s') p = unfold translate_errors in p

-- What runs behind an object leaves the object as it was.
pub Outcome-on_world :
    {A O W : Type 0} (P : O → Type 0) (m : Exec W A) (o : O) (w : W)
    → P o
    → Outcome (λ (s : O × W). s.0) P P (on_world m (o, w))
Outcome-on_world {A} {O} {W} P m o w p = step (m w)
  where
    step : (r : Result A × W) → Outcome (λ (s : O × W). s.0) P P (r.0, (o, r.1))
    step (ok a, w') = p
    step (raised x, w') = p

pub Outcome-around :
    {A S O W : Type 0} (P : O → Type 0) (m : Exec (S × W) A) (s : S) (o : O) (w : W)
    → P o
    → Outcome (λ (t : S × (O × W)). t.1.0) P P (around m (s, (o, w)))
Outcome-around {A} {S} {O} {W} P m s o w p = step (m (s, w))
  where
    step :
        (r : Result A × (S × W))
        → Outcome (λ (t : S × (O × W)). t.1.0) P P (r.0, (r.1.0, (o, r.1.1)))
    step (ok a, sw) = p
    step (raised x, sw) = p

-- A `with` whose exit leaves the object as it was: the exit may turn a return into a raise.
pub Outcome-using :
    {A S O W : Type 0} (P Q E : O → Type 0) (enter : Exec (O × W) S) (body : Exec (S × (O × W)) A)
    (close : Exec (S × W) (Unit {0})) (x : O × W)
    → ((o : O) → Q o → E o)
    → Outcome (λ (s : O × W). s.0) P E (enter x)
    → ((s : S) (y : O × W) → P y.0 → Outcome (λ (t : S × (O × W)). t.1.0) Q E (body (s, y)))
    → Outcome (λ (s : O × W). s.0) Q E (using enter body (around close) x)
Outcome-using {A} {S} {O} {W} P Q E enter body close x weaken entered bodied =
    step (enter x) entered
  where
    leave :
        (r : Result A) (c : Result (Unit {0})) (o : O) (w : W)
        → Outcome (λ (s : O × W). s.0) Q E (r, (o, w))
        → Outcome (λ (s : O × W). s.0) Q E (exit_result r c, (o, w))
    leave r (ok _) o w h = h
    leave (ok a) (raised e) o w h = weaken o h
    leave (raised y) (raised e) o w h = h

    exit :
        (r : Result A × (S × (O × W)))
        → Outcome (λ (t : S × (O × W)). t.1.0) Q E r
        → Outcome (λ (s : O × W). s.0) Q E (exiting (around close) r)
    exit (ok a, (s, (o, w))) h = leave (ok a) (close (s, w)).0 o (close (s, w)).1.1 h
    exit (raised y, (s, (o, w))) h = leave (raised y) (close (s, w)).0 o (close (s, w)).1.1 h

    step :
        (r : Result S × (O × W))
        → Outcome (λ (s : O × W). s.0) P E r
        → Outcome (λ (s : O × W). s.0) Q E (entering body (around close) r)
    step (ok s, y) h = exit (body (s, y)) (bodied s y h)
    step (raised e, y) h = h

pub Outcome-weaken :
    {A S C : Type 0} (view : S → C) (P Q E F : C → Type 0) (r : Result A × S)
    → ((c : C) → P c → Q c)
    → ((c : C) → E c → F c)
    → Outcome view P E r
    → Outcome view Q F r
Outcome-weaken view P Q E F (ok a, s) f g h = f (view s) h
Outcome-weaken view P Q E F (raised x, s) f g h = g (view s) h

pub Outcome-lift :
    {A S C : Type 0} (view : S → C) (P : C → Type 0) (r : Result A) (s : S)
    → P (view s)
    → Outcome view P P (lift r s)
Outcome-lift view P (ok a) s h = h
Outcome-lift view P (raised e) s h = h

-- Once entered, a `with` ends by its exit, on what the body left: the world is the one that the exit
-- left.
pub using-closes :
    {A S O W : Type 0} (enter : Exec (O × W) S) (body : Exec (S × (O × W)) A)
    (close : Exec (S × W) (Unit {0})) (x y : O × W) (s : S)
    → enter x ≡ (ok s, y)
    → (using enter body (around close) x).1.1 ≡ (close ((body (s, y)).1.0, (body (s, y)).1.1.1)).1.1
using-closes enter body close x y s e = ap (λ r. (entering body (around close) r).1.1) e
