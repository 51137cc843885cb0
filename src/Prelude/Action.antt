-- ===== src/Prelude/Action.antt =====
-- Code that changes a state `S` and may throw an `E`. The state comes back after a throw too,
-- since what was written stays written.
use mathlib.Core.Logic.{◌≢◌}
use mathlib.Core.Bool.{Bool}
use mathlib.Core.Option.{Option, none, some}
use dynamic_conversion_servi.Prelude.Tests.{if◌then◌else◌}

pub data Result (E A : Type 0) : Type 0 where
  ok : A → Result E A
  err : E → Result E A

abbrev pub Action : Type 0 → Type 0 → Type 0 → Type 0
Action S E A = S → Result E A × S

module _ {S E A : Type 0} where
  abbrev pub pure : A → Action S E A
  pure a s = (ok a, s)

  -- `throw`
  abbrev pub raise : E → Action S E A
  raise e s = (err e, s)

  abbrev pub gets : (S → A) → Action S E A
  gets f s = (ok (f s), s)

  abbrev pub or_raise : Option A → E → Action S E A
  or_raise none e = raise e
  or_raise (some a) _ = pure a

module _ {S E : Type 0} where
  abbrev pub modify : (S → S) → Action S E (Unit {0})
  modify f s = (ok tt, f s)

  abbrev pub raise_if : Bool → E → Action S E (Unit {0})
  raise_if c e s = (if c then err e else ok tt, s)

-- `await`: go on with the value, or pass the throw on.
abbrev pub settle : {S E A B : Type 0} → (A → Action S E B) → Result E A × S → Result E B × S
settle f (ok a, s) = f a s
settle f (err e, s) = (err e, s)

infixl 5 ◌>>=◌ ◌>>◌
abbrev pub ◌>>=◌ : {S E A B : Type 0} → Action S E A → (A → Action S E B) → Action S E B
◌>>=◌ m f s = settle f (m s)

abbrev pub ◌>>◌ : {S E A B : Type 0} → Action S E A → Action S E B → Action S E B
m >> k = m >>= λ _. k

-- What holds of the value that a call returns, if it returns.
abbrev pub Ensures : {S E A : Type 0} → (A → Type 0) → Result E A × S → Type 0
Ensures P (ok a, s) = P a
Ensures P (err e, s) = Unit

module _ {S E A B : Type 0} where
  Ensures-settle :
      (P : A → Type 0) (Q : B → Type 0) (f : A → Action S E B) (r : Result E A × S)
      → Ensures P r
      → ((a : A) (t : S) → P a → Ensures Q (f a t))
      → Ensures Q (settle f r)
  Ensures-settle P Q f (ok a, t) h k = k a t h
  Ensures-settle P Q f (err e, t) h k = tt

  -- The rule for a step whose value matters, and for one whose value does not.
  pub Ensures-bind :
      (P : A → Type 0) (Q : B → Type 0) (m : Action S E A) (f : A → Action S E B) (s : S)
      → Ensures P (m s)
      → ((a : A) (t : S) → P a → Ensures Q (f a t))
      → Ensures Q ((m >>= f) s)
  Ensures-bind P Q m f s = Ensures-settle P Q f (m s)

  Ensures-any :
      (Q : B → Type 0) (f : A → Action S E B) (r : Result E A × S)
      → ((a : A) (t : S) → Ensures Q (f a t))
      → Ensures Q (settle f r)
  Ensures-any Q f (ok a, t) k = k a t
  Ensures-any Q f (err e, t) k = tt

  pub Ensures-last :
      (Q : B → Type 0) (m : Action S E A) (f : A → Action S E B) (s : S)
      → ((a : A) (t : S) → Ensures Q (f a t))
      → Ensures Q ((m >>= f) s)
  Ensures-last Q m f s = Ensures-any Q f (m s)

-- A call does not throw this error.
abbrev pub Avoids : {S E A : Type 0} → E → Result E A × S → Type 0
Avoids e r = r.0 ≢ err e

module _ {S E A B : Type 0} where
  Avoids-settle :
      (e : E) (f : A → Action S E B) (r : Result E A × S)
      → Avoids e r
      → ((a : A) (t : S) → Avoids e (f a t))
      → Avoids e (settle f r)
  Avoids-settle e f (ok a, t) h k = k a t
  Avoids-settle e f (err d, t) h k = λ same. h (cc)

  pub Avoids-bind :
      (e : E) (m : Action S E A) (f : A → Action S E B) (s : S)
      → Avoids e (m s)
      → ((a : A) (t : S) → Avoids e (f a t))
      → Avoids e ((m >>= f) s)
  Avoids-bind e m f s = Avoids-settle e f (m s)
