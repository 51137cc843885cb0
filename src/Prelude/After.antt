-- ===== src/Prelude/After.antt =====
-- Triples for an `Action`: `After F Q` says of a run that it ends in a state and value of `Q`, or
-- throws in a state of `F`. `Q` speaks of the value and the state together.
use dynamic_conversion_servi.Prelude.Action.{Result, ok, err, Action, settle, ◌>>=◌}

module _ {S E A : Type 0} where
  abbrev pub After : (S → Type 0) → (A → S → Type 0) → Result E A × S → Type 0
  After F Q (ok a, t) = Q a t
  After F Q (err e, t) = F t

-- A claim about the state alone, whatever the value.
abbrev pub State : {S A : Type 0} → (S → Type 0) → A → S → Type 0
State F a t = F t

-- The run ends in `F`, by a value or by a throw.
abbrev pub Holds : {S E A : Type 0} → (S → Type 0) → Result E A × S → Type 0
Holds F = After F (State F)

module _ {S E A B : Type 0} (F : S → Type 0) (Q : A → S → Type 0) (R : B → S → Type 0) where
  After-settle :
      (f : A → Action S E B) (r : Result E A × S)
      → After F Q r
      → ((a : A) (t : S) → Q a t → After F R (f a t))
      → After F R (settle f r)
  After-settle f (ok a, t) h k = k a t h
  After-settle f (err e, t) h k = h

  pub After-bind :
      (m : Action S E A) (f : A → Action S E B) (s : S)
      → After F Q (m s)
      → ((a : A) (t : S) → Q a t → After F R (f a t))
      → After F R ((m >>= f) s)
  After-bind m f s h k = After-settle f (m s) h k

module _ {S E A : Type 0} (F : S → Type 0) where
  -- The state at the end.
  pub Holds-state : (r : Result E A × S) → Holds F r → F r.1
  Holds-state (ok a, t) h = h
  Holds-state (err e, t) h = h

  pub Holds-of_state : (r : Result E A × S) → F r.1 → Holds F r
  Holds-of_state (ok a, t) h = h
  Holds-of_state (err e, t) h = h

module _ {S E A : Type 0} (F : S → Type 0) (Q Q' : A → S → Type 0) where
  pub After-weaken :
      (r : Result E A × S) → After F Q r → ((a : A) (t : S) → Q a t → Q' a t) → After F Q' r
  After-weaken (ok a, t) h k = k a t h
  After-weaken (err e, t) h k = h
