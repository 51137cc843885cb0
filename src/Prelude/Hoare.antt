-- ===== src/Prelude/Hoare.antt =====
-- Rules for invariants of an `Action`: `Keeps` says that a call keeps `P` however it ends, and gives
-- `Q` of its value; `Runs` says moreover that it does not throw.
use mathlib.Core.Path.{◌≡◌}
use mathlib.Core.Bool.{Bool, true, false}
use dynamic_conversion_servi.Prelude.Action.{
  Result, ok, err, Action, settle, raise_if, modify, ◌>>=◌,
}

module _ {S E A : Type 0} where
  abbrev pub Kept : (S → Type 0) → (A → Type 0) → Result E A × S → Type 0
  Kept P Q (ok a, t) = P t × Q a
  Kept P Q (err e, t) = P t

  abbrev pub Ran : (S → Type 0) → (A → Type 0) → Result E A × S → Type 0
  Ran P Q (ok a, t) = P t × Q a
  Ran P Q (err e, t) = ⊥

  abbrev pub Keeps : (S → Type 0) → (A → Type 0) → Action S E A → Type 0
  Keeps P Q m = (s : S) → P s → Kept P Q (m s)

  abbrev pub Runs : (S → Type 0) → (A → Type 0) → Action S E A → Type 0
  Runs P Q m = (s : S) → P s → Ran P Q (m s)

-- No claim about the value.
abbrev pub Any : {A : Type 0} → A → Type 0
Any a = Unit

module _ {S E A B : Type 0} (P : S → Type 0) (Q : A → Type 0) (R : B → Type 0) where
  pub Kept-settle :
      (f : A → Action S E B) (r : Result E A × S)
      → Kept P Q r
      → ((a : A) → Q a → Keeps P R (f a))
      → Kept P R (settle f r)
  Kept-settle f (ok a, t) h k = k a h.1 t h.0
  Kept-settle f (err e, t) h k = h

  pub Ran-settle :
      (f : A → Action S E B) (r : Result E A × S)
      → Ran P Q r
      → ((a : A) → Q a → Runs P R (f a))
      → Ran P R (settle f r)
  Ran-settle f (ok a, t) h k = k a h.1 t h.0
  Ran-settle f (err e, t) h k = absurd h

  pub Keeps-bind :
      (m : Action S E A) (f : A → Action S E B)
      → Keeps P Q m
      → ((a : A) → Q a → Keeps P R (f a))
      → Keeps P R (m >>= f)
  Keeps-bind m f h k s p = Kept-settle f (m s) (h s p) k

  pub Runs-bind :
      (m : Action S E A) (f : A → Action S E B)
      → Runs P Q m
      → ((a : A) → Q a → Runs P R (f a))
      → Runs P R (m >>= f)
  Runs-bind m f h k s p = Ran-settle f (m s) (h s p) k

module _ {S E A : Type 0} (P : S → Type 0) (Q : A → Type 0) where
  Kept-weaken : (r : Result E A × S) → Ran P Q r → Kept P Q r
  Kept-weaken (ok a, t) h = h
  Kept-weaken (err e, t) h = absurd h

  pub Keeps-of_Runs : (m : Action S E A) → Runs P Q m → Keeps P Q m
  Keeps-of_Runs m h s p = Kept-weaken (m s) (h s p)

  Kept-state : (r : Result E A × S) → Kept P Q r → P r.1
  Kept-state (ok a, t) h = h.0
  Kept-state (err e, t) h = h

  pub Keeps-state : (m : Action S E A) → Keeps P Q m → (s : S) → P s → P (m s).1
  Keeps-state m h s p = Kept-state (m s) (h s p)

  pub Ran-state : (r : Result E A × S) → Ran P Q r → P r.1
  Ran-state (ok a, t) h = h.0
  Ran-state (err e, t) h = absurd h

  pub Runs-state : (m : Action S E A) → Runs P Q m → (s : S) → P s → P (m s).1
  Runs-state m h s p = Ran-state (m s) (h s p)

module _ {S E : Type 0} (P : S → Type 0) where
  pub raise_if-Keeps : (c : Bool) (e : E) → Keeps P Any (raise_if {S = S} c e)
  raise_if-Keeps true e s p = p
  raise_if-Keeps false e s p = (p, tt)

module _ {S : Type 0} (E : Type 0) (P : S → Type 0) where
  pub modify-Keeps : (f : S → S) → ((s : S) → P s → P (f s)) → Keeps P Any (modify {E = E} f)
  modify-Keeps f h s p = (h s p, tt)

  pub modify-Runs : (f : S → S) → ((s : S) → P s → P (f s)) → Runs P Any (modify {E = E} f)
  modify-Runs f h s p = (h s p, tt)

module _ {S E : Type 0} (P : S → Type 0) where
  pub raise_if-Runs : (c : Bool) (e : E) → c ≡ false → Runs P Any (raise_if {S = S} c e)
  raise_if-Runs c e h s p = at_test c h
    where
      at_test : (b : Bool) → b ≡ false → Ran P Any (raise_if {S = S} b e s)
      at_test true k = cc
      at_test false k = (p, tt)

module _ {S E A : Type 0} (P P' : S → Type 0) (Q : A → Type 0) (weaken : (s : S) → P s → P' s) where
  pub Ran-weaken : (r : Result E A × S) → Ran P Q r → Ran P' Q r
  Ran-weaken (ok a, t) h = (weaken t h.0, h.1)
  Ran-weaken (err e, t) h = h

  pub Kept-weaken_state : (r : Result E A × S) → Kept P Q r → Kept P' Q r
  Kept-weaken_state (ok a, t) h = (weaken t h.0, h.1)
  Kept-weaken_state (err e, t) h = weaken t h
