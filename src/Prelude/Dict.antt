-- ===== src/Prelude/Dict.antt =====
-- A `Map` or a plain object keyed by strings, in insertion order: `set` on a key that is there
-- overwrites in place, and on a new key appends.
use Prim.Native.String.{String}
use mathlib.Core.Path.{◌≡◌, refl}
use mathlib.Core.Logic.{◌≢◌}
use mathlib.Core.Bool.{Bool}
use mathlib.Core.Option.{Option, none, some}
use mathlib.Core.List.{List, [], ◌∷◌}
use native.Mathlib.Omega.{arith}
use text.Mathlib.Text.{◌==◌ as str_eq}
use text.Mathlib.TextEquality.{eq_iff}
use dynamic_conversion_servi.Prelude.Tests.{if◌then◌else◌, is_some}

abbrev pub Dict {ℓ} : Type ℓ → Type ℓ
Dict V = List (String × V)

module _ {ℓ} {V : Type ℓ} where
  -- `get`; none stands for `undefined`
  unfoldable pub lookup : String → Dict V → Option V
  lookup key [] = none
  lookup key ((first, held) ∷ rest) = if str_eq first key then some held else lookup key rest

  -- `set`
  unfoldable pub insert : String → V → Dict V → Dict V
  insert key value [] = (key, value) ∷ []
  insert key value ((first, held) ∷ rest) =
      if str_eq first key then (first, value) ∷ rest else (first, held) ∷ insert key value rest

  -- `delete`
  unfoldable pub erase : String → Dict V → Dict V
  erase key [] = []
  erase key ((first, held) ∷ rest) =
      let later = erase key rest in if str_eq first key then later else (first, held) ∷ later

  abbrev pub has : String → Dict V → Bool
  has key dict = is_some (lookup key dict)

  abbrev pub values : Dict V → List V
  values [] = []
  values ((first, held) ∷ rest) = held ∷ values rest

module _ {ℓ} {V : Type ℓ} (key other : String) where
  pub lookup-insert :
      (value : V) (dict : Dict V)
      → lookup other (insert key value dict)
        ≡ (if str_eq key other then some value else lookup other dict)
  unfolding lookup insert
  lookup-insert value [] = refl
  lookup-insert value ((first, held) ∷ rest) =
      ground
        (arith, lookup-insert value rest, eq_iff first other, eq_iff first key, eq_iff key other)

  pub lookup-erase :
      (dict : Dict V)
      → lookup other (erase key dict) ≡ (if str_eq key other then none else lookup other dict)
  unfolding lookup erase
  lookup-erase [] = ground arith
  lookup-erase ((first, held) ∷ rest) =
      ground (arith, lookup-erase rest, eq_iff first other, eq_iff first key, eq_iff key other)

  pub lookup-insert_ne :
      (value : V) (dict : Dict V)
      → key ≢ other
      → lookup other (insert key value dict) ≡ lookup other dict
  lookup-insert_ne value dict differ = ground (arith, eq_iff key other, lookup-insert value dict)

  pub lookup-erase_ne :
      (dict : Dict V) → key ≢ other → lookup other (erase key dict) ≡ lookup other dict
  lookup-erase_ne dict differ = ground (arith, eq_iff key other, lookup-erase dict)

module _ {ℓ} {V : Type ℓ} (key : String) where
  pub lookup-insert_self :
      (value : V) (dict : Dict V) → lookup key (insert key value dict) ≡ some value
  lookup-insert_self value dict = ground (arith, eq_iff key key, lookup-insert key key value dict)

  pub lookup-erase_self : (dict : Dict V) → lookup key (erase key dict) ≡ none
  lookup-erase_self dict = ground (arith, eq_iff key key, lookup-erase key key dict)
