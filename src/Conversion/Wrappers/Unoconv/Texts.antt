-- ===== src/Conversion/Wrappers/Unoconv/Texts.antt =====
-- Searching and trimming a text that is put together from parts.
use Prim.Native.Char.{Char, code}
use Prim.Native.String.{[], ◌∷◌}
use text.Mathlib.TextLemmas.{nil-append, cons-append}
use dynamic_conversion_servi.Prelude.{
  ℕ, zero, suc, ◌==◌, String, Bool, true, false, ◌||◌, Option, none, some, ◌≡◌, refl, ap, ◌∙◌, sym,
  arith, List,
}
use dynamic_conversion_servi.Prelude as Prelude
use dynamic_conversion_servi.Docker.Names.{concat}
use dynamic_conversion_servi.Conversion.Configuration.{split, trim_end}
use dynamic_conversion_servi.Conversion.Wrappers.Unoconv.Lines.{before_last, after_first, trim}

abbrev pub has_code : ℕ → String → Bool
has_code sep [] = false
has_code sep (c ∷ s) = code c == sep || has_code sep s

abbrev pub spaces : ℕ → String
spaces zero = []
spaces (suc n) = " " ∷ spaces n

module _ (sep : ℕ) where
  pub has_code-concat :
      (a s : String) → has_code sep a ≡ false → has_code sep (concat a s) ≡ has_code sep s
  has_code-concat [] s h = ap (has_code sep) (nil-append s)
  has_code-concat (c ∷ a) s h =
      ap (has_code sep) (cons-append c a s) ∙ ground (arith, has_code-concat a s)

  pub before_last_absent : (s : String) → has_code sep s ≡ false → before_last sep s ≡ none
  unfolding before_last
  before_last_absent [] h = refl
  before_last_absent (c ∷ s) h = ground (arith, before_last_absent s)

  -- What is in front of the last separator, when a text comes first.
  pub before_last-concat :
      (a s front : String)
      → before_last sep s ≡ some front
      → before_last sep (concat a s) ≡ some (concat a front)
  unfolding before_last
  before_last-concat [] s front h =
      ap (before_last sep) (nil-append s) ∙ h ∙ ap some (sym (nil-append front))
  before_last-concat (c ∷ a) s front h =
      ap (before_last sep) (cons-append c a s)
      ∙ rw (before_last-concat a s front h) (ap some (sym (cons-append c a front)))

  pub after_first-concat :
      (a s : String) → has_code sep a ≡ false → after_first sep (concat a s) ≡ after_first sep s
  unfolding after_first
  after_first-concat [] s h = ap (after_first sep) (nil-append s)
  after_first-concat (c ∷ a) s h =
      ap (after_first sep) (cons-append c a s) ∙ ground (arith, after_first-concat a s)

  pub split-concat :
      (a : String) (c : Char) (s : String)
      → has_code sep a ≡ false
      → code c ≡ sep
      → split sep (concat a (c ∷ s)) ≡ Prelude.◌∷◌ a (split sep s)
  unfolding split
  split-concat [] c s h e = ap (split sep) (nil-append (c ∷ s)) ∙ ground arith
  split-concat (b ∷ a) c s h e =
      ap (split sep) (cons-append b a (c ∷ s)) ∙ ground (arith, split-concat a c s)

trim_end-spaces : (n : ℕ) → trim_end (spaces n) ≡ []
unfolding trim_end
trim_end-spaces zero = refl
trim_end-spaces (suc n) = rw (trim_end-spaces n) refl

pub trim_end-concat : (s : String) (n : ℕ) → trim_end (concat s (spaces n)) ≡ trim_end s
unfolding trim_end
trim_end-concat [] n = ap trim_end (nil-append (spaces n)) ∙ trim_end-spaces n
trim_end-concat (c ∷ s) n = ap trim_end (cons-append c s (spaces n)) ∙ rw (trim_end-concat s n) refl

pub trim_end_idem : (s : String) → trim_end (trim_end s) ≡ trim_end s
unfolding trim_end
trim_end_idem [] = refl
trim_end_idem (c ∷ s) = ground (arith, trim_end_idem s)

trim-spaces : (n : ℕ) → trim (spaces n) ≡ []
unfolding trim
trim-spaces zero = refl
trim-spaces (suc n) = trim-spaces n

-- Spaces behind a text are trimmed off.
pub trim-concat : (s : String) (n : ℕ) → trim (concat s (spaces n)) ≡ trim s
unfolding trim
trim-concat [] n = ap trim (nil-append (spaces n)) ∙ trim-spaces n
trim-concat (c ∷ s) n =
    ap trim (cons-append c s (spaces n))
    ∙ ground (
      arith,
      trim-concat s n,
      ap trim_end (cons-append c s (spaces n)),
      trim_end-concat (c ∷ s) n,
    )

-- Spaces in front are trimmed off.
pub trim_behind_space : (s : String) → trim (" " ∷ s) ≡ trim s
unfolding trim
trim_behind_space s = refl
