-- ===== src/Redis/Config/Numbers.antt =====
-- `isStringNumber` of packages/redis/src/config/index.ts, and `parseInt` of a text of decimal digits.
-- The rounding of a number above 2 ^ 53 is left out.
use Prim.Native.Char.{code}
use Prim.Native.String.{String, [], ◌∷◌}
use text.Mathlib.TextLemmas.{nil-append, cons-append}
use native.Mathlib.Nat.{div-add-mod, mod-lt}
use dynamic_conversion_servi.Prelude.{
  ℕ, zero, suc, ◌+◌, ◌-◌, ◌*◌, ◌/◌, ◌%◌, ◌≤◌, ◌<◌, ◌≡◌, refl, ap, ◌∙◌, Bool, true, false, ◌&&◌,
  Option, none, some, arith, leb, ltb, if◌then◌else◌, Bool-cases, inl, inr,
}
use dynamic_conversion_servi.Docker.Names.{concat, is_truthy}

-- `/^\d+$/`, less the length
unfoldable pub all_digits : String → Bool
all_digits [] = true
all_digits (c ∷ s) = leb b'0' (code c) && leb (code c) b'9' && all_digits s

-- `isStringNumber`; `Number` of a text of digits is never `NaN`.
unfoldable pub is_string_number : Option String → Bool
is_string_number none = false
is_string_number (some []) = false
is_string_number (some (c ∷ s)) = all_digits (c ∷ s)

unfoldable pub read_digits : ℕ → String → ℕ
read_digits n [] = n
read_digits n (c ∷ s) = read_digits (n * 10 + (code c - b'0')) s

-- `parseInt`
unfoldable pub parse_int : String → ℕ
parse_int s = read_digits 0 s

-- The decimal text of a number.
abbrev digit_of : ℕ → String
digit_of zero = "0"
digit_of (suc zero) = "1"
digit_of (suc (suc zero)) = "2"
digit_of (suc (suc (suc zero))) = "3"
digit_of (suc (suc (suc (suc zero)))) = "4"
digit_of (suc (suc (suc (suc (suc zero))))) = "5"
digit_of (suc (suc (suc (suc (suc (suc zero)))))) = "6"
digit_of (suc (suc (suc (suc (suc (suc (suc zero))))))) = "7"
digit_of (suc (suc (suc (suc (suc (suc (suc (suc zero)))))))) = "8"
digit_of _ = "9"

unfoldable print_within : ℕ → ℕ → String
print_within zero n = digit_of n
print_within (suc fuel) n =
    let front = print_within fuel (n / 10) in
    if ltb n 10 then digit_of n else concat front (digit_of (n % 10))

-- `${n}` of a natural number
unfoldable pub print : ℕ → String
unfolding print_within
print n = print_within n n

print_example : print 3600 ≡ "3600"
unfolding print
print_example = refl

concat-read : (a : ℕ) (s t : String) → read_digits a (concat s t) ≡ read_digits (read_digits a s) t
unfolding read_digits
concat-read a [] t = ap (read_digits a) (nil-append t)
concat-read a (c ∷ s) t =
    ap (read_digits a) (cons-append c s t) ∙ concat-read (a * 10 + (code c - b'0')) s t

concat-all_digits : (s t : String) → all_digits (concat s t) ≡ (all_digits s && all_digits t)
unfolding all_digits
concat-all_digits [] t = ap all_digits (nil-append t)
concat-all_digits (c ∷ s) t =
    ap all_digits (cons-append c s t) ∙ ground (arith, concat-all_digits s t)

digit-read :
    (a n : ℕ)
    → n < 10
    → (read_digits a (digit_of n) ≡ a * 10 + n) × (all_digits (digit_of n) ≡ true)
unfolding read_digits all_digits
digit-read a zero h = (refl, refl)
digit-read a (suc zero) h = (refl, refl)
digit-read a (suc (suc zero)) h = (refl, refl)
digit-read a (suc (suc (suc zero))) h = (refl, refl)
digit-read a (suc (suc (suc (suc zero)))) h = (refl, refl)
digit-read a (suc (suc (suc (suc (suc zero))))) h = (refl, refl)
digit-read a (suc (suc (suc (suc (suc (suc zero)))))) h = (refl, refl)
digit-read a (suc (suc (suc (suc (suc (suc (suc zero))))))) h = (refl, refl)
digit-read a (suc (suc (suc (suc (suc (suc (suc (suc zero)))))))) h = (refl, refl)
digit-read a (suc (suc (suc (suc (suc (suc (suc (suc (suc zero))))))))) h = (refl, refl)
digit-read a (suc (suc (suc (suc (suc (suc (suc (suc (suc (suc n)))))))))) h =
    absurd (omega (arith, h))

front_le : (n fuel : ℕ) → n ≤ suc fuel → ltb n 10 ≡ false → n / 10 ≤ fuel
front_le n fuel h more = ground arith

print_within-read :
    (fuel n : ℕ)
    → n ≤ fuel
    → (read_digits 0 (print_within fuel n) ≡ n) × (all_digits (print_within fuel n) ≡ true)
unfolding print_within
print_within-read zero n h =
    let (reads, all) = digit-read 0 n (omega (arith, h)) in (omega (arith, reads), all)
print_within-read (suc fuel) n h = elim (Bool-cases (ltb n 10)) [
  | inl single ↦
      let (reads, all) = digit-read 0 n (ground (arith, single)) in
      rw single (omega (arith, reads), all)
  | inr more ↦
      let (front_reads, front_all) = print_within-read fuel (n / 10) (front_le n fuel h more) in
      let (reads, all) = digit-read (n / 10) (n % 10) (mod-lt n (omega arith)) in
      rw more (
        concat-read 0 (print_within fuel (n / 10)) (digit_of (n % 10))
            ∙ ap (λ a. read_digits a (digit_of (n % 10))) front_reads
            ∙ omega (arith, reads, div-add-mod n 10),
        concat-all_digits (print_within fuel (n / 10)) (digit_of (n % 10))
            ∙ ground (arith, front_all, all),
      )
]

-- `parseInt` reads back the decimal text of a number.
pub parse_int-print : (n : ℕ) → parse_int (print n) ≡ n
unfolding parse_int print
parse_int-print n = (print_within-read n n (omega arith)).0

truthy_concat : (s t : String) → is_truthy (some t) ≡ true → is_truthy (some (concat s t)) ≡ true
truthy_concat [] t h = ap (λ u. is_truthy (some u)) (nil-append t) ∙ h
truthy_concat (c ∷ s) t h = ap (λ u. is_truthy (some u)) (cons-append c s t)

truthy_digit : (n : ℕ) → n < 10 → is_truthy (some (digit_of n)) ≡ true
truthy_digit zero h = refl
truthy_digit (suc zero) h = refl
truthy_digit (suc (suc zero)) h = refl
truthy_digit (suc (suc (suc zero))) h = refl
truthy_digit (suc (suc (suc (suc zero)))) h = refl
truthy_digit (suc (suc (suc (suc (suc zero))))) h = refl
truthy_digit (suc (suc (suc (suc (suc (suc zero)))))) h = refl
truthy_digit (suc (suc (suc (suc (suc (suc (suc zero))))))) h = refl
truthy_digit (suc (suc (suc (suc (suc (suc (suc (suc zero)))))))) h = refl
truthy_digit (suc (suc (suc (suc (suc (suc (suc (suc (suc zero))))))))) h = refl
truthy_digit (suc (suc (suc (suc (suc (suc (suc (suc (suc (suc n)))))))))) h = refl

truthy_print_within : (fuel n : ℕ) → n ≤ fuel → is_truthy (some (print_within fuel n)) ≡ true
unfolding print_within
truthy_print_within zero n h = truthy_digit n (omega (arith, h))
truthy_print_within (suc fuel) n h = elim (Bool-cases (ltb n 10)) [
  | inl single ↦ rw single (truthy_digit n (ground (arith, single)))
  | inr more ↦ rw more (
      truthy_concat (print_within fuel (n / 10)) (digit_of (n % 10))
        (truthy_digit (n % 10) (mod-lt n (omega arith))))
]

number_of_digits :
    (s : String)
    → is_truthy (some s) ≡ true
    → all_digits s ≡ true
    → is_string_number (some s) ≡ true
unfolding is_string_number
number_of_digits [] h k = h
number_of_digits (c ∷ s) h k = k

pub is_truthy-print : (n : ℕ) → is_truthy (some (print n)) ≡ true
unfolding print
is_truthy-print n = truthy_print_within n n (omega arith)

pub is_string_number-print : (n : ℕ) → is_string_number (some (print n)) ≡ true
unfolding print
is_string_number-print n =
    number_of_digits (print_within n n) (truthy_print_within n n (omega arith))
      (print_within-read n n (omega arith)).1
