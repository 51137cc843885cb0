-- ===== src/AutoScaler/Ceil.antt =====
-- `Math.ceil` of a quotient is the least number whose multiple covers the dividend, so that the
-- tests of `computeContainerScaleAmount` compare products.
use native.Mathlib.Nat.{div-lt_iff_lt-mul, lt-mul-div-succ}
use dynamic_conversion_servi.Prelude.{ℕ, suc, ◌+◌, ◌*◌, ◌/◌, ◌≤◌, ◌<◌, ◌≡◌, ◌↔◌, true, arith}
use dynamic_conversion_servi.AutoScaler.Scale.{ceil_div, lt_quotient, quotient_lt}

pub ceil_covers : (a b : ℕ) → a ≤ suc b * ((a + b) / suc b)
ceil_covers a b = let h = lt-mul-div-succ (a + b) {b = suc b} (omega arith) in grind arith

pub ceil_least : (a b q : ℕ) → a ≤ suc b * q → (a + b) / suc b ≤ q
ceil_least a b q h =
    let k = (div-lt_iff_lt-mul {k = suc b} {x = a + b} {y = suc q} (omega arith)).1 in
    let m : (a + b) / suc b < suc q = k (grind arith) in omega arith

ceil_gt : (n a b : ℕ) → n < (a + b) / suc b → suc b * n < a
ceil_gt n a b h = ground (arith, ceil_least a b n)

ceil_gt_of : (n a b : ℕ) → suc b * n < a → n < (a + b) / suc b
ceil_gt_of n a b h = grind (arith, ceil_covers a b)

-- The rounded quotient exceeds `n` exactly when `n` shares do not cover the dividend.
pub exceeds_iff : (n a b : ℕ) → (lt_quotient n (ceil_div a (suc b)) ≡ true) ↔ (suc b * n < a)
exceeds_iff n a b = (λ h. ceil_gt n a b (ground arith), λ h. ground (arith, ceil_gt_of n a b h))

-- A rounded quotient below `n` means that fewer than `n` shares cover the dividend.
pub falls_short : (n a b : ℕ) → quotient_lt (ceil_div a (suc b)) n ≡ true → a ≤ suc b * n
falls_short n a b h = ground (arith, ceil_gt_of n a b)
