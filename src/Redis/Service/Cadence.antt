-- ===== src/Redis/Service/Cadence.antt =====
-- When the loop of `start` of packages/redis/src/service.ts applies the state.
use native.Mathlib.Nat.{div-add-mod, mod-lt, mul-mod_right, mul-le-mul_right, div-eq_of_lt}
use dynamic_conversion_servi.Prelude.{
  ℕ, zero, suc, ◌+◌, ◌-◌, ◌*◌, ◌/◌, ◌%◌, ◌≤◌, ◌<◌, ◌≡◌, refl, true, false, arith,
}
use dynamic_conversion_servi.AutoScaler.Ceil.{ceil_covers}
use dynamic_conversion_servi.AutoScaler.Scale.{finite}
use dynamic_conversion_servi.Redis.Service.Loop.{probes_per_state_apply, should_apply_state}

reaches : (count k : ℕ) → count + (suc k - count % suc k) ≡ suc k * suc (count / suc k)
reaches count k = grind (arith, div-add-mod count (suc k), mod-lt count {m = suc k} (omega arith))

at_multiple :
    (count k : ℕ) → should_apply_state (count + (suc k - count % suc k)) (finite (suc k)) ≡ true
unfolding should_apply_state
at_multiple count k =
    rw (reaches count k) ground (arith, mul-mod_right (suc k) (suc (count / suc k)))

next_apply :
    (count interval b q : ℕ)
    → q ≡ (suc interval + b) / suc b
    → (j : ℕ) × (zero < j)
      × (j * suc b < suc interval + suc b)
      × (should_apply_state (count + j) (finite q) ≡ true)
next_apply count interval b zero h = absurd (grind (arith, ceil_covers (suc interval) b))
next_apply count interval b (suc k) h = (
  suc k - count % suc k,
  omega (arith, mod-lt count {m = suc k} (omega arith)),
  below,
  at_multiple count k,
)
  where
    below : (suc k - count % suc k) * suc b < suc interval + suc b
    below =
        let taken : (suc k - count % suc k) * suc b ≤ suc k * suc b =
          mul-le-mul_right (suc b) (omega arith) in
        grind (arith, taken, h, div-add-mod (suc interval + b) (suc b))

-- With positive intervals, after any number of probes a probe that applies the state is at most
-- one state interval, rounded up to whole probes, ahead.
pub state_is_applied :
    (count interval period : ℕ)
    → zero < interval
    → zero < period
    → (j : ℕ) × (zero < j)
      × (j * period < interval + period)
      × (should_apply_state (count + j) (probes_per_state_apply interval period) ≡ true)
state_is_applied count (suc a) (suc b) h k = next_apply count a b ((suc a + b) / suc b) refl
state_is_applied count zero period h k = absurd (omega (arith, h))
state_is_applied count (suc a) zero h k = absurd (omega (arith, k))

-- When one of the two intervals is 0, no probe ever applies the state.
pub zero_interval_never_applies :
    (count interval period : ℕ)
    → interval * period ≡ 0
    → should_apply_state count (probes_per_state_apply interval period) ≡ false
unfolding should_apply_state
zero_interval_never_applies count interval zero h = refl
zero_interval_never_applies count zero (suc b) h =
    ground (arith, div-eq_of_lt {n = b} {m = suc b} (omega arith))
zero_interval_never_applies count (suc a) (suc b) h = absurd (grind (arith, h))
