-- ===== src/AutoScaler/Scale.antt =====
-- packages/auto-scaler/src/index.ts: `computeContainerScaleAmount`. The inputs are counts and
-- digit strings, so they are naturals; what is computed from them may be negative.
use dynamic_conversion_servi.Prelude.{
  ℕ, zero, suc, ◌+◌, ◌-◌, ◌*◌, ◌/◌, Bool, ◌&&◌, min, ltb, ◌==◌, if◌then◌else◌,
}
use dynamic_conversion_servi.Prelude.Int.{ℤ, pos, ◌-ℤ◌, max_ℤ}

-- `IComputedScalingResult`
pub record ScalingResult : Type 0 where
  pub remove : ℤ
  pub start : ℤ

-- `Math.ceil(a / b)` of a positive `a`; a zero divisor gives `Infinity`.
pub data Quotient : Type 0 where
  finite : ℕ → Quotient
  infinity : Quotient

abbrev pub ceil_div : ℕ → ℕ → Quotient
ceil_div a zero = infinity
ceil_div a (suc b) = finite ((a + b) / suc b)

-- `Math.min(q, n)`
abbrev pub min_quotient : Quotient → ℕ → ℤ
min_quotient (finite q) n = pos (min q n)
min_quotient infinity n = pos n

abbrev pub lt_quotient : ℕ → Quotient → Bool
lt_quotient n (finite q) = ltb n q
lt_quotient n infinity = Bool.true

abbrev pub quotient_lt : Quotient → ℕ → Bool
quotient_lt (finite q) n = ltb q n
quotient_lt infinity n = Bool.false

-- `start` in the branch of too many pending tasks: the containers for what the running ones do not
-- handle, but no more than the upper threshold leaves room for.
abbrev pub capped_start : Quotient → ℕ → ℕ → ℤ
capped_start (finite q) running max_containers =
    if ltb max_containers (q + running) then pos max_containers -ℤ pos running else pos q
capped_start infinity running max_containers = pos max_containers -ℤ pos running

-- `remove` in the branch of too few pending tasks.
unfoldable pub removable : (running pending tasks min_containers : ℕ) → ℤ
removable running pending tasks min_containers =
    let required : ℤ = max_ℤ (pos pending -ℤ pos (tasks * running)) (pos 0) in
    let remove : ℤ = pos running -ℤ required in
    max_ℤ (pos running -ℤ remove) (pos running -ℤ required -ℤ pos min_containers)

-- The part of the method that is reached with pending requests and running containers.
unfoldable pub scale_busy :
    (running pending tasks max_containers min_containers : ℕ) → ScalingResult
unfolding removable
scale_busy running pending tasks max_containers min_containers =
    let per_container : Quotient = ceil_div pending running in
    if lt_quotient tasks per_container
    then record {
      remove = pos 0;
      start = capped_start (ceil_div (pending - tasks * running) tasks) running max_containers;
    }
    else if quotient_lt per_container tasks
    then record { remove = removable running pending tasks min_containers; start = pos 0 }
    else record { remove = pos 0; start = pos 0 }

-- `computeContainerScaleAmount`
unfoldable pub compute_scale_amount :
    (running pending tasks max_containers min_containers : ℕ) → ScalingResult
unfolding scale_busy
compute_scale_amount running pending tasks max_containers min_containers =
    if pending == 0 && running == 0
    then record { remove = pos 0; start = pos min_containers }
    else if pending == 0
    then if ltb running min_containers
      then record { remove = pos 0; start = pos (min_containers - running) }
      else if ltb min_containers running
      then record { remove = pos (running - min_containers); start = pos 0 }
      else record { remove = pos 0; start = pos 0 }
    else if running == 0
    then record { remove = pos 0; start = min_quotient (ceil_div pending tasks) max_containers }
    else scale_busy running pending tasks max_containers min_containers
