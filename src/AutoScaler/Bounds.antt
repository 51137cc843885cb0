-- ===== src/AutoScaler/Bounds.antt =====
-- What `computeContainerScaleAmount` guarantees: limits, sufficiency, and what it removes.
use dynamic_conversion_servi.Prelude.{
  ℕ, zero, suc, ◌+◌, ◌-◌, ◌*◌, ◌≤◌, ◌<◌, ◌≡◌, ◌⊎◌, inl, inr, arith, refl, true, Bool-cases, ltb,
  ◌∙◌, ◌/◌,
}
use dynamic_conversion_servi.Prelude.Int.{ℤ, pos, ◌+ℤ◌, ◌-ℤ◌, ◌≤ℤ◌}
use dynamic_conversion_servi.AutoScaler.Scale.{
  ScalingResult, ceil_div, quotient_lt, capped_start, min_quotient, removable, scale_busy,
  compute_scale_amount,
}
use dynamic_conversion_servi.AutoScaler.Ceil.{exceeds_iff, falls_short, ceil_covers}

-- With running containers and fewer tasks than the threshold, no container counts as required.
removable_lem :
    (running pending tasks min_containers : ℕ)
    → pending ≤ running * tasks
    → removable running pending tasks min_containers ≡ pos (running - min_containers)
unfolding removable ◌-ℤ◌
removable_lem running pending tasks min_containers h = ground arith

-- The branch with running containers and pending requests: its two tests compare products.
scale_busy_up :
    (r pending tasks max_containers min_containers : ℕ)
    → suc r * tasks < pending
    → scale_busy (suc r) pending tasks max_containers min_containers ≡ record {
      remove = pos 0;
      start = capped_start (ceil_div (pending - tasks * suc r) tasks) (suc r) max_containers;
    }
unfolding scale_busy
scale_busy_up r pending tasks max_containers min_containers h =
    rw ((exceeds_iff tasks pending r).1 h)

scale_busy_keep :
    (r pending tasks max_containers min_containers : ℕ)
    → pending ≤ suc r * tasks
    → let s = scale_busy (suc r) pending tasks max_containers min_containers in
      (s.start ≡ pos 0) × ((s.remove ≡ pos 0) ⊎ (s.remove ≡ pos (suc r - min_containers)))
unfolding scale_busy
scale_busy_keep r pending tasks max_containers min_containers h =
    ground
      (arith, exceeds_iff tasks pending r, removable_lem (suc r) pending tasks min_containers h)

scale_busy_down :
    (r pending tasks max_containers min_containers : ℕ)
    → quotient_lt (ceil_div pending (suc r)) tasks ≡ true
    → scale_busy (suc r) pending tasks max_containers min_containers
      ≡ record { remove = pos (suc r - min_containers); start = pos 0 }
unfolding scale_busy
scale_busy_down r pending tasks max_containers min_containers h = ground (
  arith,
  exceeds_iff tasks pending r,
  falls_short tasks pending r h,
  removable_lem (suc r) pending tasks min_containers,
)

capped_start_limit :
    (pending tasks running max_containers : ℕ)
    → running ≤ max_containers
    → let s = capped_start (ceil_div pending tasks) running max_containers in
      (pos 0 ≤ℤ s) × (pos running +ℤ s ≤ℤ pos max_containers)
unfolding ◌-ℤ◌ ◌+ℤ◌
capped_start_limit pending zero running max_containers h = ground arith
capped_start_limit pending (suc t) running max_containers h = ground arith

first_covers :
    (pending tasks max_containers : ℕ)
    → 0 < tasks
    → let s = min_quotient (ceil_div pending tasks) max_containers in
      (pos 0 +ℤ s ≡ pos max_containers) ⊎ ((n : ℕ) × (s ≡ pos n) × (pending ≤ tasks * (0 + n)))
unfolding ◌+ℤ◌
first_covers pending zero max_containers p = elim p [ ]
first_covers pending (suc t) max_containers p =
    elim (Bool-cases (ltb max_containers ((pending + t) / suc t))) [
      | inl over ↦ inl (ground arith)
      | inr fits ↦ inr ((pending + t) / suc t, ground arith, omega (arith, ceil_covers pending t))
    ]

capped_start_covers :
    (pending tasks running max_containers : ℕ)
    → 0 < tasks
    → running ≤ max_containers
    → let s = capped_start (ceil_div pending tasks) running max_containers in
      (pos running +ℤ s ≡ pos max_containers) ⊎ ((n : ℕ) × (s ≡ pos n) × (pending ≤ tasks * n))
unfolding ◌-ℤ◌ ◌+ℤ◌
capped_start_covers pending zero running max_containers p h = elim p [ ]
capped_start_covers pending (suc t) running max_containers p h =
    elim (Bool-cases (ltb max_containers ((pending + t) / suc t + running))) [
      | inl over ↦ inl (ground arith)
      | inr fits ↦ inr ((pending + t) / suc t, rw fits refl, ceil_covers pending t)
    ]

-- The two ways through the busy branch.
busy_cases : (r pending tasks : ℕ) → (suc r * tasks < pending) ⊎ (pending ≤ suc r * tasks)
busy_cases r pending tasks = omega arith

abbrev pub IsWithinLimits : (running max_containers : ℕ) → ScalingResult → Type 0
IsWithinLimits running max_containers s =
    (pos 0 ≤ℤ s.start)
    × (pos running +ℤ s.start ≤ℤ pos max_containers)
    × (pos 0 ≤ℤ s.remove)
    × (s.remove ≤ℤ pos running)

scale_busy-IsWithinLimits :
    (r pending tasks max_containers min_containers : ℕ)
    → suc r ≤ max_containers
    → IsWithinLimits
        (suc r)
        max_containers
        (scale_busy (suc r) pending tasks max_containers min_containers)
unfolding ◌+ℤ◌
scale_busy-IsWithinLimits r pending tasks max_containers min_containers h =
    elim (busy_cases r pending tasks) [
      | inl up ↦
          let c = capped_start_limit (pending - tasks * suc r) tasks (suc r) max_containers h in
          rw (scale_busy_up r pending tasks max_containers min_containers up)
            (c.0, c.1, omega arith, omega arith)
      | inr keep ↦
          ground (arith, scale_busy_keep r pending tasks max_containers min_containers keep)
    ]

-- The two branches with pending requests.
scale_idle_workers :
    (p tasks max_containers min_containers : ℕ)
    → compute_scale_amount 0 (suc p) tasks max_containers min_containers
      ≡ record { remove = pos 0; start = min_quotient (ceil_div (suc p) tasks) max_containers }
unfolding compute_scale_amount
scale_idle_workers p tasks max_containers min_containers = ground arith

scale_pending :
    (r p tasks max_containers min_containers : ℕ)
    → compute_scale_amount (suc r) (suc p) tasks max_containers min_containers
      ≡ scale_busy (suc r) (suc p) tasks max_containers min_containers
unfolding compute_scale_amount
scale_pending r p tasks max_containers min_containers = ground arith

min_quotient-IsWithinLimits :
    (p tasks max_containers : ℕ)
    → IsWithinLimits 0 max_containers
        (record { remove = pos 0; start = min_quotient (ceil_div p tasks) max_containers })
unfolding ◌+ℤ◌
min_quotient-IsWithinLimits p zero max_containers = ground arith
min_quotient-IsWithinLimits p (suc t) max_containers = ground arith

-- With no more containers running than the maximum, and a minimum that does not exceed it: the
-- amounts to start and to remove are not negative, starting does not pass the maximum, and no
-- more are removed than run.
pub scale_limits :
    (running pending tasks max_containers min_containers : ℕ)
    → running ≤ max_containers
    → min_containers ≤ max_containers
    → IsWithinLimits running max_containers
        (compute_scale_amount running pending tasks max_containers min_containers)
unfolding ◌+ℤ◌ compute_scale_amount
scale_limits running zero tasks max_containers min_containers h k = ground arith
scale_limits zero (suc p) tasks max_containers min_containers h k =
    rw (scale_idle_workers p tasks max_containers min_containers)
      (min_quotient-IsWithinLimits (suc p) tasks max_containers)
scale_limits (suc r) (suc p) tasks max_containers min_containers h k =
    rw (scale_pending r p tasks max_containers min_containers)
      (scale_busy-IsWithinLimits r (suc p) tasks max_containers min_containers h)

-- With no more containers running than the maximum, pending requests beyond what the running containers
-- take, and a positive number of tasks per container: either the started containers bring the total to the maximum, or running and
-- started containers together take all pending requests.
pub scale_suffices :
    (running pending tasks max_containers min_containers : ℕ)
    → 0 < tasks
    → running ≤ max_containers
    → running * tasks < pending
    → let s = compute_scale_amount running pending tasks max_containers min_containers in
      (pos running +ℤ s.start ≡ pos max_containers)
      ⊎ ((n : ℕ) × (s.start ≡ pos n) × (pending ≤ tasks * (running + n)))
scale_suffices running zero tasks max_containers min_containers t h p = absurd (omega arith)
scale_suffices zero (suc p) tasks max_containers min_containers t h more =
    rw (scale_idle_workers p tasks max_containers min_containers)
      (first_covers (suc p) tasks max_containers t)
scale_suffices (suc r) (suc p) tasks max_containers min_containers t h more =
    rw (scale_pending r p tasks max_containers min_containers) (
      rw (scale_busy_up r (suc p) tasks max_containers min_containers more)
        (extend (capped_start_covers (suc p - tasks * suc r) tasks (suc r) max_containers t h)))
  where
    extend :
        {z : ℤ}
        → (pos (suc r) +ℤ z ≡ pos max_containers)
          ⊎ ((n : ℕ) × (z ≡ pos n) × (suc p - tasks * suc r ≤ tasks * n))
        → (pos (suc r) +ℤ z ≡ pos max_containers)
          ⊎ ((n : ℕ) × (z ≡ pos n) × (suc p ≤ tasks * (suc r + n)))
    extend (inl full) = inl full
    extend (inr (n, e, c)) = inr (n, e, omega arith)

-- With pending requests, and fewer of them for each running container than a container takes
-- (rounded up): all running containers above the minimum are to be removed, whatever the number
-- of pending requests.
pub scale_removes_to_minimum :
    (running pending tasks max_containers min_containers : ℕ)
    → 0 < pending
    → 0 < running
    → quotient_lt (ceil_div pending running) tasks ≡ true
    → compute_scale_amount running pending tasks max_containers min_containers
      ≡ record { remove = pos (running - min_containers); start = pos 0 }
scale_removes_to_minimum zero pending tasks max_containers min_containers p r h = elim r [ ]
scale_removes_to_minimum (suc r) zero tasks max_containers min_containers p s h = elim p [ ]
scale_removes_to_minimum (suc r) (suc p) tasks max_containers min_containers q s h =
    scale_pending r p tasks max_containers min_containers
    ∙ scale_busy_down r (suc p) tasks max_containers min_containers h

-- For all inputs, the amount to start or the amount to remove is 0.
pub scale_exclusive :
    (running pending tasks max_containers min_containers : ℕ)
    → let s = compute_scale_amount running pending tasks max_containers min_containers in
      (s.start ≡ pos 0) ⊎ (s.remove ≡ pos 0)
unfolding compute_scale_amount
scale_exclusive running pending tasks max_containers min_containers = ground arith
