-- ===== src/Redis/Worker/Order.antt =====
-- The order in which `forwardRequests` of packages/redis/src/worker/index.ts takes the workers.
use dynamic_conversion_servi.Prelude.{
  ℕ, ◌≤◌, ◌<◌, ltb, sym, ap, ◌∙◌, ◌↔◌, ◌≡◌, refl, List, [], ◌∷◌, filter, length, ◌==◌, arith, All,
  leb, Bool-cases, inl, inr,
}
use mathlib.Core.Path.{subst}
use dynamic_conversion_servi.Redis.Request.{WorkerInfo}
use dynamic_conversion_servi.Redis.Worker.Forward.{insert_worker, sort_workers}
use dynamic_conversion_servi.Redis.Worker.Safe.{All-insert_worker}

-- By the number of requests, least first.
abbrev pub IsByWorkload : List WorkerInfo → Type 0
IsByWorkload [] = Unit
IsByWorkload (w ∷ ws) = All (λ v. length w.requests ≤ length v.requests) ws × IsByWorkload ws

-- The workers with `n` requests, in their order.
abbrev pub with_workload : ℕ → List WorkerInfo → List WorkerInfo
with_workload n = filter (λ (w : WorkerInfo). length w.requests == n)

All-lower :
    (m n : ℕ) (ws : List WorkerInfo)
    → m ≤ n
    → All (λ (v : WorkerInfo). n ≤ length v.requests) ws
    → All (λ (v : WorkerInfo). m ≤ length v.requests) ws
All-lower m n [] h all = tt
All-lower m n (w ∷ ws) h all = (omega (arith, all.0), All-lower m n ws h all.1)

insert_worker-IsByWorkload :
    (w : WorkerInfo) (ws : List WorkerInfo) → IsByWorkload ws → IsByWorkload (insert_worker w ws)
unfolding insert_worker
insert_worker-IsByWorkload w [] h = (tt, tt)
insert_worker-IsByWorkload w (v ∷ vs) h =
    elim (Bool-cases (leb (length w.requests) (length v.requests))) [
      | inl least ↦ rw least (
          let le : length w.requests ≤ length v.requests = ground (arith, least) in
          ((le, All-lower (length w.requests) (length v.requests) vs le h.0), h))
      | inr more ↦ rw more (
        All-insert_worker (λ (u : WorkerInfo). length v.requests ≤ length u.requests) w vs
            (ground (arith, more)) h.0,
        insert_worker-IsByWorkload w vs h.1,
      )
    ]

with_workload-insert_worker :
    (n : ℕ) (w : WorkerInfo) (ws : List WorkerInfo)
    → with_workload n (insert_worker w ws) ≡ with_workload n (w ∷ ws)
unfolding insert_worker
with_workload-insert_worker n w [] = refl
with_workload-insert_worker n w (v ∷ vs) = ground (arith, with_workload-insert_worker n w vs)

sort_workers-IsByWorkload : (ws : List WorkerInfo) → IsByWorkload (sort_workers ws)
unfolding sort_workers
sort_workers-IsByWorkload [] = tt
sort_workers-IsByWorkload (w ∷ ws) =
    insert_worker-IsByWorkload w (sort_workers ws) (sort_workers-IsByWorkload ws)

with_workload-sort_workers :
    (n : ℕ) (ws : List WorkerInfo) → with_workload n (sort_workers ws) ≡ with_workload n ws
unfolding sort_workers
with_workload-sort_workers n [] = refl
with_workload-sort_workers n (w ∷ ws) =
    ground
      (arith, with_workload-insert_worker n w (sort_workers ws), with_workload-sort_workers n ws)

none_below :
    (n : ℕ) (w : WorkerInfo) (ws : List WorkerInfo)
    → n < length w.requests
    → IsByWorkload (w ∷ ws)
    → with_workload n (w ∷ ws) ≡ []
none_below n w [] h s = ground arith
none_below n w (v ∷ vs) h s = ground (arith, none_below n v vs (omega (arith, s.0.0)) s.1)

-- A list with a class that is not empty does not begin above that class.
first_le :
    (u v : WorkerInfo) (us vs : List WorkerInfo)
    → IsByWorkload (v ∷ vs)
    → with_workload (length u.requests) (u ∷ us) ≡ with_workload (length u.requests) (v ∷ vs)
    → length v.requests ≤ length u.requests
first_le u v us vs s same = elim (Bool-cases (ltb (length u.requests) (length v.requests))) [
  | inl below ↦
      absurd (ground (arith, same, none_below (length u.requests) v vs (ground (arith, below)) s))
  | inr other ↦ ground (arith, other)
]

-- Sorted lists with the same classes are equal.
same_classes :
    (us vs : List WorkerInfo)
    → IsByWorkload us
    → IsByWorkload vs
    → ((n : ℕ) → with_workload n us ≡ with_workload n vs)
    → us ≡ vs
same_classes [] [] s t h = refl
same_classes [] (v ∷ vs) s t h = absurd (ground (arith, h (length v.requests)))
same_classes (u ∷ us) [] s t h = absurd (ground (arith, h (length u.requests)))
same_classes (u ∷ us) (v ∷ vs) s t h =
    let le : length v.requests ≤ length u.requests = first_le u v us vs t (h (length u.requests)) in
    let ge : length u.requests ≤ length v.requests =
      first_le v u vs us s (sym (h (length v.requests))) in
    let heads : u ≡ v = ground (arith, h (length u.requests), le, ge) in
    let tails : us ≡ vs = same_classes us vs s.1 t.1 (λ n. ground (arith, h n, le, ge)) in cc

-- `forwardRequests` orders the workers by the stable sort on their numbers of requests: a list is the
-- sorted one exactly when it goes from the least busy to the busiest worker, and has for every
-- number of requests the same workers in the same order as before.
pub sort_workers_iff :
    (ws us : List WorkerInfo)
    → (us ≡ sort_workers ws)
      ↔ (IsByWorkload us × ((n : ℕ) → with_workload n us ≡ with_workload n ws))
sort_workers_iff ws us = (
  λ e. (
    subst IsByWorkload (sym e) (sort_workers-IsByWorkload ws),
    λ n. ap (with_workload n) e ∙ with_workload-sort_workers n ws,
  ),
  λ (s, h).
      same_classes us (sort_workers ws) s (sort_workers-IsByWorkload ws)
        (λ n. h n ∙ sym (with_workload-sort_workers n ws)),
)
