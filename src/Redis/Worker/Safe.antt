-- ===== src/Redis/Worker/Safe.antt =====
-- The three loops of one cycle never throw over valid workers, and keep them valid.
use dynamic_conversion_servi.Prelude.{
  ℕ, String, true, List, [], ◌∷◌, ◌≡◌, ◌≤◌, inl, inr, refl, arith, All, length, take, map, eq_iff,
  zero, suc, length-take,
}
use dynamic_conversion_servi.Prelude.Dict.{lookup, has, values}
use dynamic_conversion_servi.Prelude.Hoare.{Ran, Any, Ran-weaken, Runs-bind}
use dynamic_conversion_servi.Redis.Request.{ConversionRequest, WorkerInfo, Workers}
use dynamic_conversion_servi.Redis.Worker.{get_worker_count}
use dynamic_conversion_servi.Redis.Worker.Network.{Network, HandlerState}
use dynamic_conversion_servi.Redis.Worker.Forward.{insert_worker, sort_workers, forward_requests}
use dynamic_conversion_servi.Redis.Worker.Probe.{probe_workers_for_status}
use dynamic_conversion_servi.Redis.Worker.Fetch.{fetch_files, fetch_workers, dropped}
use dynamic_conversion_servi.Prelude.Action.{Result, ok, err}
use dynamic_conversion_servi.Redis.Worker.Valid.{IsValid, IsDispatched}
use dynamic_conversion_servi.Redis.Worker.Cycle.{
  id_of, IsIn, Ready, forward_all-Runs, probe_all-Runs,
}
use dynamic_conversion_servi.Redis.Worker.Collect.{fetch_workers-Runs}

-- The ids of a valid object's workers are its keys.
abbrev ids_of : Workers → List String
ids_of ws = map id_of (values ws)

covers-cons :
    (key : String) (w : WorkerInfo) (ws : Workers) (ids : List String)
    → All (λ id. has id ws ≡ true) ids
    → All (λ id. has id ((key, w) ∷ ws) ≡ true) ids
unfolding lookup
covers-cons key w ws [] h = tt
covers-cons key w ws (id ∷ ids) h = (ground arith, covers-cons key w ws ids h.1)

covers_self : (ws : Workers) → IsValid ws → All (λ id. has id ws ≡ true) (ids_of ws)
unfolding lookup
covers_self [] v = tt
covers_self ((key, w) ∷ ws) v =
    (ground (arith, eq_iff key (id_of w)), covers-cons key w ws (ids_of ws) (covers_self ws v.2))

module _ (P : WorkerInfo → Type 0) where
  pub All-insert_worker :
      (w : WorkerInfo) (ws : List WorkerInfo) → P w → All P ws → All P (insert_worker w ws)
  unfolding insert_worker
  All-insert_worker w [] p h = (p, tt)
  All-insert_worker w (v ∷ vs) p h = ground (arith, All-insert_worker w vs p h.1)

  All-sort_workers : (ws : List WorkerInfo) → All P ws → All P (sort_workers ws)
  unfolding sort_workers
  All-sort_workers [] h = tt
  All-sort_workers (w ∷ ws) h = All-insert_worker w (sort_workers ws) h.0 (All-sort_workers ws h.1)

  All-take : (n : ℕ) (ws : List WorkerInfo) → All P ws → All P (take n ws)
  All-take zero ws h = tt
  All-take (suc n) [] h = tt
  All-take (suc n) (w ∷ ws) h = (h.0, All-take n ws h.1)

length-insert_worker :
    (w : WorkerInfo) (ws : List WorkerInfo) → length (insert_worker w ws) ≡ suc (length ws)
unfolding insert_worker
length-insert_worker w [] = refl
length-insert_worker w (v ∷ vs) = ground (arith, length-insert_worker w vs)

pub length-sort_workers : (ws : List WorkerInfo) → length (sort_workers ws) ≡ length ws
unfolding sort_workers
length-sort_workers [] = refl
length-sort_workers (w ∷ ws) =
    omega (arith, length-insert_worker w (sort_workers ws), length-sort_workers ws)

-- Every worker of the list has an id among the list's.
IsIn-later :
    (id : String) (ids : List String) (ws : List WorkerInfo)
    → All (λ w. IsIn (id_of w) ids) ws
    → All (λ w. IsIn (id_of w) (id ∷ ids)) ws
IsIn-later id ids [] h = tt
IsIn-later id ids (w ∷ ws) h = (inr h.0, IsIn-later id ids ws h.1)

IsIn-values : (ws : List WorkerInfo) → All (λ w. IsIn (id_of w) (map id_of ws)) ws
IsIn-values [] = tt
IsIn-values (w ∷ ws) = (inl refl, IsIn-later (id_of w) (map id_of ws) ws (IsIn-values ws))

-- The same for the entries, and what `fetchFiles` needs of each worker.
IsIn-entries :
    (all : List String) (ws : Workers)
    → All (λ w. IsIn (id_of w) all) (values ws)
    → All (λ e. IsIn (id_of e.1) all) ws
IsIn-entries all [] h = tt
IsIn-entries all ((key, w) ∷ ws) h = (h.0, IsIn-entries all ws h.1)

IsDispatched-workers :
    (all : List String) (ws : Workers)
    → IsValid ws
    → All (λ w. IsIn (id_of w) all) (values ws)
    → All (λ w. IsIn (id_of w) all × All IsDispatched w.requests) (values ws)
IsDispatched-workers all [] v h = tt
IsDispatched-workers all ((key, w) ∷ ws) v h = ((h.0, v.0.1), IsDispatched-workers all ws v.2 h.1)

-- The state of the handler is valid.
abbrev pub IsValidHandler : {W : Type 0} → HandlerState W → Type 0
IsValidHandler s = IsValid s.workers

module _ {W : Type 0} (net : Network W) where
  -- With valid workers, and no more requests than workers, forwarding returns without a throw,
  -- whatever the network answers, and leaves the workers valid.
  pub forward_requests_safe :
      (requests : List ConversionRequest) (s : HandlerState W)
      → IsValidHandler s
      → length requests ≤ get_worker_count s.workers
      → Ran IsValidHandler Any (forward_requests net requests s)
  unfolding forward_requests get_worker_count
  forward_requests_safe requests s v h =
      let ids = ids_of s.workers in
      let ws = sort_workers (values s.workers) in
      Ran-weaken (Ready ids) IsValidHandler Any (λ t r. r.0) _
        (forward_all-Runs ids net (take (length requests) ws) requests
          (All-take (λ w. IsIn (id_of w) ids) (length requests) ws
            (All-sort_workers (λ w. IsIn (id_of w) ids) (values s.workers)
              (IsIn-values (values s.workers))))
          (omega (arith, length-take (length requests) ws, length-sort_workers (values s.workers)))
          s (v, covers_self s.workers v))

  -- With valid workers, asking every worker for the status of its requests returns without a throw,
  -- whatever the network answers, and leaves the workers valid.
  pub probe_safe :
      (s : HandlerState W)
      → IsValidHandler s
      → Ran IsValidHandler Any (probe_workers_for_status net s)
  unfolding probe_workers_for_status
  probe_safe s v =
      let ids = ids_of s.workers in
      Ran-weaken (Ready ids) IsValidHandler Any (λ t r. r.0) _
        (probe_all-Runs ids net s.workers
          (IsIn-entries ids s.workers (IsIn-values (values s.workers))) s
          (v, covers_self s.workers v))

  dropped-Ran :
      {E A : Type 0} (r : Result E A × HandlerState W)
      → Ran IsValidHandler Any r
      → Ran IsValidHandler Any (dropped net r)
  dropped-Ran (ok a, t) h = h
  dropped-Ran (err e, t) h = h

  -- With valid workers, fetching the finished files returns without a throw, whatever the network
  -- answers, and leaves the workers valid.
  pub fetch_files_safe :
      (s : HandlerState W) → IsValidHandler s → Ran IsValidHandler Any (fetch_files net s)
  unfolding fetch_files
  fetch_files_safe s v =
      let ids = ids_of s.workers in
      dropped-Ran _ (
        Ran-weaken (Ready ids) IsValidHandler Any (λ t r. r.0) _
          (Runs-bind (Ready ids) Any Any (fetch_workers net (values s.workers)) _
            (fetch_workers-Runs ids net (values s.workers)
              (IsDispatched-workers ids s.workers v (IsIn-values (values s.workers))))
            (λ _ _ t r. (r, tt)) (record s { finished = [] }) (v, covers_self s.workers v)))
