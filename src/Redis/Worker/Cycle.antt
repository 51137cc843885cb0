-- ===== src/Redis/Worker/Cycle.antt =====
-- The loops of `WorkerHandler` over valid workers: none of them throws, whatever the network
-- answers, and the workers stay valid.
use mathlib.Core.Path.{subst}
use dynamic_conversion_servi.Prelude.{
  ℕ, zero, suc, String, Bool, true, false, Option, none, some, List, [], ◌∷◌, ◌≡◌, ◌≤◌, refl, arith,
  All, ◌⊎◌, length, get_elem?, inl, inr,
}
use dynamic_conversion_servi.Prelude.Dict.{lookup, has}
use dynamic_conversion_servi.Prelude.Action.{Result, ok, err, ◌>>=◌}
use dynamic_conversion_servi.Prelude.Hoare.{
  Ran-settle, Kept, Ran, Keeps, Runs, Any, Runs-bind, Keeps-state,
}
use dynamic_conversion_servi.Redis.Request.{
  ConversionStatus, WorkerConversionId, ConversionRequest, WorkerInfo, Workers,
}
use dynamic_conversion_servi.Redis.Worker.{Handler, WorkerError, or_invalid, get_container_name}
use dynamic_conversion_servi.Redis.Worker.Network.{
  Network, HandlerState, Remote, local, remote, try_log,
}
use dynamic_conversion_servi.Redis.Worker.Valid.{
  IsValid, IsDispatched, IsReady, lookup-IsValid, add_request_to_worker-Keeps, update_status-Keeps,
}
use dynamic_conversion_servi.Redis.Worker.Forward.{
  forward_request_to_worker, add_answered, forward_one, forward_all,
}
use dynamic_conversion_servi.Redis.Worker.Probe.{
  current_request, store_status, probe_request, probe_from, probe_all,
}

abbrev pub id_of : WorkerInfo → String
id_of w = w.container_info.container_id

-- Membership in a list of ids, by recursion.
abbrev pub IsIn : String → List String → Type 0
IsIn id [] = ⊥
IsIn id (x ∷ ids) = (x ≡ id) ⊎ IsIn id ids

All-pick : (P : String → Type 0) (id : String) (ids : List String) → All P ids → IsIn id ids → P id
All-pick P id [] h m = absurd m
All-pick P id (x ∷ ids) h (inl e) = subst P e h.0
All-pick P id (x ∷ ids) h (inr m) = All-pick P id ids h.1 m

module _ {W : Type 0} (ids : List String) where
  -- The handler's workers are ready for a loop over the workers with these ids.
  abbrev pub Ready : HandlerState W → Type 0
  Ready s = IsReady ids s.workers

  pub local-Keeps :
      {A : Type 0} (Q : A → Type 0) (m : Handler A)
      → Keeps (IsReady ids) Q m
      → Keeps Ready Q (local m)
  local-Keeps Q m h s v = at_result (m s.workers) (h s.workers v)
    where
      at_result :
          (r : Result WorkerError _ × Workers)
          → Kept (IsReady ids) Q r
          → Kept Ready Q (local (λ _. r) s)
      at_result (ok a, ws) k = k
      at_result (err e, ws) k = k

  pub remote-Runs : {A : Type 0} (f : W → A × W) → Runs Ready Any (remote f)
  remote-Runs f s v = (v, tt)

  -- What is caught and logged does not throw.
  pub try_log-Runs : (m : Remote W (Unit {0})) → Keeps Ready Any m → Runs Ready Any (try_log m)
  try_log-Runs m h s v = (Keeps-state Ready Any m h s v, tt)

  get_container_name-Runs :
      (id : String) (s : HandlerState W)
      → has id s.workers ≡ true
      → Ready s
      → Ran Ready Any (local (get_container_name id) s)
  unfolding get_container_name
  get_container_name-Runs id s h v = present (lookup id s.workers) h
    where
      present :
          (o : Option WorkerInfo)
          → (elim o as (λ _. Bool) [ none ↦ false | some _ ↦ true ]) ≡ true
          → Ran Ready Any
              (local (or_invalid id o >>= λ w s. (ok w.container_info.container_name, s)) s)
      present none e = cc
      present (some w) e = (v, tt)

  pub name-Runs :
      (w : WorkerInfo) → IsIn (id_of w) ids → Runs Ready Any (local (get_container_name (id_of w)))
  name-Runs w m s v =
      get_container_name-Runs (id_of w) s
        (All-pick (λ id. has id s.workers ≡ true) (id_of w) ids v.1 m) v

  module _ (net : Network W) where
    add_answered-Runs :
        (id : String) (r : ConversionRequest) (answer : Option WorkerConversionId)
        → Runs Ready Any (add_answered net id r answer)
    add_answered-Runs id r none = λ s v. (v, tt)
    add_answered-Runs id r (some wid) =
        try_log-Runs _ (local-Keeps Any _ (add_request_to_worker-Keeps ids id _))

    forward_one-Runs :
        (w : WorkerInfo) (r : ConversionRequest)
        → IsIn (id_of w) ids
        → Runs Ready Any (forward_one net w r)
    unfolding forward_one
    forward_one-Runs w r m =
        Runs-bind Ready Any Any (local (get_container_name (id_of w))) _ (name-Runs w m) λ _ _.
          Runs-bind Ready Any Any (remote (forward_request_to_worker net w.worker_url r)) _
            (remote-Runs (forward_request_to_worker net w.worker_url r))
            λ answer _. add_answered-Runs (id_of w) r answer

    pub forward_all-Runs :
        (available : List WorkerInfo) (requests : List ConversionRequest)
        → All (λ w. IsIn (id_of w) ids) available
        → length requests ≤ length available
        → Runs Ready Any (forward_all net available requests)
    unfolding forward_all
    forward_all-Runs available [] h k = λ s v. (v, tt)
    forward_all-Runs [] (r ∷ rs) h k = absurd (omega arith)
    forward_all-Runs (w ∷ available) (r ∷ rs) h k =
        Runs-bind Ready Any Any (forward_one net w r) _ (forward_one-Runs w r h.0)
          λ _ _. forward_all-Runs available rs h.1 (omega arith)

    store_status-Runs :
        (id : String) (r : ConversionRequest) (answer : Option ConversionStatus)
        → IsDispatched r
        → Runs Ready Any (store_status net id r answer)
    store_status-Runs id r none d = λ s v. (v, tt)
    store_status-Runs id r (some status) d =
        try_log-Runs _ (local-Keeps Any _ (update_status-Keeps ids id _ d))

    -- What the loop reads from a valid worker's array has been dispatched.
    abbrev Dispatched : Option ConversionRequest → Type 0
    Dispatched none = Unit
    Dispatched (some r) = IsDispatched r

    get_elem-Dispatched :
        (rs : List ConversionRequest) (i : ℕ) → All IsDispatched rs → Dispatched (get_elem? rs i)
    get_elem-Dispatched [] i h = tt
    get_elem-Dispatched (r ∷ rs) zero h = h.0
    get_elem-Dispatched (r ∷ rs) (suc i) h = get_elem-Dispatched rs i h.1

    current-Dispatched :
        (key : String) (i : ℕ) (ws : Workers) → IsValid ws → Dispatched (current_request key i ws)
    current-Dispatched key i ws v = found (lookup key ws) refl
      where
        found :
            (o : Option WorkerInfo)
            → lookup key ws ≡ o
            → Dispatched (elim o [ none ↦ none | some w ↦ get_elem? w.requests i ])
        found none e = tt
        found (some w) e = get_elem-Dispatched w.requests i (lookup-IsValid key ws w v e).1

    probe_request-Runs :
        (w : WorkerInfo) (o : Option ConversionRequest)
        → IsIn (id_of w) ids
        → Dispatched o
        → Runs Ready Any (probe_request net w o)
    probe_request-Runs w none m d = λ s v. (v, tt)
    probe_request-Runs w (some r) m d =
        Runs-bind Ready Any Any (local (get_container_name (id_of w))) _ (name-Runs w m) λ _ _.
          Runs-bind Ready Any Any (remote (net.status w.worker_url r.worker_conversion_id)) _
            (remote-Runs (net.status w.worker_url r.worker_conversion_id))
            λ answer _. store_status-Runs (id_of w) r answer d

    probe_from-Runs :
        (key : String) (w : WorkerInfo) (i n : ℕ)
        → IsIn (id_of w) ids
        → Runs Ready Any (probe_from net key w i n)
    unfolding probe_from
    probe_from-Runs key w i zero m = λ s v. (v, tt)
    probe_from-Runs key w i (suc n) m = λ s v.
        Ran-settle Ready Any Any (λ _. probe_from net key w (suc i) n)
          (probe_request net w (current_request key i s.workers) s)
          (probe_request-Runs w (current_request key i s.workers) m
            (current-Dispatched key i s.workers v.0) s v)
          (λ _ _. probe_from-Runs key w (suc i) n m)

    pub probe_all-Runs :
        (workers : List (String × WorkerInfo))
        → All (λ e. IsIn (id_of e.1) ids) workers
        → Runs Ready Any (probe_all net workers)
    unfolding probe_all
    probe_all-Runs [] h = λ s v. (v, tt)
    probe_all-Runs ((key, w) ∷ rest) h =
        Runs-bind Ready Any Any (probe_from net key w 0 (length w.requests)) _
          (probe_from-Runs key w 0 (length w.requests) h.0) λ _ _. probe_all-Runs rest h.1
