-- ===== src/Redis/Worker/Probe.antt =====
-- packages/redis/src/worker/index.ts: `probeWorkersForStatus`.
use dynamic_conversion_servi.Prelude.{
  ℕ, zero, suc, String, Option, none, some, List, [], ◌∷◌, length, get_elem?,
}
use dynamic_conversion_servi.Prelude.Dict.{lookup}
use dynamic_conversion_servi.Prelude.Action.{pure, gets, ◌>>=◌, ◌>>◌}
use dynamic_conversion_servi.Redis.Request.{
  ConversionStatus, ConversionRequest, WorkerInfo, Workers,
}
use dynamic_conversion_servi.Redis.Worker.{get_container_name}
use dynamic_conversion_servi.Redis.Worker.Update.{update_worker_conversion_status}
use dynamic_conversion_servi.Redis.Worker.Network.{Network, Remote, local, remote, try_log}

-- `worker.requests[i]`, of the array that the loop is writing to
abbrev pub current_request : String → ℕ → Workers → Option ConversionRequest
current_request key i ws = elim (lookup key ws) [ none ↦ none | some w ↦ get_elem? w.requests i ]

module _ {W : Type 0} (net : Network W) where
  abbrev pub store_status :
      String → ConversionRequest → Option ConversionStatus → Remote W (Unit {0})
  store_status container_id request none = pure tt
  store_status container_id request (some status) = try_log (
      local (
        update_worker_conversion_status container_id
          (record request { conversion_status = status })))

  -- One round of the inner loop.
  abbrev pub probe_request : WorkerInfo → Option ConversionRequest → Remote W (Unit {0})
  probe_request worker none = pure tt
  probe_request worker (some request) = do
    let container_id = worker.container_info.container_id
    local (get_container_name container_id)
    answer ← remote (net.status worker.worker_url request.worker_conversion_id)
    store_status container_id request answer

  -- The inner loop, from index `i` over `n` more requests.
  unfoldable pub probe_from : String → WorkerInfo → ℕ → ℕ → Remote W (Unit {0})
  probe_from key worker i zero = pure tt
  probe_from key worker i (suc n) = do
    request ← gets (λ s. current_request key i s.workers)
    probe_request worker request
    probe_from key worker (suc i) n

  unfoldable pub probe_all : List (String × WorkerInfo) → Remote W (Unit {0})
  unfolding probe_from
  probe_all [] = pure tt
  probe_all ((key, worker) ∷ rest) = do
    probe_from key worker 0 (length worker.requests)
    probe_all rest

  -- `probeWorkersForStatus`
  unfoldable pub probe_workers_for_status : Remote W (Unit {0})
  unfolding probe_all
  probe_workers_for_status = do workers ← gets (λ s. s.workers); probe_all workers
