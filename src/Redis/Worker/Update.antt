-- ===== src/Redis/Worker/Update.antt =====
-- packages/redis/src/worker/index.ts: the methods of `WorkerHandler` that replace or remove what is
-- stored.
use dynamic_conversion_servi.Prelude.{
  ℕ, suc, String, Bool, not, Option, none, some, List, [], ◌∷◌, filter, set, if◌then◌else◌,
}
use dynamic_conversion_servi.Prelude.Dict.{insert, erase}
use dynamic_conversion_servi.Prelude.Action.{pure, modify, or_raise, ◌>>=◌, ◌>>◌}
use dynamic_conversion_servi.Docker.{ContainerInfo}
use dynamic_conversion_servi.AutoScaler.{ContainerStateChange}
use dynamic_conversion_servi.Redis.Request.{ConversionRequest}
use dynamic_conversion_servi.Redis.Worker.{
  Handler, no_worker_with_request, get_worker, has_external_id, add_worker,
}

-- `removeRequestFromWorker`: every request with that external id goes.
unfoldable pub remove_request_from_worker : String → String → Handler (Unit {0})
remove_request_from_worker worker_id external_id = do
  worker ← get_worker worker_id
  modify (
      insert worker_id (record worker {
        requests = filter (λ r. not (has_external_id external_id r)) worker.requests;
      }))

-- `removeWorker`
unfoldable pub remove_worker : String → Handler (Unit {0})
remove_worker worker_id = do worker ← get_worker worker_id; modify (erase worker_id)

-- `updateWorkerContainer`
unfoldable pub update_worker_container : String → ContainerInfo → Handler (Unit {0})
update_worker_container worker_id info = do
  worker ← get_worker worker_id
  modify (insert worker_id (record worker { container_info = info }))

-- The `forEach` that looks for the target index: the last request with that external id.
unfoldable pub last_index_of : String → ℕ → Option ℕ → List ConversionRequest → Option ℕ
last_index_of id index found [] = found
last_index_of id index found (r ∷ rs) =
    last_index_of id (suc index) (if has_external_id id r then some index else found) rs

-- `updateWorkerConversionStatus`
unfoldable pub update_worker_conversion_status : String → ConversionRequest → Handler (Unit {0})
unfolding last_index_of
update_worker_conversion_status worker_id request = do
  worker ← get_worker worker_id
  index ←
      or_raise (last_index_of request.external_conversion_id 0 none worker.requests)
        (no_worker_with_request worker_id request.external_conversion_id)
  modify (insert worker_id (record worker { requests = set worker.requests index request }))

-- `removedContainers.forEach`, `startedContainers.forEach`
unfoldable pub remove_workers : List ContainerInfo → Handler (Unit {0})
unfolding remove_worker
remove_workers [] = pure tt
remove_workers (c ∷ cs) = do remove_worker c.container_id; remove_workers cs

unfoldable pub add_workers : Bool → List ContainerInfo → Handler (Unit {0})
unfolding add_worker
add_workers is_local [] = pure tt
add_workers is_local (c ∷ cs) = do add_worker is_local c; add_workers is_local cs

-- `updateWorkers`
unfoldable pub update_workers : Bool → ContainerStateChange → Handler (Unit {0})
unfolding remove_workers add_workers
update_workers is_local change = do
  remove_workers change.removed_containers
  add_workers is_local change.started_containers
