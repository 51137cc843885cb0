-- ===== src/Redis/Worker.antt =====
-- packages/redis/src/worker/index.ts: the `WorkerHandler` class. Its state is the object of workers
-- by container id; a method that throws is an `Action` over that state. Logging is left out.
-- The methods that talk to the workers are in the children Forward, Probe and Fetch.
pub mod Update
pub mod Network
pub mod Forward
pub mod Probe
pub mod Fetch
pub mod Valid
pub mod Cycle
pub mod Collect
pub mod Safe
pub mod Order
pub mod Track
pub mod Tests
use Prim.Native.String
use dynamic_conversion_servi.Prelude.{
  ℕ, zero, suc, ◌+◌, String, Bool, true, false, ◌&&◌, Option, none, some, List, [], ◌∷◌, ◌++◌,
  str_eq, ltb, ◌==◌, length, filter, map, if◌then◌else◌,
}
use dynamic_conversion_servi.Prelude.Dict.{lookup, insert, erase, has, values}
use dynamic_conversion_servi.Prelude.Action.{
  Result, ok, err, Action, pure, raise, gets, modify, or_raise, raise_if, ◌>>=◌, ◌>>◌,
}
use dynamic_conversion_servi.Docker.{ContainerInfo}
use dynamic_conversion_servi.Docker.Names.{concat}
use dynamic_conversion_servi.AutoScaler.{ContainerStateChange}
use dynamic_conversion_servi.Redis.Request.{
  ConversionStatus, WorkerConversionId, RequestBody, ConversionRequest, WorkerInfo, Workers,
}
use dynamic_conversion_servi.Redis.Formats.{is_healthy}

-- worker/exception.ts, and the `TypeError` of reading a field of `undefined`
pub data WorkerError : Type 0 where
  invalid_worker_id duplicate_worker_id no_worker_conversion_id : String → WorkerError
  no_worker_with_request : String → String → WorkerError
  type_error : WorkerError

abbrev pub Handler : Type 0 → Type 0
Handler A = Action Workers WorkerError A

-- `hasWorkerId`
abbrev pub has_worker_id : String → Workers → Bool
has_worker_id worker_id ws = has worker_id ws

-- The guard of most methods, and the worker that is then read.
abbrev pub or_invalid : String → Option WorkerInfo → Handler WorkerInfo
or_invalid worker_id none = raise (invalid_worker_id worker_id)
or_invalid worker_id (some w) = pure w

abbrev pub get_worker : String → Handler WorkerInfo
get_worker worker_id ws = or_invalid worker_id (lookup worker_id ws) ws

-- `request.workerConversionId === null`
abbrev pub is_null : WorkerConversionId → Bool
is_null WorkerConversionId.null = true
is_null _ = false

-- `addRequestToWorker`
unfoldable pub add_request_to_worker : String → ConversionRequest → Handler (Unit {0})
add_request_to_worker worker_id request = do
  worker ← get_worker worker_id
  raise_if (is_null request.worker_conversion_id)
      (no_worker_conversion_id request.external_conversion_id)
  modify (insert worker_id (record worker { requests = worker.requests ++ request ∷ [] }))

-- `name.substring(1)`
abbrev pub drop_first : String → String
drop_first String.[] = String.[]
drop_first (String.◌∷◌ c s) = s

-- The address of a worker: its IP address locally, or else its container's name without the slash.
abbrev pub worker_address : Bool → ContainerInfo → String
worker_address is_local info =
    if is_local then info.container_ip else drop_first info.container_name

-- `addWorker`
unfoldable pub add_worker : Bool → ContainerInfo → Handler (Unit {0})
add_worker is_local info = do
  known ← gets (has_worker_id info.container_id)
  raise_if known (duplicate_worker_id info.container_id)
  modify (
      insert info.container_id (record {
        container_info = info;
        requests = [];
        worker_url = concat "http://" (concat (worker_address is_local info) ":3000");
      }))

-- `getContainerName`
unfoldable pub get_container_name : String → Handler String
get_container_name worker_id = do
  worker ← get_worker worker_id
  pure worker.container_info.container_name

-- `getRequests`: all requests, worker by worker
unfoldable pub requests_of : List WorkerInfo → List ConversionRequest
requests_of [] = []
requests_of (w ∷ ws) = w.requests ++ requests_of ws

abbrev pub get_requests : Workers → List ConversionRequest
get_requests ws = requests_of (values ws)

-- `targetRequest.length !== 1`
abbrev pub only_one : List ConversionRequest → Option ConversionRequest
only_one (r ∷ []) = some r
only_one _ = none

abbrev pub has_external_id : String → ConversionRequest → Bool
has_external_id id r = str_eq r.external_conversion_id id

-- `getConversionResult`
unfoldable pub worker_conversion_result : String → Workers → Option ConversionRequest
worker_conversion_result id ws = only_one (filter (has_external_id id) (get_requests ws))

-- `getForwardableRequestCount`
unfoldable pub get_forwardable_request_count : ℕ → Workers → ℕ
get_forwardable_request_count tasks_per_container ws = length (
    filter
      (λ w.
        ltb (length w.requests) tasks_per_container
        && is_healthy w.container_info.container_health_status)
      (values ws))

abbrev pub is_idle : WorkerInfo → Bool
is_idle w = length w.requests == 0

-- `getIdleWorkerIds`
unfoldable pub get_idle_worker_ids : Workers → List String
get_idle_worker_ids ws = map (λ w. w.container_info.container_id) (filter is_idle (values ws))

-- `reduce((a, b) => a + b, 0)` of the request counts
unfoldable pub sum_requests : ℕ → List WorkerInfo → ℕ
sum_requests acc [] = acc
sum_requests acc (w ∷ ws) = sum_requests (acc + length w.requests) ws

-- `getRequestCount`
unfoldable pub get_request_count : Workers → ℕ
unfolding sum_requests
get_request_count ws = sum_requests 0 (values ws)

-- `getRequestCountFromWorker`
unfoldable pub get_request_count_from_worker : String → Handler ℕ
get_request_count_from_worker worker_id = do
  worker ← get_worker worker_id
  pure (length worker.requests)

-- `getRequestsFromWorker`
unfoldable pub get_requests_from_worker : String → Handler (List ConversionRequest)
get_requests_from_worker worker_id = do worker ← get_worker worker_id; pure worker.requests

-- `getWorkerCount`, `getWorkerUrls`
unfoldable pub get_worker_count : Workers → ℕ
get_worker_count ws = length (values ws)

unfoldable pub get_worker_urls : Workers → List String
get_worker_urls ws = map (λ w. w.worker_url) (values ws)
