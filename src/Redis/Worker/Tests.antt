-- ===== src/Redis/Worker/Tests.antt =====
-- A handler with two workers on a network whose calls succeed or fail at will.
use dynamic_conversion_servi.Prelude.{
  ℕ, String, Bool, true, false, none, some, [], ◌∷◌, ◌≡◌, ◌↔◌, refl, arith, suc, length, ◌≤◌,
}
use dynamic_conversion_servi.Prelude.Dict.{lookup}
use dynamic_conversion_servi.Prelude.Hoare.{Ran, Any}
use dynamic_conversion_servi.Docker.{HealthStatus, ContainerStatus, ContainerInfo}
use dynamic_conversion_servi.Docker.Names.{concat}
use dynamic_conversion_servi.Redis.Request.{
  ConversionStatus, WorkerConversionId, ConversionRequest, WorkerInfo, Workers,
}
use dynamic_conversion_servi.Redis.Worker.{get_worker_count}
use dynamic_conversion_servi.Redis.Worker.Update.{update_workers}
use dynamic_conversion_servi.Redis.Worker.Network.{Network, HandlerState}
use dynamic_conversion_servi.Redis.Worker.Forward.{forward_requests}
use dynamic_conversion_servi.Redis.Worker.Probe.{probe_workers_for_status}
use dynamic_conversion_servi.Redis.Worker.Fetch.{fetch_files, take_back}
use dynamic_conversion_servi.Redis.Worker.Valid.{IsValid, update_workers-IsValid}
use dynamic_conversion_servi.Redis.Worker.Safe.{
  IsValidHandler, forward_requests_safe, probe_safe, fetch_files_safe,
}
use dynamic_conversion_servi.Redis.Worker.Order.{IsByWorkload, with_workload, sort_workers_iff}
use dynamic_conversion_servi.Redis.Worker.Forward.{sort_workers}
use dynamic_conversion_servi.Redis.Worker.Track.{
  Delivers, assigned_at, fetch_files-tracks, take_back-loses,
}

-- The world counts the calls; deletion succeeds or not by the first argument.
abbrev pub example_network : Bool → Network ℕ
example_network deletes = record {
  extname = λ name. ".txt";
  join = λ a b. concat a (concat "/" b);
  post = λ url form n. (some (WorkerConversionId.given "w-1"), suc n);
  status = λ url id n. (some ConversionStatus.converted, suc n);
  download = λ url id path n. (true, suc n);
  delete_file = λ path n. (deletes, suc n);
  now = λ n. (n, suc n);
}

abbrev pub container : String → ContainerInfo
container id = record {
  container_health_status = HealthStatus.healthy;
  container_id = id;
  container_image = some "conversion-service";
  container_ip = "10.0.0.2";
  container_name = concat "/worker__" id;
  container_status = ContainerStatus.running;
  container_tag = some "latest";
}

abbrev pub request : String → ConversionStatus → WorkerConversionId → ConversionRequest
request id status worker_id = record {
  conversion_request_body = record {
    file = "";
    filename = "a.txt";
    original_format = none;
    target_format = "pdf";
  };
  conversion_status = status;
  external_conversion_id = id;
  worker_conversion_id = worker_id;
}

abbrev pub done : ConversionRequest
done = request "r1" ConversionStatus.converted (WorkerConversionId.given "w-1")

abbrev pub queued : ConversionRequest
queued = request "r2" ConversionStatus.in_queue WorkerConversionId.null

abbrev pub busy_worker : WorkerInfo
busy_worker = record {
  container_info = container "c1";
  requests = done ∷ [];
  worker_url = "http://10.0.0.2:3000";
}

abbrev pub two_workers : Workers
two_workers =
    ("c1", busy_worker)
    ∷ (
      "c2",
      record {
        container_info = container "c2";
        requests = [];
        worker_url = "http://10.0.0.3:3000";
      },
    )
    ∷ []

abbrev pub handler : HandlerState ℕ
handler = record { workers = two_workers; finished = []; world = 0 }

pub two_workers-IsValid : IsValid two_workers
unfolding lookup
two_workers-IsValid = ((refl, (refl, tt)), refl, ((refl, tt), refl, tt))

update_workers-IsValid_example :
    IsValid
      (update_workers true
        (record {
          removed_containers = container "c2" ∷ [];
          started_containers = container "c3" ∷ [];
        })
        two_workers).1
update_workers-IsValid_example =
    update_workers-IsValid true
      (record {
        removed_containers = container "c2" ∷ [];
        started_containers = container "c3" ∷ [];
      })
      two_workers two_workers-IsValid

room : length (queued ∷ []) ≤ get_worker_count two_workers
unfolding get_worker_count
room = omega arith

forward_requests_safe_example :
    Ran IsValidHandler Any (forward_requests (example_network true) (queued ∷ []) handler)
forward_requests_safe_example =
    forward_requests_safe (example_network true) (queued ∷ []) handler two_workers-IsValid room

probe_safe_example :
    Ran IsValidHandler Any (probe_workers_for_status (example_network true) handler)
probe_safe_example = probe_safe (example_network true) handler two_workers-IsValid

fetch_files_safe_example : Ran IsValidHandler Any (fetch_files (example_network true) handler)
fetch_files_safe_example = fetch_files_safe (example_network true) handler two_workers-IsValid

fetch_files-tracks_example : Delivers "r1" (fetch_files (example_network true) handler)
fetch_files-tracks_example =
    fetch_files-tracks (example_network true) "r1" (λ path n. refl) handler two_workers-IsValid refl

take_back-loses_example :
    (assigned_at "r1" (lookup "c1" (take_back (example_network false) "c1" done handler).1.workers)
      ≡ false)
    × ((take_back (example_network false) "c1" done handler).1.finished ≡ [])
unfolding lookup
take_back-loses_example =
    take_back-loses (example_network false) "c1" done handler busy_worker refl refl

sort_workers_iff_example : (busy_worker ∷ [] ≡ sort_workers (busy_worker ∷ [])) ↔ (
    IsByWorkload (busy_worker ∷ [])
    × ((n : ℕ) → with_workload n (busy_worker ∷ []) ≡ with_workload n (busy_worker ∷ [])))
sort_workers_iff_example = sort_workers_iff (busy_worker ∷ []) (busy_worker ∷ [])
