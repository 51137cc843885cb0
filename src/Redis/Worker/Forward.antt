-- ===== src/Redis/Worker/Forward.antt =====
-- packages/redis/src/worker/index.ts: `forwardRequests`, with `forwardRequestToWorker` of util.ts.
use dynamic_conversion_servi.Prelude.{
  String, Option, none, some, List, [], ◌∷◌, length, leb, take, if◌then◌else◌,
}
use dynamic_conversion_servi.Prelude.Dict.{values}
use dynamic_conversion_servi.Prelude.Action.{ok, err, pure, raise, gets, ◌>>=◌, ◌>>◌}
use dynamic_conversion_servi.Docker.Names.{concat, second_part}
use dynamic_conversion_servi.Redis.Request.{WorkerConversionId, ConversionRequest, WorkerInfo}
use dynamic_conversion_servi.Redis.Formats.{get_ext}
use dynamic_conversion_servi.Redis.Worker.{type_error, add_request_to_worker, get_container_name}
use dynamic_conversion_servi.Redis.Worker.Network.{Network, Remote, local, remote, try_log}

-- `sort((a, b) => a.requests.length - b.requests.length)`, which is stable
unfoldable pub insert_worker : WorkerInfo → List WorkerInfo → List WorkerInfo
insert_worker w [] = w ∷ []
insert_worker w (v ∷ vs) =
    if leb (length w.requests) (length v.requests) then w ∷ v ∷ vs else v ∷ insert_worker w vs

unfoldable pub sort_workers : List WorkerInfo → List WorkerInfo
unfolding insert_worker
sort_workers [] = []
sort_workers (w ∷ ws) = insert_worker w (sort_workers ws)

-- `originalFormat ?? filename.split(".")[1]`
abbrev pub sent_format : Option String → String → Option String
sent_format none filename = second_part b'.' filename
sent_format (some format) filename = some format

module _ {W : Type 0} (net : Network W) where
  -- `forwardRequestToWorker`
  unfoldable pub forward_request_to_worker :
      String → ConversionRequest → W → Option WorkerConversionId × W
  forward_request_to_worker url request w =
      let body = request.conversion_request_body in
      elim (get_ext net.extname body.filename body.original_format) [
        | err e ↦ (none, w)
        | ok ext ↦
            net.post url
              (record {
                file_location = net.join "input" (concat request.external_conversion_id ext);
                filename = body.filename;
                original_format = sent_format body.original_format body.filename;
                target_format = body.target_format;
              })
              w
      ]

  -- The `try` block of one round.
  abbrev pub add_answered :
      String → ConversionRequest → Option WorkerConversionId → Remote W (Unit {0})
  add_answered container_id request none = pure tt
  add_answered container_id request (some id) =
      try_log
        (local (add_request_to_worker container_id (record request { worker_conversion_id = id })))

  unfoldable pub forward_one : WorkerInfo → ConversionRequest → Remote W (Unit {0})
  unfolding forward_request_to_worker
  forward_one worker request = do
    let container_id = worker.container_info.container_id
    local (get_container_name container_id)
    answer ← remote (forward_request_to_worker worker.worker_url request)
    add_answered container_id request answer

  -- The `for` loop; `availableWorkers[i]` past the end is `undefined`.
  unfoldable pub forward_all : List WorkerInfo → List ConversionRequest → Remote W (Unit {0})
  unfolding forward_one
  forward_all available [] = pure tt
  forward_all [] (r ∷ rs) = raise type_error
  forward_all (w ∷ available) (r ∷ rs) = do forward_one w r; forward_all available rs

  -- `forwardRequests`
  unfoldable pub forward_requests : List ConversionRequest → Remote W (Unit {0})
  unfolding forward_all sort_workers
  forward_requests requests = do
    workers ← gets (λ s. values s.workers)
    forward_all (take (length requests) (sort_workers workers)) requests
