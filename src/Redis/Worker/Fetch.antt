-- ===== src/Redis/Worker/Fetch.antt =====
-- packages/redis/src/worker/index.ts: `fetchFiles`. The loops run over the workers and the request
-- arrays as they were at the start: a removal puts a new array in place of the old one.
use dynamic_conversion_servi.Prelude.{String, Bool, true, false, List, [], ◌∷◌, ◌++◌}
use dynamic_conversion_servi.Prelude.Dict.{values}
use dynamic_conversion_servi.Prelude.Action.{
  Result, ok, err, pure, raise_if, gets, modify, ◌>>=◌, ◌>>◌,
}
use dynamic_conversion_servi.Docker.Names.{concat}
use dynamic_conversion_servi.Redis.Request.{
  ConversionStatus, ConversionRequest, FinishedRequest, WorkerInfo,
}
use dynamic_conversion_servi.Redis.Formats.{with_dot, Directory, removed_path}
use dynamic_conversion_servi.Redis.Worker.{no_worker_conversion_id, is_null, get_container_name}
use dynamic_conversion_servi.Redis.Worker.Update.{remove_request_from_worker}
use dynamic_conversion_servi.Redis.Worker.Network.{
  Network, HandlerState, Remote, local, remote, try_log,
}

-- The path that `getFileFromWorker` writes.
abbrev pub output_path : (String → String → String) → ConversionRequest → String
output_path join request =
    join "output" (
      concat request.external_conversion_id
        (with_dot request.conversion_request_body.target_format))

module _ {W : Type 0} (net : Network W) where
  -- The end of both branches: the request leaves the worker, then its input file is deleted; only if
  -- that succeeds is it recorded as finished.
  unfoldable pub record_finished : String → ConversionRequest → Bool → Remote W (Unit {0})
  record_finished container_id request false = pure tt
  record_finished container_id request true = do
    time ← remote net.now
    modify (λ s. record s {
      finished =
          s.finished
          ++ record { container_id = container_id; finished_time = time; request = request } ∷ [];
    })

  unfoldable pub take_back : String → ConversionRequest → Remote W (Unit {0})
  unfolding record_finished
  take_back container_id request = do
    local (remove_request_from_worker container_id request.external_conversion_id)
    deleted ← remote (net.delete_file (removed_path net.join Directory.input request))
    record_finished container_id request deleted

  unfoldable pub take_downloaded : String → ConversionRequest → Bool → Remote W (Unit {0})
  unfolding take_back
  take_downloaded container_id request false = pure tt
  take_downloaded container_id request true = take_back container_id request

  -- The branch for a converted request.
  unfoldable pub fetch_converted : WorkerInfo → ConversionRequest → Remote W (Unit {0})
  unfolding take_downloaded
  fetch_converted worker request = do
    raise_if (is_null request.worker_conversion_id)
        (no_worker_conversion_id request.external_conversion_id)
    downloaded ←
        remote (
          net.download worker.worker_url request.worker_conversion_id
            (output_path net.join request))
    try_log (take_downloaded worker.container_info.container_id request downloaded)

  -- The branch for a request that failed at its worker.
  unfoldable pub fetch_erroneous : WorkerInfo → ConversionRequest → Remote W (Unit {0})
  unfolding take_back
  fetch_erroneous worker request = try_log (take_back worker.container_info.container_id request)

  abbrev pub fetch_by_status :
      ConversionStatus → WorkerInfo → ConversionRequest → Remote W (Unit {0})
  fetch_by_status ConversionStatus.converted worker request = fetch_converted worker request
  fetch_by_status ConversionStatus.erroneous worker request = fetch_erroneous worker request
  fetch_by_status _ worker request = pure tt

  -- One round of the inner loop.
  unfoldable pub fetch_one : WorkerInfo → ConversionRequest → Remote W (Unit {0})
  unfolding fetch_converted fetch_erroneous
  fetch_one worker request = do
    local (get_container_name worker.container_info.container_id)
    fetch_by_status request.conversion_status worker request

  unfoldable pub fetch_requests : WorkerInfo → List ConversionRequest → Remote W (Unit {0})
  unfolding fetch_one
  fetch_requests worker [] = pure tt
  fetch_requests worker (r ∷ rs) = do fetch_one worker r; fetch_requests worker rs

  unfoldable pub fetch_workers : List WorkerInfo → Remote W (Unit {0})
  unfolding fetch_requests
  fetch_workers [] = pure tt
  fetch_workers (w ∷ ws) = do fetch_requests w w.requests; fetch_workers ws

  -- The array of the finished requests is local: a throw loses it.
  abbrev pub dropped : {E A : Type 0} → Result E A × HandlerState W → Result E A × HandlerState W
  dropped (ok a, s) = (ok a, s)
  dropped (err e, s) = (err e, record s { finished = [] })

  abbrev pub returned_array : Remote W (List FinishedRequest)
  returned_array = gets (λ s. s.finished)

  -- `fetchFiles`, which begins with an empty array
  unfoldable pub fetch_files : Remote W (List FinishedRequest)
  unfolding fetch_workers
  fetch_files s =
      dropped
        ((fetch_workers (values s.workers) >>= λ _. returned_array) (record s { finished = [] }))
