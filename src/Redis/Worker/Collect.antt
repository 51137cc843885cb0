-- ===== src/Redis/Worker/Collect.antt =====
-- `fetchFiles` over valid workers does not throw, whatever the network answers, and the workers stay
-- valid.
use dynamic_conversion_servi.Prelude.{String, Bool, true, false, List, [], ◌∷◌, All}
use dynamic_conversion_servi.Prelude.Action.{raise_if}
use dynamic_conversion_servi.Prelude.Hoare.{raise_if-Runs, Keeps, Runs, Any, Keeps-bind, Runs-bind}
use dynamic_conversion_servi.Redis.Request.{ConversionStatus, ConversionRequest, WorkerInfo}
use dynamic_conversion_servi.Redis.Formats.{Directory, removed_path}
use dynamic_conversion_servi.Redis.Worker.{is_null, get_container_name}
use dynamic_conversion_servi.Redis.Worker.Update.{remove_request_from_worker}
use dynamic_conversion_servi.Redis.Worker.Network.{Network, local, remote, try_log}
use dynamic_conversion_servi.Redis.Worker.Valid.{IsDispatched, remove_request_from_worker-Keeps}
use dynamic_conversion_servi.Redis.Worker.Fetch.{
  record_finished, take_back, take_downloaded, fetch_converted, fetch_erroneous, fetch_by_status,
  fetch_one, fetch_requests, fetch_workers, output_path,
}
use dynamic_conversion_servi.Redis.Worker.Cycle.{
  id_of, IsIn, Ready, local-Keeps, try_log-Runs, name-Runs,
}

module _ {W : Type 0} (ids : List String) (net : Network W) where
  record_finished-Keeps :
      (id : String) (r : ConversionRequest) (deleted : Bool)
      → Keeps (Ready ids) Any (record_finished net id r deleted)
  unfolding record_finished
  record_finished-Keeps id r false = λ s v. (v, tt)
  record_finished-Keeps id r true = λ s v. (v, tt)

  take_back-Keeps :
      (id : String) (r : ConversionRequest) → Keeps (Ready ids) Any (take_back net id r)
  unfolding take_back
  take_back-Keeps id r =
      Keeps-bind (Ready ids) Any Any
        (local (remove_request_from_worker id r.external_conversion_id)) _
        (local-Keeps ids Any _ (remove_request_from_worker-Keeps ids id r.external_conversion_id))
        λ _ _.
          Keeps-bind (Ready ids) Any Any
            (remote (net.delete_file (removed_path net.join Directory.input r))) _ (λ s v. (v, tt))
            λ deleted _. record_finished-Keeps id r deleted

  take_downloaded-Keeps :
      (id : String) (r : ConversionRequest) (downloaded : Bool)
      → Keeps (Ready ids) Any (take_downloaded net id r downloaded)
  unfolding take_downloaded
  take_downloaded-Keeps id r false = λ s v. (v, tt)
  take_downloaded-Keeps id r true = take_back-Keeps id r

  fetch_converted-Runs :
      (w : WorkerInfo) (r : ConversionRequest)
      → IsDispatched r
      → Runs (Ready ids) Any (fetch_converted net w r)
  unfolding fetch_converted
  fetch_converted-Runs w r d =
      Runs-bind (Ready ids) Any Any (raise_if (is_null r.worker_conversion_id) _) _
        (raise_if-Runs (Ready ids) (is_null r.worker_conversion_id) _ d)
        λ _ _.
          Runs-bind (Ready ids) Any Any
            (remote (net.download w.worker_url r.worker_conversion_id (output_path net.join r)))
            (λ downloaded. try_log (take_downloaded net (id_of w) r downloaded)) (λ s v. (v, tt))
            λ downloaded _. try_log-Runs ids _ (take_downloaded-Keeps (id_of w) r downloaded)

  fetch_by_status-Runs :
      (status : ConversionStatus) (w : WorkerInfo) (r : ConversionRequest)
      → IsDispatched r
      → Runs (Ready ids) Any (fetch_by_status net status w r)
  unfolding fetch_erroneous
  fetch_by_status-Runs ConversionStatus.converted w r d = fetch_converted-Runs w r d
  fetch_by_status-Runs ConversionStatus.erroneous w r d =
      try_log-Runs ids _ (take_back-Keeps (id_of w) r)
  fetch_by_status-Runs _ w r d = λ s v. (v, tt)

  fetch_requests-Runs :
      (w : WorkerInfo) (rs : List ConversionRequest)
      → IsIn (id_of w) ids
      → All IsDispatched rs
      → Runs (Ready ids) Any (fetch_requests net w rs)
  unfolding fetch_requests fetch_one
  fetch_requests-Runs w [] m h = λ s v. (v, tt)
  fetch_requests-Runs w (r ∷ rs) m h =
      Runs-bind (Ready ids) Any Any (fetch_one net w r) _
        (Runs-bind (Ready ids) Any Any (local (get_container_name (id_of w))) _ (name-Runs ids w m)
          λ _ _. fetch_by_status-Runs r.conversion_status w r h.0)
        λ _ _. fetch_requests-Runs w rs m h.1

  pub fetch_workers-Runs :
      (ws : List WorkerInfo)
      → All (λ w. IsIn (id_of w) ids × All IsDispatched w.requests) ws
      → Runs (Ready ids) Any (fetch_workers net ws)
  unfolding fetch_workers
  fetch_workers-Runs [] h = λ s v. (v, tt)
  fetch_workers-Runs (w ∷ ws) h =
      Runs-bind (Ready ids) Any Any (fetch_requests net w w.requests) _
        (fetch_requests-Runs w w.requests h.0.0 h.0.1) λ _ _. fetch_workers-Runs ws h.1
