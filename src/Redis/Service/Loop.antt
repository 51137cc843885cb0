-- ===== src/Redis/Service/Loop.antt =====
-- packages/redis/src/service.ts: the loop of `start` and the steps that it runs:
-- `forwardRequestsToIdleWorkers` and `checkFileTtl`. The promises of one `Promise.all` run in order.
use dynamic_conversion_servi.Prelude.{
  ℕ, zero, suc, ◌+◌, ◌-◌, ◌*◌, ◌%◌, String, Bool, true, false, not, ◌&&◌, ◌||◌, Option, none, some,
  List, [], ◌∷◌, ◌++◌, map, length, ltb, ◌==◌, min, if◌then◌else◌,
}
use dynamic_conversion_servi.Prelude.Dict.{insert, erase, has, values}
use dynamic_conversion_servi.Prelude.Action.{raise, ok, err, pure, gets, modify, ◌>>=◌, ◌>>◌}
use dynamic_conversion_servi.Prelude.Int.{pos}
use dynamic_conversion_servi.AutoScaler.{
  ContainerStateChange, check_container_status, apply_configuration_state,
}
use dynamic_conversion_servi.AutoScaler.Scale.{Quotient, finite, infinity, ceil_div}
use dynamic_conversion_servi.Redis.Wrapper.{quit_wrapper}
use dynamic_conversion_servi.Docker.Names.{first_part}
use dynamic_conversion_servi.Redis.Request.{ConversionStatus, ConversionRequest, FinishedRequest}
use dynamic_conversion_servi.Redis.Formats.{Directory, removed_path}
use dynamic_conversion_servi.Redis.Worker.{
  get_forwardable_request_count, get_requests, has_external_id,
}
use dynamic_conversion_servi.Redis.Worker.Forward.{forward_requests}
use dynamic_conversion_servi.Redis.Worker.Probe.{probe_workers_for_status}
use dynamic_conversion_servi.Redis.Worker.Fetch.{fetch_files}
use dynamic_conversion_servi.Redis.Service.{
  ServiceError, Environment, ServiceConfiguration, ServiceState, Service, scaler, wrapper,
  remote_handler, outside, pop_request, get_pending_request_count,
}
use dynamic_conversion_servi.Redis.Service.Health.{check_health, apply_state}

module _ {W E : Type 0} where
  -- `try { … } catch (error) { log }`
  abbrev pub logged : Service W E (Unit {0}) → Service W E (Unit {0})
  logged m s = (ok tt, (m s).1)

module _ {W E A : Type 0} where
  -- A call whose error is caught and logged.
  abbrev pub attempt : Service W E A → Service W E (Option A)
  attempt m s = let (r, t) = m s in elim r [ ok a ↦ (ok (some a), t) | err e ↦ (ok none, t) ]

abbrev pub pushed : {A : Type 0} → List A → Option A → List A
pushed xs none = xs
pushed xs (some x) = xs ++ x ∷ []

abbrev pub is_over : ConversionStatus → Bool
is_over ConversionStatus.converted = true
is_over ConversionStatus.erroneous = true
is_over _ = false

-- `Math.ceil(stateApplicationInterval / healthCheckInterval)`
abbrev pub probes_per_state_apply :
    (state_application_interval health_check_interval : ℕ) → Quotient
probes_per_state_apply state_application_interval health_check_interval =
    ceil_div state_application_interval health_check_interval

-- `probeCount % probesPerStateApply === 0`, for a count from 1; the rest by 0 is no number.
unfoldable pub should_apply_state : ℕ → Quotient → Bool
should_apply_state count infinity = false
should_apply_state count (finite zero) = false
should_apply_state count (finite (suc k)) = count % suc k == 0

module _ {W E : Type 0} (environment : Environment W E) (config : ServiceConfiguration) where
  -- The `while` loop, for at most `n` rounds: a failed pop is logged and tried again.
  unfoldable pub pop_until : ℕ → ℕ → List ConversionRequest → Service W E (List ConversionRequest)
  pop_until zero target requests = pure requests
  pop_until (suc n) target requests =
      let again : Service W E (List ConversionRequest) =
        (attempt (pop_request environment config) >>= λ popped.
        pop_until n target (pushed requests popped)) in
      if ltb (length requests) target then again else pure requests

  -- `forwardRequestsToIdleWorkers`, with a limit on the rounds of its loop
  unfoldable pub forward_requests_to_idle_workers : ℕ → Service W E (Unit {0})
  unfolding pop_until
  forward_requests_to_idle_workers n = do
    pending ← get_pending_request_count environment config
    forwardable ←
        gets (λ s.
          get_forwardable_request_count config.auto_scaler_config.tasks_per_container s.workers)
    requests ← pop_until n (min pending forwardable) []
    logged (
        remote_handler (forward_requests environment.network requests)
        >> (get_pending_request_count environment config >> pure tt))

  abbrev pub erase_finished : String → Bool → Service W E (Unit {0})
  erase_finished id false = pure tt
  erase_finished id true = modify (λ s. record s { finished_request = erase id s.finished_request })

  -- `cleanFilePromise`: when the deletion rejects, the request is kept.
  unfoldable pub clean_file : ℕ → FinishedRequest → Service W E (Unit {0})
  clean_file now finished =
      let request = finished.request in
      if ltb (config.file_ttl * 1000) (now - finished.finished_time)
      then ((if is_over request.conversion_status
            then outside (
                environment.network.delete_file
                  (removed_path environment.network.join Directory.output request))
            else pure true)
          >>= erase_finished request.external_conversion_id)
      else pure tt

  unfoldable pub clean_files : ℕ → List FinishedRequest → Service W E (Unit {0})
  unfolding clean_file
  clean_files now [] = pure tt
  clean_files now (f ∷ fs) = do clean_file now f; clean_files now fs

  -- Whether a file of the output directory belongs to no dispatched and no finished request.
  abbrev pub any_request : String → List ConversionRequest → Bool
  any_request id [] = false
  any_request id (r ∷ rs) = has_external_id id r || any_request id rs

  unfoldable pub remove_orphans : List String → Service W E (Unit {0})
  remove_orphans [] = pure tt
  remove_orphans (file ∷ files) = do
    let id = first_part b'.' file
    orphaned ←
        gets (λ s. not (any_request id (get_requests s.workers)) && not (has id s.finished_request))
    if orphaned then (outside (environment.delete_orphan file) >> pure tt) else pure tt
    remove_orphans files

  -- The rest of `checkFileTtl`; the directory is read outside of any `try`.
  abbrev pub clean_output : Option (List String) → Service W E (Unit {0})
  clean_output none = raise ServiceError.directory_error
  clean_output (some files) = remove_orphans files

  -- `checkFileTtl`
  unfoldable pub check_file_ttl : Service W E (Unit {0})
  unfolding clean_files remove_orphans
  check_file_ttl = do
    now ← outside environment.network.now
    finished ← gets (λ s. values s.finished_request)
    clean_files now finished
    files ← outside environment.read_output
    clean_output files

  abbrev pub store_finished : List FinishedRequest → ServiceState W → ServiceState W
  store_finished [] s = s
  store_finished (f ∷ fs) s =
      store_finished fs (record s {
        finished_request = insert f.request.external_conversion_id f s.finished_request;
      })

  -- The `try` block of one probe; `n` limits the rounds of the forwarding loop.
  unfoldable pub probe : ℕ → Bool → Service W E (Unit {0})
  probe n applies = do
    check_health environment config
    forward_requests_to_idle_workers n
    remote_handler (probe_workers_for_status environment.network)
    finished ← remote_handler (fetch_files environment.network)
    modify (λ s. record s { total_requests = s.total_requests + length finished })
    modify (store_finished finished)
    if applies then apply_state environment config else pure tt
    check_file_ttl

  -- Probe number `count` of the interval of `start`; a tick during a probe is skipped, so probes run
  -- one after the other.
  unfoldable pub run_probe : ℕ → Quotient → ℕ → Service W E (Unit {0})
  run_probe n probes_per_state_apply count =
      logged (probe n (should_apply_state count probes_per_state_apply))

  -- The health check that `start` begins with.
  unfoldable pub first_check : Service W E (Unit {0})
  first_check = logged (check_health environment config)

  -- `quit`, less the clearing of the timer and the closing of the connection; its result is dropped in
  -- the source. Every running container is removed.
  unfoldable pub quit : Service W E ContainerStateChange
  quit = do
    wrapper (quit_wrapper environment.rsmq config.queue)
    status ← scaler (check_container_status environment.daemon config.auto_scaler_config 0)
    let running = status.running_containers
    scaler (
        apply_configuration_state environment.daemon config.auto_scaler_config
          (record {
            containers_to_remove = pos (length running);
            containers_to_start = pos 0;
            pending_requests = 0;
            running_containers = running;
          })
          (some (map (λ c. c.container_id) running)) none none)
