-- ===== src/Redis/Service/Filed.antt =====
-- packages/redis/src/service.ts: every finished request stays filed once under its id, whatever a probe
-- does; Filed/Steps has the operators, Filed/Health the health check.
mod Steps
mod Health
use dynamic_conversion_servi.Prelude.{
  ℕ, zero, suc, String, Bool, true, false, Option, none, some, List, [], ◌∷◌, length, ltb, str_eq,
  arith, if◌then◌else◌, ◌+◌, ◌-◌, ◌*◌, not, ◌&&◌, min, filter,
}
use dynamic_conversion_servi.Prelude.Dict.{Dict, lookup, insert, erase, values, lookup-erase, has}
use dynamic_conversion_servi.Prelude.Action.{
  Result, ok, err, Action, pure, gets, modify, or_raise, ◌>>=◌, ◌>>◌,
}
use dynamic_conversion_servi.Prelude.Hoare.{Kept, Keeps, Any, Keeps-bind}
use dynamic_conversion_servi.Docker.{DockerState, ContainerInfo}
use dynamic_conversion_servi.AutoScaler.{
  ScalerStatus, ScalerError, check_container_status, apply_configuration_state,
  scaler_remove_container,
}
use dynamic_conversion_servi.Redis.Request.{ConversionRequest, FinishedRequest}
use dynamic_conversion_servi.Redis.Worker.{
  Handler, get_forwardable_request_count, get_requests, has_worker_id, get_container_name,
  get_requests_from_worker, get_request_count, get_idle_worker_ids,
}
use dynamic_conversion_servi.Redis.Worker.Network.{Remote}
use dynamic_conversion_servi.Redis.Wrapper.{
  WrapperAction, get_pending_messages_count, receive_message, send_message,
}
use dynamic_conversion_servi.Redis.Service.{
  Environment, ServiceConfiguration, ServiceState, ServiceError, Service, scaler, wrapper, handler,
  remote_handler, outside, add_request_to_queue, get_pending_request_count, pop_request, parsed,
}
use dynamic_conversion_servi.Redis.Service.Health.{
  requeued, remove_dangling, requeue_all, remove_unhealthy, update_containers, check_health,
  apply_state, apply_last,
}
use dynamic_conversion_servi.Redis.Service.Loop.{
  is_over, any_request, logged, attempt, pushed, clean_file, clean_files, erase_finished,
  remove_orphans, clean_output, check_file_ttl, store_finished, pop_until,
  forward_requests_to_idle_workers, probe,
}
use dynamic_conversion_servi.Redis.Service.Lifetime.{IsFiled, store_finished-IsFiled}
use dynamic_conversion_servi.Docker.Names.{first_part}
use dynamic_conversion_servi.Redis.Formats.{Directory, removed_path, is_starting_or_healthy}
use dynamic_conversion_servi.Redis.Worker.Forward.{forward_requests}
use dynamic_conversion_servi.Redis.Worker.Probe.{probe_workers_for_status}
use dynamic_conversion_servi.Redis.Worker.Fetch.{fetch_files}
use dynamic_conversion_servi.Redis.Worker.Update.{
  remove_worker, update_workers, update_worker_container,
}
use dynamic_conversion_servi.Redis.Service.Filed.Steps.{
  erase-IsFiled, state_of, bind, next, scaler-KeepsFiled, or_raise-KeepsFiled, attempt-KeepsFiled,
  logged-KeepsFiled, if-KeepsFiled, wrapper-KeepsFiled, handler-KeepsFiled,
  remote_handler-KeepsFiled, pure-KeepsFiled, gets-KeepsFiled, modify-KeepsFiled,
  outside-KeepsFiled, KeepsFiled,
}
use dynamic_conversion_servi.Redis.Service.Filed.Health.{
  count-KeepsFiled, check_health-KeepsFiled, apply_state-KeepsFiled,
}

module _ {W E : Type 0} (environment : Environment W E) (config : ServiceConfiguration) where
  pop_request-KeepsFiled : KeepsFiled (pop_request environment config)
  unfolding pop_request
  pop_request-KeepsFiled =
      bind (wrapper-KeepsFiled (receive_message environment.rsmq config.queue)) λ message.
        bind (or_raise-KeepsFiled (parsed environment config message) ServiceError.syntax_error)
          λ request.
            next
              (modify-KeepsFiled
                (λ s. record s {
                  requests_in_queue = erase request.external_conversion_id s.requests_in_queue;
                })
                λ s h. h)
              (pure-KeepsFiled request)

  pop_until-KeepsFiled :
      (n target : ℕ) (requests : List ConversionRequest)
      → KeepsFiled (pop_until environment config n target requests)
  unfolding pop_until
  pop_until-KeepsFiled zero target requests = pure-KeepsFiled requests
  pop_until-KeepsFiled (suc n) target requests =
      if-KeepsFiled (ltb (length requests) target)
        (bind (attempt-KeepsFiled pop_request-KeepsFiled)
          λ popped. pop_until-KeepsFiled n target (pushed requests popped))
        (pure-KeepsFiled requests)

  forward-KeepsFiled : (n : ℕ) → KeepsFiled (forward_requests_to_idle_workers environment config n)
  unfolding forward_requests_to_idle_workers
  forward-KeepsFiled n = bind (count-KeepsFiled environment config) λ pending.
      bind
        (gets-KeepsFiled λ s.
          get_forwardable_request_count config.auto_scaler_config.tasks_per_container s.workers)
        λ forwardable. bind (pop_until-KeepsFiled n (min pending forwardable) []) λ requests.
          logged-KeepsFiled (
            next (remote_handler-KeepsFiled (forward_requests environment.network requests))
              (next (count-KeepsFiled environment config) (pure-KeepsFiled tt)))

  clean_file-KeepsFiled :
      (now : ℕ) (f : FinishedRequest) → KeepsFiled (clean_file environment config now f)
  unfolding clean_file
  clean_file-KeepsFiled now f =
      if-KeepsFiled (ltb (config.file_ttl * 1000) (now - f.finished_time))
        (bind
          (if-KeepsFiled (is_over f.request.conversion_status)
            (outside-KeepsFiled (
              environment.network.delete_file
                (removed_path environment.network.join Directory.output f.request)))
            (pure-KeepsFiled true))
          (erased f.request.external_conversion_id))
        (pure-KeepsFiled tt)
    where
      erased : (id : String) (b : Bool) → KeepsFiled (erase_finished environment config id b)
      erased id false = pure-KeepsFiled tt
      erased id true =
          modify-KeepsFiled (λ s. record s { finished_request = erase id s.finished_request })
            λ s h. erase-IsFiled id s.finished_request h

  clean_files-KeepsFiled :
      (now : ℕ) (fs : List FinishedRequest) → KeepsFiled (clean_files environment config now fs)
  unfolding clean_files
  clean_files-KeepsFiled now [] = pure-KeepsFiled tt
  clean_files-KeepsFiled now (f ∷ fs) =
      next (clean_file-KeepsFiled now f) (clean_files-KeepsFiled now fs)

  remove_orphans-KeepsFiled :
      (files : List String) → KeepsFiled (remove_orphans environment config files)
  unfolding remove_orphans
  remove_orphans-KeepsFiled [] = pure-KeepsFiled tt
  remove_orphans-KeepsFiled (file ∷ files) =
      let id = first_part b'.' file in
      bind
        (gets-KeepsFiled λ s.
          not (any_request environment config id (get_requests s.workers))
          && not (has id s.finished_request))
        λ orphaned.
          next
            (if-KeepsFiled orphaned
              (next (outside-KeepsFiled (environment.delete_orphan file)) (pure-KeepsFiled tt))
              (pure-KeepsFiled tt))
            (remove_orphans-KeepsFiled files)

  clean_output-KeepsFiled :
      (files : Option (List String)) → KeepsFiled (clean_output environment config files)
  clean_output-KeepsFiled none = record { keeps = λ s h. h }
  clean_output-KeepsFiled (some files) = remove_orphans-KeepsFiled files

  check_file_ttl-KeepsFiled : KeepsFiled (check_file_ttl environment config)
  unfolding check_file_ttl
  check_file_ttl-KeepsFiled = bind (outside-KeepsFiled environment.network.now) λ now.
      bind (gets-KeepsFiled λ s. values s.finished_request) λ finished.
        next (clean_files-KeepsFiled now finished)
          (bind (outside-KeepsFiled environment.read_output) clean_output-KeepsFiled)

  probed-KeepsFiled : (n : ℕ) (applies : Bool) → KeepsFiled (probe environment config n applies)
  unfolding probe
  probed-KeepsFiled n applies = next (check_health-KeepsFiled environment config) (
      next (forward-KeepsFiled n) (
        next (remote_handler-KeepsFiled (probe_workers_for_status environment.network)) (
          bind (remote_handler-KeepsFiled (fetch_files environment.network)) λ finished.
            next
              (modify-KeepsFiled
                (λ s. record s { total_requests = s.total_requests + length finished }) λ s h. h)
              (next
                (modify-KeepsFiled (store_finished environment config finished)
                  (store_finished-IsFiled environment config finished))
                (next
                  (if-KeepsFiled applies (apply_state-KeepsFiled environment config)
                    (pure-KeepsFiled tt))
                  check_file_ttl-KeepsFiled)))))

  -- A probe that starts with every finished request filed once, under its id, ends so too, whether it
  -- returns or throws, whatever the limit on the rounds of the forwarding loop is.
  pub probe-IsFiled :
      (n : ℕ) (applies : Bool) (s : ServiceState W)
      → IsFiled s.finished_request
      → IsFiled (probe environment config n applies s).1.finished_request
  probe-IsFiled n applies s h =
      state_of (probe environment config n applies s) ((probed-KeepsFiled n applies).keeps s h)
