-- ===== src/Redis/Service/Health.antt =====
-- packages/redis/src/service.ts: `checkHealth` and `applyState`.
use dynamic_conversion_servi.Prelude.{
  ◌+◌, not, Option, none, some, List, [], ◌∷◌, filter, if◌then◌else◌,
}
use dynamic_conversion_servi.Prelude.Action.{pure, gets, modify, ◌>>=◌, ◌>>◌}
use dynamic_conversion_servi.Docker.{ContainerInfo}
use dynamic_conversion_servi.AutoScaler.{
  ScalerStatus, check_container_status, apply_configuration_state, scaler_remove_container,
}
use dynamic_conversion_servi.Redis.Request.{ConversionStatus, WorkerConversionId, ConversionRequest}
use dynamic_conversion_servi.Redis.Formats.{is_starting_or_healthy}
use dynamic_conversion_servi.Redis.Worker.{
  has_worker_id, get_container_name, get_requests_from_worker, get_request_count,
  get_idle_worker_ids,
}
use dynamic_conversion_servi.Redis.Worker.Update.{
  remove_worker, update_workers, update_worker_container,
}
use dynamic_conversion_servi.Redis.Service.{
  Environment, ServiceConfiguration, Service, scaler, handler, add_request_to_queue,
  get_pending_request_count,
}

-- A request as it is queued again.
abbrev pub requeued : ConversionRequest → ConversionRequest
requeued request = record request {
  conversion_status = ConversionStatus.in_queue;
  worker_conversion_id = WorkerConversionId.null;
}

module _ {W E : Type 0} (environment : Environment W E) (config : ServiceConfiguration) where
  -- The first loop: a running container that is no worker is removed.
  unfoldable pub remove_dangling : List ContainerInfo → Service W E (Unit {0})
  remove_dangling [] = pure tt
  remove_dangling (c ∷ cs) = do
    known ← gets (λ s. has_worker_id c.container_id s.workers)
    if known
        then pure tt
        else (scaler
              (scaler_remove_container environment.daemon config.auto_scaler_config c.container_id)
            >> pure tt)
    remove_dangling cs

  unfoldable pub requeue_all : List ConversionRequest → Service W E (Unit {0})
  requeue_all [] = pure tt
  requeue_all (r ∷ rs) = do add_request_to_queue environment config (requeued r); requeue_all rs

  -- The second loop: an unhealthy worker's requests are queued again, and it is removed.
  unfoldable pub remove_unhealthy : List ContainerInfo → Service W E (Unit {0})
  unfolding requeue_all
  remove_unhealthy [] = pure tt
  remove_unhealthy (c ∷ cs) = do
    requests ← handler (get_requests_from_worker c.container_id)
    requeue_all requests
    handler (get_container_name c.container_id)
    scaler (scaler_remove_container environment.daemon config.auto_scaler_config c.container_id)
    handler (remove_worker c.container_id)
    remove_unhealthy cs

  unfoldable pub update_containers : List ContainerInfo → Service W E (Unit {0})
  update_containers [] = pure tt
  update_containers (c ∷ cs) = do
    handler (update_worker_container c.container_id c)
    update_containers cs

  -- `checkHealth`
  unfoldable pub check_health : Service W E (Unit {0})
  unfolding remove_dangling remove_unhealthy update_containers
  check_health = do
    pending ← get_pending_request_count environment config
    in_progress ← gets (λ s. get_request_count s.workers)
    status ← scaler (
        check_container_status environment.daemon config.auto_scaler_config (pending + in_progress))
    remove_dangling status.running_containers
    workers ← gets (λ s. s.workers)
    remove_unhealthy (
        filter (λ c. not (is_starting_or_healthy c.container_health_status))
          (filter (λ c. has_worker_id c.container_id workers) status.running_containers))
    left ← gets (λ s. get_request_count s.workers)
    last ←
        scaler
          (check_container_status environment.daemon config.auto_scaler_config (pending + left))
    modify (λ s. record s { last_status = some last })
    update_containers last.running_containers

  -- `applyState`
  abbrev pub apply_last : Option ScalerStatus → Service W E (Unit {0})
  apply_last none = pure tt
  apply_last (some status) = do
    idle ← gets (λ s. get_idle_worker_ids s.workers)
    change ← scaler (
        apply_configuration_state environment.daemon config.auto_scaler_config status (some idle)
          none none)
    modify (λ s. record s { last_status = none })
    handler (update_workers config.auto_scaler_config.docker_config.is_local change)

  unfoldable pub apply_state : Service W E (Unit {0})
  apply_state = do last ← gets (λ s. s.last_status); apply_last last
