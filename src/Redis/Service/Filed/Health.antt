-- ===== src/Redis/Service/Filed/Health.antt =====
-- packages/redis/src/service.ts: the finished requests through `checkHealth` and `applyState`.
use dynamic_conversion_servi.Prelude.{
  ℕ, String, Option, none, some, List, [], ◌∷◌, ◌+◌, not, filter,
}
use dynamic_conversion_servi.Prelude.Dict.{insert}
use dynamic_conversion_servi.Docker.{ContainerInfo}
use dynamic_conversion_servi.AutoScaler.{
  ScalerStatus, check_container_status, apply_configuration_state, scaler_remove_container,
}
use dynamic_conversion_servi.Redis.Request.{ConversionRequest}
use dynamic_conversion_servi.Redis.Worker.{
  has_worker_id, get_container_name, get_requests_from_worker, get_request_count,
  get_idle_worker_ids,
}
use dynamic_conversion_servi.Redis.Wrapper.{get_pending_messages_count, send_message}
use dynamic_conversion_servi.Redis.Service.{
  Environment, ServiceConfiguration, scaler, add_request_to_queue, get_pending_request_count,
}
use dynamic_conversion_servi.Redis.Service.Health.{
  requeued, remove_dangling, requeue_all, remove_unhealthy, update_containers, check_health,
  apply_state, apply_last,
}
use dynamic_conversion_servi.Redis.Formats.{is_starting_or_healthy}
use dynamic_conversion_servi.Redis.Worker.Update.{
  remove_worker, update_workers, update_worker_container,
}
use dynamic_conversion_servi.Redis.Service.Filed.Steps.{
  bind, next, scaler-KeepsFiled, if-KeepsFiled, wrapper-KeepsFiled, handler-KeepsFiled,
  pure-KeepsFiled, gets-KeepsFiled, modify-KeepsFiled, KeepsFiled,
}

module _ {W E : Type 0} (environment : Environment W E) (config : ServiceConfiguration) where
  pub count-KeepsFiled : KeepsFiled (get_pending_request_count environment config)
  unfolding get_pending_request_count
  count-KeepsFiled = wrapper-KeepsFiled (get_pending_messages_count environment.rsmq config.queue)

  add_request-KeepsFiled :
      (r : ConversionRequest) → KeepsFiled (add_request_to_queue environment config r)
  unfolding add_request_to_queue
  add_request-KeepsFiled r =
      next
        (wrapper-KeepsFiled (send_message environment.rsmq config.queue (environment.stringify r)))
        (next
          (modify-KeepsFiled
            (λ s. record s {
              requests_in_queue = insert r.external_conversion_id r s.requests_in_queue;
            })
            λ s h. h)
          (next count-KeepsFiled (pure-KeepsFiled tt)))

  requeue_all-KeepsFiled :
      (rs : List ConversionRequest) → KeepsFiled (requeue_all environment config rs)
  unfolding requeue_all
  requeue_all-KeepsFiled [] = pure-KeepsFiled tt
  requeue_all-KeepsFiled (r ∷ rs) =
      next (add_request-KeepsFiled (requeued r)) (requeue_all-KeepsFiled rs)

  remove-KeepsFiled :
      (id : String)
      → KeepsFiled {W = W} {E = E}
          (scaler (scaler_remove_container environment.daemon config.auto_scaler_config id))
  remove-KeepsFiled id =
      scaler-KeepsFiled (scaler_remove_container environment.daemon config.auto_scaler_config id)

  remove_dangling-KeepsFiled :
      (cs : List ContainerInfo) → KeepsFiled (remove_dangling environment config cs)
  unfolding remove_dangling
  remove_dangling-KeepsFiled [] = pure-KeepsFiled tt
  remove_dangling-KeepsFiled (c ∷ cs) =
      bind (gets-KeepsFiled λ s. has_worker_id c.container_id s.workers) λ known.
        next
          (if-KeepsFiled known (pure-KeepsFiled tt)
            (next (remove-KeepsFiled c.container_id) (pure-KeepsFiled tt)))
          (remove_dangling-KeepsFiled cs)

  remove_unhealthy-KeepsFiled :
      (cs : List ContainerInfo) → KeepsFiled (remove_unhealthy environment config cs)
  unfolding remove_unhealthy
  remove_unhealthy-KeepsFiled [] = pure-KeepsFiled tt
  remove_unhealthy-KeepsFiled (c ∷ cs) =
      bind (handler-KeepsFiled (get_requests_from_worker c.container_id)) λ requests.
        next (requeue_all-KeepsFiled requests) (
          next (handler-KeepsFiled (get_container_name c.container_id)) (
            next (remove-KeepsFiled c.container_id) (
              next (handler-KeepsFiled (remove_worker c.container_id))
                (remove_unhealthy-KeepsFiled cs))))

  update_containers-KeepsFiled :
      (cs : List ContainerInfo) → KeepsFiled (update_containers environment config cs)
  unfolding update_containers
  update_containers-KeepsFiled [] = pure-KeepsFiled tt
  update_containers-KeepsFiled (c ∷ cs) =
      next (handler-KeepsFiled (update_worker_container c.container_id c))
        (update_containers-KeepsFiled cs)

  status-KeepsFiled :
      (n : ℕ)
      → KeepsFiled {W = W} {E = E}
          (scaler (check_container_status environment.daemon config.auto_scaler_config n))
  status-KeepsFiled n =
      scaler-KeepsFiled (check_container_status environment.daemon config.auto_scaler_config n)

  pub check_health-KeepsFiled : KeepsFiled (check_health environment config)
  unfolding check_health
  check_health-KeepsFiled = bind count-KeepsFiled λ pending.
      bind (gets-KeepsFiled λ s. get_request_count s.workers) λ in_progress.
        bind (status-KeepsFiled (pending + in_progress)) λ status.
          next (remove_dangling-KeepsFiled status.running_containers) (
            bind (gets-KeepsFiled λ s. s.workers) λ workers.
              next
                (remove_unhealthy-KeepsFiled (
                  filter (λ c. not (is_starting_or_healthy c.container_health_status))
                    (filter (λ c. has_worker_id c.container_id workers) status.running_containers)))
                (bind (gets-KeepsFiled λ s. get_request_count s.workers) λ left.
                  bind (status-KeepsFiled (pending + left)) λ last.
                    next (modify-KeepsFiled (λ s. record s { last_status = some last }) λ s h. h)
                      (update_containers-KeepsFiled last.running_containers)))

  apply_last-KeepsFiled :
      (last : Option ScalerStatus) → KeepsFiled (apply_last environment config last)
  apply_last-KeepsFiled none = pure-KeepsFiled tt
  apply_last-KeepsFiled (some status) =
      bind (gets-KeepsFiled λ s. get_idle_worker_ids s.workers) λ idle.
        bind
          (scaler-KeepsFiled (
            apply_configuration_state environment.daemon config.auto_scaler_config status
              (some idle) none none))
          λ change. next (modify-KeepsFiled (λ s. record s { last_status = none }) λ s h. h) (
            handler-KeepsFiled
              (update_workers config.auto_scaler_config.docker_config.is_local change))

  pub apply_state-KeepsFiled : KeepsFiled (apply_state environment config)
  unfolding apply_state
  apply_state-KeepsFiled = bind (gets-KeepsFiled λ s. s.last_status) apply_last-KeepsFiled
