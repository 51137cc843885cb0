-- ===== src/Redis/Service/Checked.antt =====
-- `checkHealth` and `applyState` of packages/redis/src/service.ts: where a request is afterwards.
use dynamic_conversion_servi.Prelude.{
  String, Bool, true, false, not, ◌||◌, List, [], ◌∷◌, ◌≡◌, arith, filter, if◌then◌else◌, ◌+◌, some,
}
use dynamic_conversion_servi.Prelude.Dict.{Dict, has}
use dynamic_conversion_servi.Prelude.Action.{pure, ◌>>◌}
use dynamic_conversion_servi.Prelude.After.{After, After-bind, Holds, Holds-state}
use dynamic_conversion_servi.Docker.{ContainerInfo}
use dynamic_conversion_servi.AutoScaler.{check_container_status, scaler_remove_container}
use dynamic_conversion_servi.Redis.Request.{ConversionRequest, Workers}
use dynamic_conversion_servi.Redis.Formats.{is_starting_or_healthy}
use dynamic_conversion_servi.Redis.Worker.{
  has_worker_id, get_container_name, get_requests_from_worker, get_request_count,
}
use dynamic_conversion_servi.Redis.Worker.Update.{remove_worker, update_worker_container}
use dynamic_conversion_servi.Redis.Worker.Valid.{IsValid}
use dynamic_conversion_servi.Redis.Worker.Track.{assigned}
use dynamic_conversion_servi.Redis.Service.{
  Environment, ServiceConfiguration, ServiceState, Service, scaler, handler, add_request_to_queue,
  get_pending_request_count,
}
use dynamic_conversion_servi.Redis.Service.Frame.{
  On, scaler-After, handler-After, pending-After, add_request-After,
}
use dynamic_conversion_servi.Redis.Service.Rescue.{
  IsHeld, IsMoving, has-insert, get_requests-After, name-After, remove_worker-After,
  update_container-After,
}
use dynamic_conversion_servi.Redis.Service.Health.{
  requeued, remove_dangling, requeue_all, remove_unhealthy, update_containers, check_health,
}

module _ {W E : Type 0} (environment : Environment W E) (config : ServiceConfiguration)
    (free : Bool) (id : String) where
  requeue_all-After :
      (key : String) (all rs : List ConversionRequest) (s : ServiceState W)
      → On (IsMoving free id key all rs) s
      → After
          (On (IsHeld free id))
          (λ _. On (IsMoving free id key all []))
          (requeue_all environment config rs s)
  unfolding requeue_all
  requeue_all-After key all [] s h = h
  requeue_all-After key all (r ∷ rs) s (held, worker, moved) =
      After-bind (On (IsHeld free id)) (λ _. On (IsMoving free id key all rs))
        (λ _. On (IsMoving free id key all []))
        (add_request_to_queue environment config (requeued r))
        (λ _. requeue_all environment config rs) s
        (add_request-After environment config (IsHeld free id) (IsMoving free id key all rs)
          (λ ws q m. m.0) (requeued r) s held
          (
            (held.0, ground (arith, held.1, has-insert id (requeued r) s.requests_in_queue)),
            worker,
            ground (arith, moved, has-insert id (requeued r) s.requests_in_queue),
          ))
        (λ _ t m. requeue_all-After key all rs t m)

  abbrev Held : ServiceState W → Type 0
  Held = On (IsHeld free id)

  -- The end of the round for an unhealthy worker whose requests are queued again.
  retire-After :
      (key : String) (rs : List ConversionRequest) (next : Service W E (Unit {0}))
      → ((t : ServiceState W) → Held t → Holds Held (next t))
      → (s : ServiceState W) → On (IsMoving free id key rs []) s
      → Holds Held (
          (handler {W = W} {E = E} (get_container_name key)
              >> (scaler (scaler_remove_container environment.daemon config.auto_scaler_config key)
                  >> (handler (remove_worker key) >> next)))
            s)
  retire-After key rs next continues s moved =
      let moving = λ (ws : Workers) (q : Dict ConversionRequest). IsMoving free id key rs [] ws q in
      After-bind Held (λ _. On moving) (λ _. Held) (handler (get_container_name key)) _ s
        (handler-After E (IsHeld free id) (λ _. moving) (get_container_name key) s
          (name-After key (λ ws. IsHeld free id ws s.requests_in_queue)
            (λ ws. moving ws s.requests_in_queue) s.workers moved.0 moved))
        λ _ t m.
          After-bind Held (λ _. On moving) (λ _. Held)
            (scaler (scaler_remove_container environment.daemon config.auto_scaler_config key))
            (λ _. handler (remove_worker key) >> next) t
            (scaler-After E (IsHeld free id) moving
              (scaler_remove_container environment.daemon config.auto_scaler_config key) t m.0 m)
            λ _ u k.
              After-bind Held (λ _. Held) (λ _. Held) (handler (remove_worker key)) (λ _. next) u
                (handler-After E (IsHeld free id) (λ _. IsHeld free id) (remove_worker key) u
                  (remove_worker-After free id key rs u.workers u.requests_in_queue k))
                (λ _ v held. continues v held)

  remove_unhealthy-After :
      (cs : List ContainerInfo) (s : ServiceState W)
      → On (IsHeld free id) s
      → Holds (On (IsHeld free id)) (remove_unhealthy environment config cs s)
  unfolding remove_unhealthy
  remove_unhealthy-After [] s h = h
  remove_unhealthy-After (c ∷ cs) s h =
      let key = c.container_id in
      After-bind Held (λ rs. On (IsMoving free id key rs rs)) (λ _. Held)
        (handler (get_requests_from_worker key)) _ s
        (handler-After E (IsHeld free id) (λ rs. IsMoving free id key rs rs)
          (get_requests_from_worker key) s
          (get_requests-After free id key s.workers s.requests_in_queue h))
        λ rs t moving.
          After-bind Held (λ _. On (IsMoving free id key rs [])) (λ _. Held)
            (requeue_all environment config rs) _ t (requeue_all-After key rs rs t moving)
            λ _ u moved.
              retire-After key rs (remove_unhealthy environment config cs)
                (λ v held. remove_unhealthy-After cs v held) u moved

  update_containers-After :
      (cs : List ContainerInfo) (s : ServiceState W)
      → Held s
      → Holds Held (update_containers {W = W} {E = E} environment config cs s)
  unfolding update_containers
  update_containers-After [] s h = h
  update_containers-After (c ∷ cs) s h =
      After-bind Held (λ _. Held) (λ _. Held) (handler (update_worker_container c.container_id c)) _
        s
        (handler-After E (IsHeld free id) (λ _. IsHeld free id)
          (update_worker_container c.container_id c) s
          (update_container-After free id c s.workers s.requests_in_queue h))
        (λ _ t k. update_containers-After cs t k)

  remove_dangling-After :
      (cs : List ContainerInfo) (s : ServiceState W)
      → Held s
      → Holds Held (remove_dangling environment config cs s)
  unfolding remove_dangling
  remove_dangling-After [] s h = h
  remove_dangling-After (c ∷ cs) s h =
      After-bind Held (λ _. Held) (λ _. Held)
        (λ t.
          (if has_worker_id c.container_id s.workers
              then pure tt
              else (scaler (
                    scaler_remove_container environment.daemon config.auto_scaler_config
                      c.container_id)
                  >> pure tt))
            t)
        (λ _. remove_dangling environment config cs) s
        (by_test (has_worker_id c.container_id s.workers)) (λ _ t k. remove_dangling-After cs t k)
    where
      by_test :
          (b : Bool)
          → Holds Held (
              (if b
                  then pure tt
                  else (scaler (
                        scaler_remove_container environment.daemon config.auto_scaler_config
                          c.container_id)
                      >> pure tt))
                s)
      by_test true = h
      by_test false =
          After-bind Held (λ _. Held) (λ _. Held)
            (scaler
              (scaler_remove_container environment.daemon config.auto_scaler_config c.container_id))
            (λ _. pure tt) s
            (scaler-After E (IsHeld free id) (IsHeld free id)
              (scaler_remove_container environment.daemon config.auto_scaler_config c.container_id)
              s h h)
            (λ _ t k. k)

  pub check_health-After :
      (s : ServiceState W) → Held s → Holds Held (check_health environment config s)
  unfolding check_health
  check_health-After s h =
      After-bind Held (λ _. Held) (λ _. Held) (get_pending_request_count environment config) _ s
        (pending-After environment config (IsHeld free id) (IsHeld free id) (λ ws q k. k) s h)
        λ pending t h1.
          After-bind Held (λ _. Held) (λ _. Held)
            (scaler (
              check_container_status environment.daemon config.auto_scaler_config
                (pending + get_request_count t.workers)))
            _ t
            (scaler-After E (IsHeld free id) (IsHeld free id)
              (check_container_status environment.daemon config.auto_scaler_config
                (pending + get_request_count t.workers))
              t h1 h1)
            λ status u h2.
              After-bind Held (λ _. Held) (λ _. Held)
                (remove_dangling environment config status.running_containers) _ u
                (remove_dangling-After status.running_containers u h2)
                λ _ v h3.
                  let unhealthy =
                    filter
                      (λ (c : ContainerInfo).
                        not (is_starting_or_healthy c.container_health_status))
                      (filter (λ (c : ContainerInfo). has_worker_id c.container_id v.workers)
                        status.running_containers) in
                  After-bind Held (λ _. Held) (λ _. Held)
                    (remove_unhealthy environment config unhealthy) _ v
                    (remove_unhealthy-After unhealthy v h3)
                    λ _ w h4.
                      After-bind Held (λ _. Held) (λ _. Held)
                        (scaler (
                          check_container_status environment.daemon config.auto_scaler_config
                            (pending + get_request_count w.workers)))
                        _ w
                        (scaler-After E (IsHeld free id) (IsHeld free id)
                          (check_container_status environment.daemon config.auto_scaler_config
                            (pending + get_request_count w.workers))
                          w h4 h4)
                        λ last x h5.
                          update_containers-After last.running_containers
                            (record x { last_status = some last }) h5

-- From valid workers, `checkHealth` forgets no request, whether it returns or throws: an external id that
-- is at a worker or in the record of the queued requests before is so afterwards, and the workers are
-- valid.
pub check_health-holds :
    {W E : Type 0} (environment : Environment W E) (config : ServiceConfiguration) (id : String)
    (s : ServiceState W)
    → IsValid s.workers
    → (assigned id s.workers || has id s.requests_in_queue) ≡ true
    → let t = (check_health environment config s).1 in
      IsValid t.workers × ((assigned id t.workers || has id t.requests_in_queue) ≡ true)
check_health-holds environment config id s valid held =
    Holds-state (On (IsHeld false id)) (check_health environment config s)
      (check_health-After environment config false id s (valid, held))
