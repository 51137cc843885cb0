-- ===== src/Redis/Service/Probed.antt =====
-- The workers over a whole probe of packages/redis/src/service.ts.
use mathlib.Core.Path.{subst}
use dynamic_conversion_servi.Prelude.{
  ℕ, ◌+◌, ◌*◌, ◌-◌, Bool, true, false, not, ◌&&◌, Option, none, some, String, List, [], ◌∷◌, ◌≡◌,
  refl, sym, length, ltb, min, if◌then◌else◌,
}
use dynamic_conversion_servi.Prelude.Dict.{values, has, insert}
use dynamic_conversion_servi.Prelude.Action.{Result, ok, err, pure, modify, ◌>>=◌, ◌>>◌}
use dynamic_conversion_servi.Prelude.After.{After, After-bind, Holds, Holds-state, Holds-of_state}
use dynamic_conversion_servi.Prelude.Hoare.{Ran, Any, Ran-state}
use dynamic_conversion_servi.AutoScaler.{ScalerStatus, apply_configuration_state}
use dynamic_conversion_servi.Redis.Request.{FinishedRequest, ConversionRequest}
use dynamic_conversion_servi.Redis.Formats.{Directory, removed_path}
use dynamic_conversion_servi.Docker.Names.{first_part}
use dynamic_conversion_servi.Redis.Worker.{
  get_forwardable_request_count, get_idle_worker_ids, get_requests,
}
use dynamic_conversion_servi.Redis.Worker.Forward.{forward_requests}
use dynamic_conversion_servi.Redis.Worker.Probe.{probe_workers_for_status}
use dynamic_conversion_servi.Redis.Worker.Fetch.{fetch_files}
use dynamic_conversion_servi.Redis.Worker.Network.{Remote}
use dynamic_conversion_servi.Redis.Worker.Update.{update_workers}
use dynamic_conversion_servi.Redis.Worker.Valid.{IsValid, update_workers-IsValid}
use dynamic_conversion_servi.Redis.Worker.Safe.{IsValidHandler, probe_safe, fetch_files_safe}
use dynamic_conversion_servi.Redis.Service.{
  Environment, ServiceConfiguration, ServiceState, Service, scaler, handler, remote_handler,
  outside, get_pending_request_count,
}
use dynamic_conversion_servi.Redis.Service.Frame.{
  On, scaler-After, handler-After, remote_handler-Holds, pending-After,
}
use dynamic_conversion_servi.Redis.Service.Health.{check_health, apply_last, apply_state}
use dynamic_conversion_servi.Redis.Service.Loop.{
  pop_until, forward_requests_to_idle_workers, erase_finished, is_over, clean_file, clean_files,
  any_request, remove_orphans, clean_output, check_file_ttl, store_finished, probe,
}
use dynamic_conversion_servi.Redis.Service.Forwarded.{Never, popped_requests_fit}
use dynamic_conversion_servi.Redis.Service.Rescue.{IsHeld}
use dynamic_conversion_servi.Redis.Service.Checked.{check_health-After}

abbrev pub HasValidWorkers : {W : Type 0} → ServiceState W → Type 0
HasValidWorkers s = IsValid s.workers

module _ {S E A : Type 0} (F : S → Type 0) (Q : A → S → Type 0) where
  After-of_Never : (r : Result E A × S) → After Never Q r → After F Q r
  After-of_Never (ok a, t) h = h
  After-of_Never (err e, t) h = absurd h

module _ {W E : Type 0} (environment : Environment W E) (config : ServiceConfiguration) where
  workers-store_finished :
      (fs : List FinishedRequest) (s : ServiceState W)
      → (store_finished environment config fs s).workers ≡ s.workers
  workers-store_finished [] s = refl
  workers-store_finished (f ∷ fs) s =
      workers-store_finished fs (record s {
        finished_request = insert f.request.external_conversion_id f s.finished_request;
      })

  -- A call of the handler that ends with valid workers.
  remote-Holds :
      {A : Type 0} (m : Remote W A) (s : ServiceState W)
      → Ran IsValidHandler Any (m (record { workers = s.workers; finished = []; world = s.world }))
      → Holds HasValidWorkers (remote_handler {W = W} {E = E} m s)
  remote-Holds m s h =
      remote_handler-Holds E (λ ws q. IsValid ws) m s
        (Ran-state IsValidHandler Any
          (m (record { workers = s.workers; finished = []; world = s.world })) h)

  forward-Holds :
      (n : ℕ) (s : ServiceState W)
      → IsValid s.workers
      → Holds HasValidWorkers (forward_requests_to_idle_workers environment config n s)
  unfolding forward_requests_to_idle_workers
  forward-Holds n s valid =
      After-bind HasValidWorkers (λ _. HasValidWorkers) (λ _. HasValidWorkers)
        (get_pending_request_count environment config) _ s
        (pending-After environment config (λ ws q. IsValid ws) (λ ws q. IsValid ws) (λ ws q k. k) s
          valid)
        λ pending t v.
          let fits = min pending (
            get_forwardable_request_count config.auto_scaler_config.tasks_per_container
              t.workers) in
          let popping = pop_until environment config n fits [] in
          After-bind HasValidWorkers
            (λ requests u.
              (u.workers ≡ t.workers)
              × Ran IsValidHandler Any (
                  forward_requests environment.network requests
                    (record { workers = u.workers; finished = []; world = u.world })))
            (λ _. HasValidWorkers) popping _ t
            (After-of_Never HasValidWorkers _ (popping t)
              (popped_requests_fit environment config n pending t v))
            λ requests u (same, safe). Holds-state HasValidWorkers (dispatch requests u) (
              After-bind HasValidWorkers (λ _. HasValidWorkers) (λ _. HasValidWorkers)
                (remote_handler {W = W} {E = E} (forward_requests environment.network requests))
                (λ _. get_pending_request_count environment config >> pure tt) u
                (remote-Holds (forward_requests environment.network requests) u safe)
                λ _ x k.
                  After-bind HasValidWorkers (λ _. HasValidWorkers) (λ _. HasValidWorkers)
                    (get_pending_request_count environment config) (λ _. pure tt) x
                    (pending-After environment config (λ ws q. IsValid ws) (λ ws q. IsValid ws)
                      (λ ws q j. j) x k)
                    (λ _ y j. j))
    where
      dispatch : List ConversionRequest → Service W E (Unit {0})
      dispatch requests =
          remote_handler (forward_requests environment.network requests)
          >> (get_pending_request_count environment config >> pure tt)

  erase_finished-Holds :
      (id : String) (b : Bool) (s : ServiceState W)
      → IsValid s.workers
      → Holds HasValidWorkers (erase_finished {E = E} environment config id b s)
  erase_finished-Holds id true s v = v
  erase_finished-Holds id false s v = v

  clean_file-Holds :
      (now : ℕ) (f : FinishedRequest) (s : ServiceState W)
      → IsValid s.workers
      → Holds HasValidWorkers (clean_file environment config now f s)
  unfolding clean_file
  clean_file-Holds now f s v =
      at_tests (ltb (config.file_ttl * 1000) (now - f.finished_time))
        (is_over f.request.conversion_status)
    where
      at_tests :
          (old over : Bool)
          → Holds HasValidWorkers (
              (if old
                  then ((if over
                        then outside (
                            environment.network.delete_file
                              (removed_path environment.network.join Directory.output f.request))
                        else pure true)
                      >>= erase_finished environment config f.request.external_conversion_id)
                  else pure tt)
                s)
      at_tests true true = erase_finished-Holds f.request.external_conversion_id _ _ v
      at_tests true false = erase_finished-Holds f.request.external_conversion_id true s v
      at_tests false over = v

  clean_files-Holds :
      (now : ℕ) (fs : List FinishedRequest) (s : ServiceState W)
      → IsValid s.workers
      → Holds HasValidWorkers (clean_files environment config now fs s)
  unfolding clean_files
  clean_files-Holds now [] s v = v
  clean_files-Holds now (f ∷ fs) s v =
      After-bind HasValidWorkers (λ _. HasValidWorkers) (λ _. HasValidWorkers)
        (clean_file environment config now f) _ s (clean_file-Holds now f s v)
        (λ _ t k. clean_files-Holds now fs t k)

  remove_orphans-Holds :
      (files : List String) (s : ServiceState W)
      → IsValid s.workers
      → Holds HasValidWorkers (remove_orphans environment config files s)
  unfolding remove_orphans
  remove_orphans-Holds [] s v = v
  remove_orphans-Holds (file ∷ files) s v = at_test (remove_orphans-Holds files) (
      not (any_request environment config (first_part b'.' file) (get_requests s.workers))
      && not (has (first_part b'.' file) s.finished_request))
    where
      at_test :
          ((t : ServiceState W)
            → IsValid t.workers
            → Holds HasValidWorkers (remove_orphans environment config files t))
          → (orphaned : Bool)
          → Holds HasValidWorkers (
              ((if orphaned
                    then (outside {E = E} (environment.delete_orphan file) >> pure tt)
                    else pure tt)
                  >> remove_orphans environment config files)
                s)
      at_test continues true = continues _ v
      at_test continues false = continues s v

  clean_output-Holds :
      (files : Option (List String)) (s : ServiceState W)
      → IsValid s.workers
      → Holds HasValidWorkers (clean_output environment config files s)
  clean_output-Holds none s v = v
  clean_output-Holds (some files) s v = remove_orphans-Holds files s v

  check_file_ttl-Holds :
      (s : ServiceState W)
      → IsValid s.workers
      → Holds HasValidWorkers (check_file_ttl environment config s)
  unfolding check_file_ttl
  check_file_ttl-Holds s v =
      After-bind HasValidWorkers (λ _. HasValidWorkers) (λ _. HasValidWorkers)
        (clean_files environment config (environment.network.now s.world).0
          (values s.finished_request))
        (λ _. outside environment.read_output >>= λ files. clean_output environment config files)
        (record s { world = (environment.network.now s.world).1 })
        (clean_files-Holds (environment.network.now s.world).0 (values s.finished_request) _ v)
        (λ _ t k. clean_output-Holds (environment.read_output t.world).0 _ k)

  apply_last-Holds :
      (last : Option ScalerStatus) (s : ServiceState W)
      → IsValid s.workers
      → Holds HasValidWorkers (apply_last environment config last s)
  apply_last-Holds none s v = v
  apply_last-Holds (some status) s v =
      let scaling =
        apply_configuration_state environment.daemon config.auto_scaler_config status
          (some (get_idle_worker_ids s.workers)) none none in
      let is_local = config.auto_scaler_config.docker_config.is_local in
      After-bind HasValidWorkers (λ _. HasValidWorkers) (λ _. HasValidWorkers) (scaler scaling)
        (λ change.
          modify (λ t. record t { last_status = none }) >> handler (update_workers is_local change))
        s (scaler-After E (λ ws q. IsValid ws) (λ ws q. IsValid ws) scaling s v v)
        λ change t k.
          handler-After E (λ ws q. IsValid ws) (λ _ ws q. IsValid ws)
            (update_workers is_local change) (record t { last_status = none })
            (Holds-of_state IsValid (update_workers is_local change t.workers)
              (update_workers-IsValid is_local change t.workers k))

  apply_state-Holds :
      (applies : Bool) (s : ServiceState W)
      → IsValid s.workers
      → Holds HasValidWorkers ((if applies then apply_state environment config else pure tt) s)
  unfolding apply_state
  apply_state-Holds true s v = apply_last-Holds s.last_status s v
  apply_state-Holds false s v = v

  check_health-Holds :
      (s : ServiceState W)
      → IsValid s.workers
      → Holds HasValidWorkers (check_health environment config s)
  check_health-Holds s v =
      Holds-of_state HasValidWorkers (check_health environment config s)
        (Holds-state (On (IsHeld true "")) (check_health environment config s)
          (check_health-After environment config true "" s (v, refl))).0

  -- From valid workers a whole probe (health check, forwarding, status probe, fetch, scaling and
  -- cleaning) ends with valid workers, whether it returns or throws, however the containers, the queue
  -- and the network answer.
  pub probe-IsValid :
      (n : ℕ) (applies : Bool) (s : ServiceState W)
      → IsValid s.workers
      → IsValid (probe environment config n applies s).1.workers
  unfolding probe
  probe-IsValid n applies s valid =
      Holds-state HasValidWorkers (probe environment config n applies s) (
        then_with (check_health environment config) _ s (check_health-Holds s valid) λ _ t h1.
          then_with (forward_requests_to_idle_workers environment config n) _ t
            (forward-Holds n t h1)
            λ _ u h2.
              then_with (remote_handler (probe_workers_for_status environment.network)) _ u
                (remote-Holds (probe_workers_for_status environment.network) u
                  (probe_safe environment.network _ h2))
                λ _ v h3.
                  then_with (remote_handler (fetch_files environment.network)) _ v
                    (remote-Holds (fetch_files environment.network) v
                      (fetch_files_safe environment.network _ h3))
                    λ finished w h4.
                      then_with
                        (λ x. (if applies then apply_state environment config else pure tt) x)
                        (λ _. check_file_ttl environment config) (stored finished w)
                        (apply_state-Holds applies (stored finished w) (
                          subst IsValid (sym (workers-store_finished finished (counted finished w)))
                            h4))
                        (λ _ y k. check_file_ttl-Holds y k))
    where
      counted : List FinishedRequest → ServiceState W → ServiceState W
      counted finished w = record w { total_requests = w.total_requests + length finished }

      stored : List FinishedRequest → ServiceState W → ServiceState W
      stored finished w = store_finished environment config finished (counted finished w)

      then_with :
          {A B : Type 0} (m : Service W E A) (f : A → Service W E B) (t : ServiceState W)
          → Holds HasValidWorkers (m t)
          → ((a : A) (u : ServiceState W) → IsValid u.workers → Holds HasValidWorkers (f a u))
          → Holds HasValidWorkers ((m >>= f) t)
      then_with m f t =
          After-bind HasValidWorkers (λ _. HasValidWorkers) (λ _. HasValidWorkers) m f t
