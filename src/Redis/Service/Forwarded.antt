-- ===== src/Redis/Service/Forwarded.antt =====
-- `forwardRequestsToIdleWorkers` of packages/redis/src/service.ts: what is popped fits the workers.
use dynamic_conversion_servi.Prelude.{
  ℕ, zero, suc, ◌≤◌, Option, none, some, List, [], ◌≡◌, refl, sym, arith, length, length-filter-le,
  filter, ◌&&◌, min, ltb, Bool-cases, inl, inr,
}
use mathlib.Core.Path.{subst}
use dynamic_conversion_servi.Prelude.Dict.{Dict, erase, values}
use dynamic_conversion_servi.Prelude.Action.{Result, ok, err, pure, or_raise, modify, ◌>>=◌, ◌>>◌}
use dynamic_conversion_servi.Prelude.After.{After-weaken, After, After-bind, Holds}
use dynamic_conversion_servi.Prelude.Hoare.{Ran, Any}
use dynamic_conversion_servi.Redis.Request.{ConversionRequest, WorkerInfo, Workers}
use dynamic_conversion_servi.Redis.Formats.{is_healthy}
use dynamic_conversion_servi.Redis.Worker.{get_worker_count, get_forwardable_request_count}
use dynamic_conversion_servi.Redis.Worker.Forward.{forward_requests}
use dynamic_conversion_servi.Redis.Worker.Valid.{IsValid}
use dynamic_conversion_servi.Redis.Worker.Safe.{IsValidHandler, forward_requests_safe}
use dynamic_conversion_servi.Redis.Wrapper.{receive_message}
use dynamic_conversion_servi.Redis.Service.{
  Environment, ServiceConfiguration, ServiceState, ServiceError, Service, wrapper, parsed,
  pop_request,
}
use dynamic_conversion_servi.Redis.Service.Frame.{On, wrapper-After}
use dynamic_conversion_servi.Redis.Service.Loop.{attempt, pushed, pop_until}
use dynamic_conversion_servi.Redis.Service.Laws.{length-pushed}

-- No throw.
abbrev pub Never : {S : Type 0} → S → Type 0
Never s = ⊥

module _ {W E A : Type 0} (F : ServiceState W → Type 0) where
  pub attempt-After :
      (m : Service W E A) (s : ServiceState W) → Holds F (m s) → After Never (λ _. F) (attempt m s)
  attempt-After m s h = at_result (m s) h
    where
      at_result :
          (r : Result (ServiceError E) A × ServiceState W)
          → Holds F r
          → After Never (λ _. F) (attempt {W = W} (λ _. r) s)
      at_result (ok a, t) k = k
      at_result (err e, t) k = k

module _ {W E : Type 0} (environment : Environment W E) (config : ServiceConfiguration) where
  -- Popping leaves the workers alone.
  pop_request-Holds :
      (F : Workers → Type 0) (s : ServiceState W)
      → F s.workers
      → Holds (On (λ ws q. F ws)) (pop_request environment config s)
  unfolding pop_request
  pop_request-Holds F s h =
      After-bind (On G) (λ _. On G) (λ _. On G)
        (wrapper (receive_message environment.rsmq config.queue)) _ s
        (wrapper-After E G G (receive_message environment.rsmq config.queue) s h h)
        λ message t k. read (parsed environment config message) t k
    where
      G : Workers → Dict ConversionRequest → Type 0
      G ws q = F ws

      read :
          (o : Option ConversionRequest) (t : ServiceState W)
          → F t.workers
          → Holds (On G) (
              (or_raise {E = ServiceError E} o ServiceError.syntax_error >>= λ r.
              modify (λ u. record u {
                requests_in_queue = erase r.external_conversion_id u.requests_in_queue;
              })
              >> pure r)
                t)
      read none t k = k
      read (some r) t k = k

  -- What the popping loop gives: no throw, the workers as they were, no more than the target.
  abbrev pub IsPopped : Workers → ℕ → List ConversionRequest → ServiceState W → Type 0
  IsPopped ws target taken t = (t.workers ≡ ws) × (length taken ≤ target)

  pop_until-After :
      (n target : ℕ) (requests : List ConversionRequest) (s : ServiceState W)
      → length requests ≤ target
      → After Never (IsPopped s.workers target) (pop_until environment config n target requests s)
  unfolding pop_until
  pop_until-After zero target requests s h = (refl, h)
  pop_until-After (suc n) target requests s h = elim (Bool-cases (ltb (length requests) target)) [
    | inl more ↦ rw more (
        After-bind Never (λ _ (t : ServiceState W). t.workers ≡ s.workers)
          (IsPopped s.workers target) (attempt (pop_request environment config))
          (λ popped. pop_until environment config n target (pushed requests popped)) s
          (attempt-After (λ (t : ServiceState W). t.workers ≡ s.workers)
            (pop_request environment config) s (pop_request-Holds (λ ws. ws ≡ s.workers) s refl))
          λ popped t same.
            subst
              (λ ws.
                After Never (IsPopped ws target)
                  (pop_until environment config n target (pushed requests popped) t))
              same
              (pop_until-After n target (pushed requests popped) t
                (length-pushed popped requests target (ground (arith, more)))))
    | inr enough ↦ rw enough (refl, h)
  ]

  -- What the loop pops never exceeds the workers, so that forwarding it does not throw: with valid
  -- workers, popping for as many requests as wait and as the workers can take returns, leaves the
  -- workers as they were, and forwarding what it returns ends without a throw and with valid workers,
  -- however `rsmq` and the network answer.
  pub popped_requests_fit :
      (n pending : ℕ) (s : ServiceState W)
      → IsValid s.workers
      → let forwardable =
          get_forwardable_request_count config.auto_scaler_config.tasks_per_container s.workers in
        After Never
          (λ requests t.
            (t.workers ≡ s.workers)
            × Ran IsValidHandler Any (
                forward_requests environment.network requests
                  (record { workers = t.workers; finished = []; world = t.world })))
          (pop_until environment config n (min pending forwardable) [] s)
  unfolding get_forwardable_request_count get_worker_count
  popped_requests_fit n pending s valid =
      let workable = λ (w : WorkerInfo).
        ltb (length w.requests) config.auto_scaler_config.tasks_per_container
        && is_healthy w.container_info.container_health_status in
      let target = min pending (length (filter workable (values s.workers))) in
      After-weaken Never (IsPopped s.workers target) _ (pop_until environment config n target [] s)
        (pop_until-After n target [] s (omega arith))
        λ requests t (same, fits). (
          same,
          forward_requests_safe environment.network requests
              (record { workers = t.workers; finished = []; world = t.world })
              (subst IsValid (sym same) valid)
              (subst (λ ws. length requests ≤ get_worker_count ws) (sym same)
                (omega (arith, fits, length-filter-le workable (values s.workers)))),
        )
