-- ===== src/Redis/Service/Frame.antt =====
-- What the calls of the service's parts leave alone.
use dynamic_conversion_servi.Prelude.{[]}
use dynamic_conversion_servi.Prelude.Action.{Result, ok, err, Action, pure}
use dynamic_conversion_servi.Prelude.After.{After, After-bind, Holds}
use dynamic_conversion_servi.Docker.{DockerState}
use dynamic_conversion_servi.AutoScaler.{ScalerError}
use dynamic_conversion_servi.Redis.Request.{ConversionRequest, Workers}
use dynamic_conversion_servi.Prelude.Dict.{Dict, insert}
use dynamic_conversion_servi.Redis.Worker.{WorkerError, Handler}
use dynamic_conversion_servi.Redis.Worker.Network.{HandlerState, Remote}
use dynamic_conversion_servi.Redis.Wrapper.{
  WrapperError, WrapperState, WrapperAction, get_pending_messages_count, send_message,
}
use dynamic_conversion_servi.Redis.Service.{
  ServiceState, scaler, wrapper, handler, remote_handler, Environment, ServiceConfiguration,
  get_pending_request_count, add_request_to_queue,
}

-- A claim about the service's workers and queued requests only.
abbrev pub On : {W : Type 0} → (Workers → Dict ConversionRequest → Type 0) → ServiceState W → Type 0
On F s = F s.workers s.requests_in_queue

-- The scaler and the wrapper reach neither.
module _ {W A : Type 0} (E : Type 0) (F G : Workers → Dict ConversionRequest → Type 0) where
  pub scaler-After :
      (m : Action (DockerState W) (ScalerError E) A) (s : ServiceState W)
      → On F s
      → On G s
      → After (On F) (λ _. On G) (scaler {W = W} {E = E} m s)
  scaler-After m s h k = at_result (m (record { has_image = s.has_image; world = s.world }))
    where
      at_result :
          (r : Result (ScalerError E) A × DockerState W)
          → After (On F) (λ _. On G) (scaler {W = W} (λ _. r) s)
      at_result (ok a, t) = k
      at_result (err e, t) = h

  pub wrapper-After :
      (m : WrapperAction W A) (s : ServiceState W)
      → On F s
      → On G s
      → After (On F) (λ _. On G) (wrapper {W = W} {E = E} m s)
  wrapper-After m s h k =
      at_result (m (record { is_initialized = s.is_initialized; world = s.world }))
    where
      at_result :
          (r : Result WrapperError A × WrapperState W)
          → After (On F) (λ _. On G) (wrapper {W = W} {E = E} (λ _. r) s)
      at_result (ok a, t) = k
      at_result (err e, t) = h

module _ {W A : Type 0} (E : Type 0) (F : Workers → Dict ConversionRequest → Type 0) where
  pub handler-After :
      (G : A → Workers → Dict ConversionRequest → Type 0) (m : Handler A) (s : ServiceState W)
      → After (λ ws. F ws s.requests_in_queue) (λ a ws. G a ws s.requests_in_queue) (m s.workers)
      → After (On F) (λ a. On (G a)) (handler {W = W} {E = E} m s)
  handler-After G m s h = at_result (m s.workers) h
    where
      at_result :
          (r : Result WorkerError A × Workers)
          → After (λ ws. F ws s.requests_in_queue) (λ a ws. G a ws s.requests_in_queue) r
          → After (On F) (λ a. On (G a)) (handler {W = W} {E = E} (λ _. r) s)
      at_result (ok a, ws) k = k
      at_result (err e, ws) k = k

  pub remote_handler-Holds :
      (m : Remote W A) (s : ServiceState W)
      → F
          (m (record { workers = s.workers; finished = []; world = s.world })).1.workers
          s.requests_in_queue
      → Holds (On F) (remote_handler {W = W} {E = E} m s)
  remote_handler-Holds m s h =
      at_result (m (record { workers = s.workers; finished = []; world = s.world })) h
    where
      at_result :
          (r : Result WorkerError A × HandlerState W)
          → F r.1.workers s.requests_in_queue
          → Holds (On F) (remote_handler {W = W} {E = E} (λ _. r) s)
      at_result (ok a, t) k = k
      at_result (err e, t) k = k

module _ {W E : Type 0} (environment : Environment W E) (config : ServiceConfiguration)
    (F G : Workers → Dict ConversionRequest → Type 0)
    (weaken : (ws : Workers) (q : Dict ConversionRequest) → G ws q → F ws q) where
  pub pending-After :
      (s : ServiceState W)
      → On G s
      → After (On F) (λ _. On G) (get_pending_request_count environment config s)
  unfolding get_pending_request_count
  pending-After s k =
      wrapper-After E F G (get_pending_messages_count environment.rsmq config.queue) s
        (weaken s.workers s.requests_in_queue k) k

  -- A request is added between the message and the count.
  pub add_request-After :
      (r : ConversionRequest) (s : ServiceState W)
      → On F s
      → G s.workers (insert r.external_conversion_id r s.requests_in_queue)
      → After (On F) (λ _. On G) (add_request_to_queue environment config r s)
  unfolding add_request_to_queue
  add_request-After r s h k =
      After-bind (On F) (λ _. On K) (λ _. On G)
        (wrapper (send_message environment.rsmq config.queue (environment.stringify r))) _ s
        (wrapper-After E F K (send_message environment.rsmq config.queue (environment.stringify r))
          s h k)
        λ _ t sent.
          After-bind (On F) (λ _. On G) (λ _. On G) (get_pending_request_count environment config)
            (λ _. pure tt)
            (record t { requests_in_queue = insert r.external_conversion_id r t.requests_in_queue })
            (pending-After
              (record t {
                requests_in_queue = insert r.external_conversion_id r t.requests_in_queue;
              })
              sent)
            (λ _ u added. added)
    where
      K : Workers → Dict ConversionRequest → Type 0
      K ws q = G ws (insert r.external_conversion_id r q)
