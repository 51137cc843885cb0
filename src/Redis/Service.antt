-- ===== src/Redis/Service.antt =====
-- packages/redis/src/service.ts: `RedisService`, over the auto-scaler, the wrapper of the queue and the
-- handler of the workers. `JSON.stringify` and `JSON.parse` of a request, the listing of the output
-- directory and the deletion of an orphaned file are fields of `Environment`. Logging is left out.
pub mod Frame
pub mod Rescue
pub mod Health
pub mod Checked
pub mod Posted
pub mod Loop
pub mod Lifetime
pub mod Filed
pub mod Journal
pub mod Quit
pub mod Laws
pub mod Forwarded
pub mod Probed
pub mod Cadence
pub mod Tests
use dynamic_conversion_servi.Prelude.{ℕ, String, Bool, Option, none, some, List, [], length}
use dynamic_conversion_servi.Prelude.Dict.{Dict, lookup, insert, erase, has, values}
use dynamic_conversion_servi.Prelude.Action.{
  Result, ok, err, Action, pure, gets, or_raise, modify, ◌>>=◌, ◌>>◌,
}
use dynamic_conversion_servi.Docker.{Daemon, DockerState}
use dynamic_conversion_servi.AutoScaler.{AutoScalerConfiguration, ScalerStatus, ScalerError}
use dynamic_conversion_servi.Redis.Request.{ConversionRequest, FinishedRequest, Workers}
use dynamic_conversion_servi.Redis.Worker.{
  WorkerError, Handler, worker_conversion_result, get_requests, get_worker_count,
}
use dynamic_conversion_servi.Redis.Worker.Network.{Network, HandlerState, Remote}
use dynamic_conversion_servi.Redis.Wrapper.{
  Rsmq, WrapperError, WrapperState, WrapperAction, get_pending_messages_count, receive_message,
  send_message, initialize,
}

-- What the service's methods throw: an error of a part, or one of parsing a message or of reading the
-- output directory.
pub data ServiceError (E : Type 0) : Type 0 where
  from_scaler : ScalerError E → ServiceError E
  from_wrapper : WrapperError → ServiceError E
  from_worker : WorkerError → ServiceError E
  syntax_error : ServiceError E
  directory_error : ServiceError E

pub record Environment (W E : Type 0) : Type 0 where
  pub daemon : Daemon W E
  pub rsmq : Rsmq W
  pub network : Network W
  pub stringify : ConversionRequest → String
  pub parse : String → Option ConversionRequest
  -- `fs.readdir`, none when it rejects
  pub read_output : W → Option (List String) × W
  pub delete_orphan : String → W → Bool × W

-- `IRedisServiceConfiguration`, the fields that the service reads
pub record ServiceConfiguration : Type 0 where
  pub auto_scaler_config : AutoScalerConfiguration
  pub file_ttl : ℕ
  pub queue : String

-- The fields of the service, with those of its parts; the two flags are the Docker service's and the
-- wrapper's.
pub record ServiceState (W : Type 0) : Type 0 where
  pub finished_request : Dict FinishedRequest
  pub last_status : Option ScalerStatus
  pub requests_in_queue : Dict ConversionRequest
  pub total_requests : ℕ
  pub workers : Workers
  pub has_image : Bool
  pub is_initialized : Bool
  pub world : W

abbrev pub Service : Type 0 → Type 0 → Type 0 → Type 0
Service W E A = Action (ServiceState W) (ServiceError E) A

abbrev pub rethrow :
    {E F A : Type 0} → (F → ServiceError E) → Result F A → Result (ServiceError E) A
rethrow f (ok a) = ok a
rethrow f (err e) = err (f e)

module _ {W E A : Type 0} where
  -- A call of the scaler, the wrapper, or the handler, on its part of the state.
  abbrev pub scaler : Action (DockerState W) (ScalerError E) A → Service W E A
  scaler m s =
      let (r, t) = m (record { has_image = s.has_image; world = s.world }) in
      (rethrow ServiceError.from_scaler r, record s { has_image = t.has_image; world = t.world })

  abbrev pub wrapper : WrapperAction W A → Service W E A
  wrapper m s =
      let (r, t) = m (record { is_initialized = s.is_initialized; world = s.world }) in
      (
        rethrow ServiceError.from_wrapper r,
        record s { is_initialized = t.is_initialized; world = t.world },
      )

  abbrev pub handler : Handler A → Service W E A
  handler m s =
      let (r, ws) = m s.workers in (rethrow ServiceError.from_worker r, record s { workers = ws })

  abbrev pub remote_handler : Remote W A → Service W E A
  remote_handler m s =
      let (r, t) = m (record { workers = s.workers; finished = []; world = s.world }) in
      (rethrow ServiceError.from_worker r, record s { workers = t.workers; world = t.world })

  -- A call of the network or the file system.
  abbrev pub outside : (W → A × W) → Service W E A
  outside f s = let (a, w) = f s.world in (ok a, record s { world = w })

module _ {W E : Type 0} (environment : Environment W E) (config : ServiceConfiguration) where
  -- `getPendingRequestCount`
  unfoldable pub get_pending_request_count : Service W E ℕ
  get_pending_request_count = wrapper (get_pending_messages_count environment.rsmq config.queue)

  -- `addRequestToQueue`, with the count that it logs
  unfoldable pub add_request_to_queue : ConversionRequest → Service W E (Unit {0})
  unfolding get_pending_request_count
  add_request_to_queue request = do
    wrapper (send_message environment.rsmq config.queue (environment.stringify request))
    modify (λ s. record s {
      requests_in_queue = insert request.external_conversion_id request s.requests_in_queue;
    })
    get_pending_request_count
    pure tt

  abbrev pub parsed : Option String → Option ConversionRequest
  parsed none = none
  parsed (some text) = environment.parse text

  -- `popRequest`
  unfoldable pub pop_request : Service W E ConversionRequest
  pop_request = do
    message ← wrapper (receive_message environment.rsmq config.queue)
    request ← or_raise (parsed message) ServiceError.syntax_error
    modify (λ s. record s {
      requests_in_queue = erase request.external_conversion_id s.requests_in_queue;
    })
    pure request

  -- `initialize`
  unfoldable pub initialize_service : Service W E (Unit {0})
  initialize_service = wrapper (initialize environment.rsmq config.queue)

-- `getConversionResult`: the queue is looked at first, then the finished requests, then the workers.
abbrev pub or_finished :
    Option FinishedRequest → Option ConversionRequest → Option ConversionRequest
or_finished none other = other
or_finished (some f) other = some f.request

abbrev pub or_queued :
    Option ConversionRequest → Option ConversionRequest → Option ConversionRequest
or_queued none other = other
or_queued (some r) other = some r

unfoldable pub get_conversion_result :
    {W : Type 0} → String → ServiceState W → Option ConversionRequest
get_conversion_result id s =
    or_queued (lookup id s.requests_in_queue)
      (or_finished (lookup id s.finished_request) (worker_conversion_result id s.workers))
