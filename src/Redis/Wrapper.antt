-- ===== src/Redis/Wrapper.antt =====
-- packages/redis/src/wrapper/index.ts: `RedisWrapper` over the `rsmq` package, which is the record
-- `Rsmq` over a world `W`. An answer that comes after the operation's time limit counts as `timed_out`.
pub mod Laws
use dynamic_conversion_servi.Prelude.{
  ℕ, String, Bool, true, false, not, ◌||◌, Option, List, [], ◌∷◌, str_eq, ◌==◌, if◌then◌else◌,
}
use dynamic_conversion_servi.Prelude.Action.{
  Result, ok, err, Action, pure, raise, gets, modify, raise_if, ◌>>=◌, ◌>>◌,
}

pub data RsmqError : Type 0 where
  queue_not_found timed_out failed : RsmqError

-- The calls of `rsmq`. A popped message is none on an empty queue, whose reply has no `message`.
pub record Rsmq (W : Type 0) : Type 0 where
  pub get_queue_attributes : String → W → Result RsmqError ℕ × W
  pub pop_message : String → W → Result RsmqError (Option String) × W
  pub send_message : String → String → W → Result RsmqError Bool × W
  pub create_queue : String → W → Result RsmqError ℕ × W
  pub delete_queue : String → W → Result RsmqError ℕ × W
  pub list_queues : W → Result RsmqError (List String) × W

-- wrapper/exception.ts; `rejected` is a rejection without an error of the wrapper
pub data WrapperError : Type 0 where
  not_initialized pop_error send_error queue_create_error queue_delete_error : WrapperError
  queue_list_error queue_stat_error timeout_error rejected : WrapperError

pub record WrapperState (W : Type 0) : Type 0 where
  pub is_initialized : Bool
  pub world : W

abbrev pub WrapperAction : Type 0 → Type 0 → Type 0
WrapperAction W A = Action (WrapperState W) WrapperError A

module _ {W A : Type 0} where
  -- A call of `rsmq`, whose error is looked at later.
  abbrev pub ask : (W → Result RsmqError A × W) → WrapperAction W (Result RsmqError A)
  ask f s = let (a, w) = f s.world in (ok a, record s { world = w })

abbrev pub includes : String → List String → Bool
includes queue [] = false
includes queue (q ∷ qs) = str_eq q queue || includes queue qs

module _ {W : Type 0} where
  abbrev pub guard_initialized : WrapperAction W (Unit {0})
  guard_initialized s = raise_if (not s.is_initialized) WrapperError.not_initialized s

  abbrev pub answered_one : WrapperError → Result RsmqError ℕ → WrapperAction W (Unit {0})
  answered_one e (err _) = raise e
  answered_one e (ok n) = raise_if (not (n == 1)) WrapperError.rejected

  abbrev pub answered_queues : Result RsmqError (List String) → WrapperAction W (List String)
  answered_queues (err _) = raise WrapperError.queue_list_error
  answered_queues (ok queues) = pure queues

  abbrev pub answered_message : Result RsmqError (Option String) → WrapperAction W (Option String)
  answered_message (err _) = raise WrapperError.pop_error
  answered_message (ok message) = pure message

  abbrev pub answered_sent : Result RsmqError Bool → WrapperAction W (Unit {0})
  answered_sent (err _) = raise WrapperError.send_error
  answered_sent (ok sent) = raise_if (not sent) WrapperError.rejected

  -- The end of `initialize`: every error of `ensureQueue` becomes the timeout error.
  abbrev pub finish_initialize :
      Result WrapperError (Unit {0}) × WrapperState W
      → Result WrapperError (Unit {0}) × WrapperState W
  finish_initialize (ok _, s) = (ok tt, record s { is_initialized = true })
  finish_initialize (err e, s) = (err WrapperError.timeout_error, s)

module _ {W : Type 0} (rsmq : Rsmq W) where
  -- `createQueue`, `deleteQueue`, `getQueues`
  unfoldable pub create_queue : String → WrapperAction W (Unit {0})
  create_queue queue = do
    answer ← ask (rsmq.create_queue queue)
    answered_one WrapperError.queue_create_error answer

  unfoldable pub delete_queue : String → WrapperAction W (Unit {0})
  delete_queue queue = do
    answer ← ask (rsmq.delete_queue queue)
    answered_one WrapperError.queue_delete_error answer

  unfoldable pub get_queues : WrapperAction W (List String)
  get_queues = do answer ← ask rsmq.list_queues; answered_queues answer

  abbrev pub depth : String → Result RsmqError ℕ → WrapperAction W ℕ
  depth queue (ok msgs) = pure msgs
  depth queue (err RsmqError.queue_not_found) = do create_queue queue; pure 0
  depth queue (err RsmqError.timed_out) = raise WrapperError.rejected
  depth queue (err RsmqError.failed) = raise WrapperError.queue_stat_error

  -- `getPendingMessagesCount`: a missing queue is created and counts as empty.
  unfoldable pub get_pending_messages_count : String → WrapperAction W ℕ
  unfolding create_queue
  get_pending_messages_count queue = do
    guard_initialized
    answer ← ask (rsmq.get_queue_attributes queue)
    depth queue answer

  -- `ensureQueue` of `initialize`: an old queue of that name is removed first.
  unfoldable pub ensure_queue : String → WrapperAction W (Unit {0})
  unfolding get_queues delete_queue create_queue
  ensure_queue queue = do
    queues ← get_queues
    if includes queue queues then delete_queue queue else pure tt
    create_queue queue

  -- `initialize`
  unfoldable pub initialize : String → WrapperAction W (Unit {0})
  unfolding ensure_queue
  initialize queue s = finish_initialize (ensure_queue queue s)

  -- `quit`, less the closing of the connection
  unfoldable pub quit_wrapper : String → WrapperAction W (Unit {0})
  unfolding get_queues delete_queue
  quit_wrapper queue = do
    queues ← get_queues
    if includes queue queues then delete_queue queue else pure tt

  -- `receiveMessage`
  unfoldable pub receive_message : String → WrapperAction W (Option String)
  receive_message queue = do
    guard_initialized
    answer ← ask (rsmq.pop_message queue)
    answered_message answer

  -- `sendMessage`
  unfoldable pub send_message : String → String → WrapperAction W (Unit {0})
  send_message queue message = do
    guard_initialized
    answer ← ask (rsmq.send_message queue message)
    answered_sent answer
