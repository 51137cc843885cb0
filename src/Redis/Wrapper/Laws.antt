-- ===== src/Redis/Wrapper/Laws.antt =====
-- What the flag of `RedisWrapper` guards.
use dynamic_conversion_servi.Prelude.{
  ℕ, String, Bool, true, false, List, ◌≡◌, ◌⊎◌, inl, inr, refl, ◌∙◌, if◌then◌else◌,
}
use dynamic_conversion_servi.Prelude.Action.{Result, ok, err, pure, settle}
use dynamic_conversion_servi.Redis.Wrapper.{
  Rsmq, RsmqError, WrapperError, WrapperState, WrapperAction, answered_one, answered_queues,
  includes, create_queue, delete_queue, get_queues, ensure_queue, finish_initialize,
  get_pending_messages_count, initialize, receive_message, send_message,
}

-- How `initialize` ends, from a flag before.
abbrev pub IsInitialized :
    {W : Type 0} → Bool → Result WrapperError (Unit {0}) × WrapperState W → Type 0
IsInitialized was r =
    ((r.0 ≡ ok tt) × (r.1.is_initialized ≡ true))
    ⊎ ((r.0 ≡ err WrapperError.timeout_error) × (r.1.is_initialized ≡ was))

module _ {W : Type 0} (rsmq : Rsmq W) (queue : String) where
  -- Before `initialize`, counting, receiving and sending throw the error for it, and reach neither
  -- the queue nor the state.
  pub uninitialized_refused :
      (message : String) (s : WrapperState W)
      → s.is_initialized ≡ false
      → (get_pending_messages_count rsmq queue s ≡ (err WrapperError.not_initialized, s))
        × (receive_message rsmq queue s ≡ (err WrapperError.not_initialized, s))
        × (send_message rsmq queue message s ≡ (err WrapperError.not_initialized, s))
  unfolding get_pending_messages_count receive_message send_message
  uninitialized_refused message s h = (rw h refl, rw h refl, rw h refl)

  finished :
      (was : Bool) (r : Result WrapperError (Unit {0}) × WrapperState W)
      → r.1.is_initialized ≡ was
      → IsInitialized was (finish_initialize r)
  finished was (ok a, s) h = inl (refl, refl)
  finished was (err e, s) h = inr (refl, h)

  -- Asking `rsmq` leaves the flag alone, whatever it answers.
  flag-answered_one :
      (e : WrapperError) (answer : Result RsmqError ℕ) (s : WrapperState W)
      → (answered_one e answer s).1.is_initialized ≡ s.is_initialized
  flag-answered_one e (ok n) s = refl
  flag-answered_one e (err x) s = refl

  flag-settle :
      {A B : Type 0} (f : A → WrapperAction W B) (r : Result WrapperError A × WrapperState W)
      → ((a : A) (t : WrapperState W) → (f a t).1.is_initialized ≡ t.is_initialized)
      → (settle f r).1.is_initialized ≡ r.1.is_initialized
  flag-settle f (ok a, t) h = h a t
  flag-settle f (err e, t) h = refl

  flag-get_queues : (s : WrapperState W) → (get_queues rsmq s).1.is_initialized ≡ s.is_initialized
  unfolding get_queues
  flag-get_queues s = answered (rsmq.list_queues s.world).0
    where
      answered :
          (a : Result RsmqError (List String))
          → (answered_queues a (record s { world = (rsmq.list_queues s.world).1 })).1.is_initialized
            ≡ s.is_initialized
      answered (ok queues) = refl
      answered (err e) = refl

  flag-create_queue :
      (s : WrapperState W) → (create_queue rsmq queue s).1.is_initialized ≡ s.is_initialized
  unfolding create_queue
  flag-create_queue s = flag-answered_one WrapperError.queue_create_error _ _

  flag-delete_queue :
      (s : WrapperState W) → (delete_queue rsmq queue s).1.is_initialized ≡ s.is_initialized
  unfolding delete_queue
  flag-delete_queue s = flag-answered_one WrapperError.queue_delete_error _ _

  flag-ensure_queue :
      (s : WrapperState W) → (ensure_queue rsmq queue s).1.is_initialized ≡ s.is_initialized
  unfolding ensure_queue
  flag-ensure_queue s =
      flag-settle _ (get_queues rsmq s) (λ queues t.
        flag-settle (λ _. create_queue rsmq queue) _ (λ _ u. flag-create_queue u)
        ∙ removed (includes queue queues) t)
      ∙ flag-get_queues s
    where
      removed :
          (b : Bool) (t : WrapperState W)
          → ((if b then delete_queue rsmq queue else pure tt) t).1.is_initialized ≡ t.is_initialized
      removed true t = flag-delete_queue t
      removed false t = refl

  -- `initialize` returns and the wrapper is initialized, or it throws the timeout error, whatever went
  -- wrong, and the flag is as it was.
  pub initialize_flag :
      (s : WrapperState W) → IsInitialized s.is_initialized (initialize rsmq queue s)
  unfolding initialize
  initialize_flag s = finished s.is_initialized (ensure_queue rsmq queue s) (flag-ensure_queue s)
