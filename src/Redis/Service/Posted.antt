-- ===== src/Redis/Service/Posted.antt =====
-- packages/redis/src/service.ts: the requests of a worker that is removed are sent to the message queue
-- again. `posted` notes, for any queue, each message that it has accepted.
use dynamic_conversion_servi.Prelude.{String, Bool, true, false, List, [], ◌∷◌, ◌++◌, ◌≡◌}
use dynamic_conversion_servi.Prelude.Dict.{Dict, insert}
use dynamic_conversion_servi.Prelude.Action.{Result, ok, err}
use dynamic_conversion_servi.Prelude.After.{After}
use dynamic_conversion_servi.Redis.Request.{ConversionRequest}
use dynamic_conversion_servi.Redis.Wrapper.{
  Rsmq, RsmqError, WrapperState, send_message, create_queue,
}
use dynamic_conversion_servi.Redis.Service.{Environment, ServiceConfiguration, ServiceState}
use dynamic_conversion_servi.Redis.Service.Health.{requeued}

pub record Outbox (W : Type 0) : Type 0 where
  pub sent : List String
  pub world : W

abbrev apart : {W A : Type 0} → (W → A × W) → Outbox W → A × Outbox W
apart f s = let (a, w) = f s.world in (a, record s { world = w })

-- The answer of the queue decides whether the message counts as sent.
abbrev noted_message :
    {W : Type 0}
    → String
    → List String
    → Result RsmqError Bool × W
    → Result RsmqError Bool × Outbox W
noted_message message sent (ok true, w) =
    (ok true, record { sent = sent ++ message ∷ []; world = w })
noted_message message sent (ok false, w) = (ok false, record { sent = sent; world = w })
noted_message message sent (err e, w) = (err e, record { sent = sent; world = w })

abbrev pub posted : {W : Type 0} → Rsmq W → Rsmq (Outbox W)
posted rsmq = record {
  get_queue_attributes = λ queue. apart (rsmq.get_queue_attributes queue);
  pop_message = λ queue. apart (rsmq.pop_message queue);
  send_message =
      λ queue message s. noted_message message s.sent (rsmq.send_message queue message s.world);
  create_queue = λ queue. apart (rsmq.create_queue queue);
  delete_queue = λ queue. apart (rsmq.delete_queue queue);
  list_queues = apart rsmq.list_queues;
}

module _ {W : Type 0} (rsmq : Rsmq W) (queue : String) where
  abbrev Box : Type 0
  Box = WrapperState (Outbox W)

  -- A call that returned, and left these messages sent.
  abbrev Sends : {A : Type 0} → List String → A → Box → Type 0
  Sends sent a t = t.world.sent ≡ sent

module _ {W E : Type 0} (rsmq : Rsmq W) (base : Environment (Outbox W) E)
    (config : ServiceConfiguration) where
  -- The service over this queue.
  abbrev pub with_outbox : Environment (Outbox W) E
  with_outbox = record base { rsmq = posted rsmq }

  abbrev pub text_of : ConversionRequest → String
  text_of r = base.stringify (requeued r)

  -- The requests that are recorded as queued, after these.
  abbrev pub all_inserted : List ConversionRequest → Dict ConversionRequest → Dict ConversionRequest
  all_inserted [] dict = dict
  all_inserted (r ∷ rs) dict = all_inserted rs (insert r.external_conversion_id (requeued r) dict)

  -- These messages were sent, and these requests are recorded as queued.
  abbrev pub Posts : List String → Dict ConversionRequest → ServiceState (Outbox W) → Type 0
  Posts sent dict t = (t.world.sent ≡ sent) × (t.requests_in_queue ≡ dict)
