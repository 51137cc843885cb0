-- ===== src/Redis/Service/Laws.antt =====
-- What the service promises of queued requests and of what it takes from the queue.
use dynamic_conversion_servi.Prelude.{
  ℕ, zero, suc, ◌≤◌, ◌<◌, Option, none, some, List, [], ◌∷◌, ◌≡◌, refl, ap, ◌∙◌, arith, length,
  length-append, ltb, Bool-cases, inl, inr,
}
use dynamic_conversion_servi.Prelude.Dict.{lookup, insert, lookup-insert_self}
use dynamic_conversion_servi.Prelude.Action.{
  Result, ok, err, Ensures, Ensures-last, modify, ◌>>◌, pure, settle,
}
use dynamic_conversion_servi.Redis.Request.{ConversionRequest}
use dynamic_conversion_servi.Redis.Worker.{worker_conversion_result}
use dynamic_conversion_servi.Redis.Wrapper.{send_message}
use dynamic_conversion_servi.Redis.Service.{
  Environment, ServiceConfiguration, ServiceState, ServiceError, wrapper, add_request_to_queue,
  pop_request, get_pending_request_count, get_conversion_result, or_queued, or_finished,
}
use dynamic_conversion_servi.Redis.Service.Loop.{pop_until, pushed, attempt}

settle-pure :
    {S F A : Type 0} (x : Result F A × S) → (settle {B = Unit {0}} (λ _. pure tt) x).1 ≡ x.1
settle-pure (ok a, t) = refl
settle-pure (err e, t) = refl

pub length-pushed :
    {A : Type 0} (popped : Option A) (xs : List A) (n : ℕ)
    → length xs < n
    → length (pushed xs popped) ≤ n
length-pushed none xs n h = omega arith
length-pushed (some x) xs n h = omega (arith, length-append xs (x ∷ []))

module _ {W E : Type 0} (environment : Environment W E) (config : ServiceConfiguration) where
  -- Once a message is sent, looking its conversion up gives the request, even if counting the queue
  -- fails afterwards.
  pub added_request_found :
      (r : ConversionRequest) (s : ServiceState W)
      → (wrapper {W = W} {E = E}
          (send_message environment.rsmq config.queue (environment.stringify r))
          s).0
        ≡ ok tt
      → get_conversion_result r.external_conversion_id
          (add_request_to_queue environment config r s).1
        ≡ some r
  unfolding add_request_to_queue get_conversion_result get_pending_request_count
  added_request_found r s sent =
      after (wrapper (send_message environment.rsmq config.queue (environment.stringify r)) s) sent
    where
      after :
          (q : Result (ServiceError E) (Unit {0}) × ServiceState W)
          → q.0 ≡ ok tt
          → get_conversion_result r.external_conversion_id
              (settle
                (λ _.
                  modify (λ t. record t {
                    requests_in_queue = insert r.external_conversion_id r t.requests_in_queue;
                  })
                  >> (get_pending_request_count environment config >> pure tt))
                q).1
            ≡ some r
      after (err e, t) k = cc
      after (ok a, t) k =
          let u : ServiceState W = record t {
            requests_in_queue = insert r.external_conversion_id r t.requests_in_queue;
          } in
          ap (get_conversion_result r.external_conversion_id)
            (settle-pure (get_pending_request_count environment config u))
          ∙ ap
              (λ o. or_queued o (
                or_finished (lookup r.external_conversion_id t.finished_request)
                  (worker_conversion_result r.external_conversion_id t.workers)))
              (lookup-insert_self r.external_conversion_id r t.requests_in_queue)

  -- Started with no more requests than its target, the loop returns no more than the target, however
  -- its pops answer and whatever the limit on its rounds.
  pub pop_until_limit :
      (n target : ℕ) (requests : List ConversionRequest) (s : ServiceState W)
      → length requests ≤ target
      → Ensures (λ taken. length taken ≤ target) (pop_until environment config n target requests s)
  unfolding pop_until
  pop_until_limit zero target requests s h = h
  pop_until_limit (suc n) target requests s h = elim (Bool-cases (ltb (length requests) target)) [
    | inl more ↦ rw more (
        Ensures-last (λ taken. length taken ≤ target) (attempt (pop_request environment config))
          (λ popped. pop_until environment config n target (pushed requests popped)) s
          λ popped t.
            pop_until_limit n target (pushed requests popped) t
              (length-pushed popped requests target (ground (arith, more))))
    | inr enough ↦ rw enough h
  ]
