-- ===== src/Conversion/Life/Runs.antt =====
-- Every run of the conversion service of packages/conversion-service, in whatever order requests and
-- answers arrive.
use mathlib.Core.Path.{subst}
use dynamic_conversion_servi.Prelude.{
  String, Bool, true, false, Option, none, some, ◌≡◌, refl, sym, arith, eq_iff, if◌then◌else◌, ltb,
}
use dynamic_conversion_servi.Conversion.{
  Status, ConversionFile, LogEntry, QueueState, ConversionConfig,
}
use dynamic_conversion_servi.Conversion.Queue.{add_to_queue}
use dynamic_conversion_servi.Conversion.Rounds.{wrap_conversion_cases}
use dynamic_conversion_servi.Conversion.Service.{ServiceState, wrap_conversion}
use dynamic_conversion_servi.Conversion.Events.{
  Phase, Event, Machine, answering, take_next, submit, on_answer, on_deletion, step, initial,
}
use dynamic_conversion_servi.Conversion.Life.{
  Taken, kept, Move, unchanged, Taken-Move, accepted_then, erroneous_ends, status_of, Follows,
  IsWaiting, IsAt, IsSound,
}
use dynamic_conversion_servi.Conversion.Life.Steps.{
  status_of-logged, entry_of, logged_then, unqueued, take_next-IsSound,
}
use dynamic_conversion_servi.Conversion.Life.Ends.{
  enqueued, enqueued-IsWaiting, after_deletion-IsSound, after_wrap-IsSound,
}

-- A request comes with an id of its own, of `uuid`, and no tries.
abbrev pub IsFresh : Event → QueueState → Type 0
IsFresh (Event.submitted f) q = (status_of f.conversion_id q ≡ none) × (f.retries ≡ 0)
IsFresh _ q = Unit

-- A new entry of another id leaves the phase.
IsAt-logged :
    (f : ConversionFile) (e : LogEntry) (phase : Phase) (q : QueueState)
    → status_of f.conversion_id q ≡ none
    → IsAt phase q
    → q.is_converting ≡ true
    → IsAt phase (enqueued f e q)
IsAt-logged f e Phase.idle q new at busy = absurd (cc (at.0, busy))
IsAt-logged f e (Phase.converting g) q new (b, at) busy = (
  b,
  ground (
    arith,
    status_of-logged f.conversion_id g.conversion_id e q,
    eq_iff f.conversion_id g.conversion_id,
    new,
    at,
  ),
)
IsAt-logged f e (Phase.deleting g true) q new (b, at) busy = (
  b,
  ground (
    arith,
    status_of-logged f.conversion_id g.conversion_id e q,
    eq_iff f.conversion_id g.conversion_id,
    new,
    at,
  ),
)
IsAt-logged f e (Phase.deleting g false) q new (b, at) busy = (
  b,
  ground (
    arith,
    status_of-logged f.conversion_id g.conversion_id e q,
    eq_iff f.conversion_id g.conversion_id,
    new,
    at,
  ),
)

module _ (config : ConversionConfig) where
  added :
      (f : ConversionFile) (q : QueueState)
      → f.retries ≡ 0
      → (add_to_queue config f q).1 ≡ enqueued f (record { file = f; status = Status.in_queue }) q
  unfolding add_to_queue
  added f q none_yet =
      let fits : ltb config.conversion_tries f.retries ≡ false = ground (arith, none_yet) in
      rw fits refl

  submit-IsSound :
      (f : ConversionFile) (m : Machine)
      → IsSound m
      → IsFresh (Event.submitted f) m.queue
      → IsSound (submit config f m)
        × Follows (Move (Event.submitted f)) m.queue (submit config f m).queue
  submit-IsSound f m (waiting, at) (new, none_yet) =
      subst
        (λ q.
          let n = if q.is_converting then record m { queue = q } else take_next q in
          IsSound n × Follows (Move (Event.submitted f)) m.queue n.queue)
        (sym (added f m.queue none_yet)) (by_flag m.queue.is_converting refl)
    where
      mark : LogEntry
      mark = record { file = f; status = Status.in_queue }

      q : QueueState
      q = enqueued f mark m.queue

      queued : IsWaiting q
      queued =
          enqueued-IsWaiting f mark m.queue refl
            (unqueued f.conversion_id mark m.queue none m.queue.conversion new (λ d. cc) waiting.0)
            waiting

      follows : (r : QueueState) → Follows Taken q r → Follows (Move (Event.submitted f)) m.queue r
      follows r =
          logged_then (Move (Event.submitted f)) f.conversion_id mark m.queue r
            (λ t h. subst (λ s. Move (Event.submitted f) s t) (sym new) (accepted_then f h refl))
            (λ s t. Taken-Move (Event.submitted f))

      by_flag :
          (b : Bool)
          → m.queue.is_converting ≡ b
          → let n = if b then record m { queue = q } else take_next q in
            IsSound n × Follows (Move (Event.submitted f)) m.queue n.queue
      by_flag true busy =
          ((queued, IsAt-logged f mark m.phase m.queue new at busy), follows q (λ id. kept))
      by_flag false free =
          let next = take_next-IsSound q queued free in (next.0, follows (take_next q).queue next.1)

  answer-IsSound :
      (path : Option String) (phase : Phase) (q : QueueState)
      → IsWaiting q
      → IsAt phase q
      → let m = on_answer config path phase q in
        IsSound m × Follows (Move (Event.answered path)) q m.queue
  answer-IsSound path Phase.idle q w at = ((w, at), λ id. unchanged)
  answer-IsSound path (Phase.deleting f true) q w at = ((w, at), λ id. unchanged)
  answer-IsSound path (Phase.deleting f false) q w at = ((w, at), λ id. unchanged)
  answer-IsSound path (Phase.converting f) q w (busy, at) =
      let (e, found, known) = entry_of f.conversion_id Status.processing q at in
      let s : ServiceState (Unit {0}) = record { queue = q; world = tt } in
      after_wrap-IsSound config f q path (wrap_conversion (answering path) config f s)
        (wrap_conversion_cases (answering path) config f s e found) w busy at

  deletion-IsSound :
      (resolved : Bool) (phase : Phase) (q : QueueState)
      → IsWaiting q
      → IsAt phase q
      → let m = on_deletion config resolved phase q in
        IsSound m × Follows (Move (Event.deleted resolved)) q m.queue
  deletion-IsSound resolved Phase.idle q w at = ((w, at), λ id. unchanged)
  deletion-IsSound resolved (Phase.converting f) q w at = ((w, at), λ id. unchanged)
  deletion-IsSound resolved (Phase.deleting f after) q w at =
      after_deletion-IsSound f q after resolved w at

  step-IsSound :
      (e : Event) (m : Machine)
      → IsSound m
      → IsFresh e m.queue
      → IsSound (step config e m) × Follows (Move e) m.queue (step config e m).queue
  unfolding step
  step-IsSound (Event.submitted f) m sound fresh = submit-IsSound f m sound fresh
  step-IsSound (Event.answered path) m sound fresh =
      answer-IsSound path m.phase m.queue sound.0 sound.1
  step-IsSound (Event.deleted resolved) m sound fresh =
      deletion-IsSound resolved m.phase m.queue sound.0 sound.1

  -- The machines that a run reaches.
  pub data Run : Machine → Machine → Type 0 where
    stay : {m : Machine} → Run m m
    extend : {m n : Machine} → Run m n → (e : Event) → IsFresh e n.queue → Run m (step config e n)

  Run-IsSound : {m n : Machine} → Run m n → IsSound m → IsSound n
  Run-IsSound stay sound = sound
  Run-IsSound (extend {n = n} run e fresh) sound =
      (step-IsSound e n (Run-IsSound run sound) fresh).0

  -- The lives of the requests: in every run from a sound machine, in which requests and answers arrive in
  -- whatever order and each request has an id that is not known yet and no tries, one more such event
  -- leaves the machine sound and moves the status of each id, if at all, by one step of its life: from
  -- unknown to "in queue" or at once to "processing" by a request; from "in queue" to "processing"; from
  -- "processing" to "converted", "erroneous" or "in queue" by an answer of a wrapper; and from "converted"
  -- to "in queue" by a deletion that failed.
  pub runs_follow_life :
      {m n : Machine}
      → Run m n
      → IsSound m
      → (e : Event) → IsFresh e n.queue
      → IsSound (step config e n) × Follows (Move e) n.queue (step config e n).queue
  runs_follow_life {n = n} run sound e fresh = step-IsSound e n (Run-IsSound run sound) fresh

pub initial-IsSound : IsSound initial
initial-IsSound = ((tt, tt), (refl, refl))

-- In every state that the service reaches from its start, with ids that are new and requests without
-- tries, nothing is queued twice, every queued request has the status "in queue", the request that
-- is worked on is not queued, and the service is idle only when nothing is queued.
pub reached-IsSound : (config : ConversionConfig) {n : Machine} → Run config initial n → IsSound n
reached-IsSound config run = Run-IsSound config run initial-IsSound

-- From a sound machine, a request that is given up stays so: once the status of an id is "erroneous", no
-- later answer changes it, and no later request that comes with an id that is not known yet and no tries.
pub erroneous_stays :
    (config : ConversionConfig) {m n : Machine} (id : String)
    → Run config m n
    → IsSound m
    → status_of id m.queue ≡ some Status.erroneous
    → status_of id n.queue ≡ some Status.erroneous
erroneous_stays config id stay sound h = h
erroneous_stays config id (extend {n = n} run e fresh) sound h =
    erroneous_ends ((runs_follow_life config run sound e fresh).1 id)
      (erroneous_stays config id run sound h)
