-- ===== src/Conversion/Life.antt =====
-- The life of a conversion, as a client of packages/conversion-service sees it, and that the code keeps
-- to it whatever arrives while it waits.
pub mod Steps
pub mod Ends
pub mod Runs
pub mod Tests
use mathlib.Core.Path.{subst}
use dynamic_conversion_servi.Prelude.{
  String, Bool, true, false, Option, none, some, List, [], ◌∷◌, ◌++◌, ◌≡◌, ◌≢◌, ◌⊎◌, inl, inr, refl,
  sym, ap, ◌∙◌, arith, All, str_eq, eq_iff, Bool-cases, Option-cases, if◌then◌else◌, not, ◌&&◌,
}
use dynamic_conversion_servi.Prelude.Dict.{lookup, insert, lookup-insert}
use dynamic_conversion_servi.Prelude.Action.{Result, ok, err}
use dynamic_conversion_servi.Conversion.{
  Status, ConversionFile, LogEntry, ConversionFault, QueueState, ConversionConfig,
}
use dynamic_conversion_servi.Conversion.Queue.{
  add_to_queue, change_conv_log_entry, first_of, rest_of,
}
use dynamic_conversion_servi.Conversion.Rounds.{
  retried, logged, queued_again, IsWrapped, wrap_conversion_cases,
}
use dynamic_conversion_servi.Conversion.Service.{set_current, ServiceState, wrap_conversion}
use dynamic_conversion_servi.Conversion.Drain.{change_conv_log_entry-processing}
use dynamic_conversion_servi.Conversion.Events.{
  Phase, Event, Machine, answering, begun, started, start_next, take_next, finish, marked_erroneous,
  after_wrap, after_deletion, submit, step, initial,
}

-- What the start of the next conversion does to a request.
pub data Taken : Option Status → Option Status → Type 0 where
  kept : {s : Option Status} → Taken s s
  taken : Taken (some Status.in_queue) (some Status.processing)

-- The life of one request, which is unknown, and then has a status: what one event may do to it.
pub data Move : Event → Option Status → Option Status → Type 0 where
  unchanged : {e : Event} {s : Option Status} → Move e s s
  next_taken : {e : Event} → Move e (some Status.in_queue) (some Status.processing)
  accepted : {f : ConversionFile} → Move (Event.submitted f) none (some Status.in_queue)
  accepted_taken : {f : ConversionFile} → Move (Event.submitted f) none (some Status.processing)
  succeeded :
      {answer : Option String}
      → Move (Event.answered answer) (some Status.processing) (some Status.converted)
  tried_again :
      {answer : Option String}
      → Move (Event.answered answer) (some Status.processing) (some Status.in_queue)
  given_up :
      {answer : Option String}
      → Move (Event.answered answer) (some Status.processing) (some Status.erroneous)
  -- the input file of a finished conversion could not be deleted
  set_back : Move (Event.deleted false) (some Status.converted) (some Status.in_queue)

pub Taken-Move : (e : Event) {s t : Option Status} → Taken s t → Move e s t
Taken-Move e kept = unchanged
Taken-Move e taken = next_taken

pub accepted_then :
    (f : ConversionFile) {s t : Option Status}
    → Taken s t
    → s ≡ some Status.in_queue
    → Move (Event.submitted f) none t
accepted_then f kept h = subst (λ u. Move (Event.submitted f) none u) (sym h) accepted
accepted_then f taken h = accepted_taken

pub tried_again_then :
    (answer : Option String) {s t : Option Status}
    → Taken s t
    → s ≡ some Status.in_queue
    → Move (Event.answered answer) (some Status.processing) t
tried_again_then answer kept h =
    subst (λ u. Move (Event.answered answer) (some Status.processing) u) (sym h) tried_again
tried_again_then answer taken h = unchanged

pub erroneous_ends :
    {e : Event} {s t : Option Status}
    → Move e s t
    → s ≡ some Status.erroneous
    → t ≡ some Status.erroneous
erroneous_ends unchanged h = h
erroneous_ends next_taken h = absurd (cc)
erroneous_ends accepted h = absurd (cc)
erroneous_ends accepted_taken h = absurd (cc)
erroneous_ends succeeded h = absurd (cc)
erroneous_ends tried_again h = absurd (cc)
erroneous_ends given_up h = absurd (cc)
erroneous_ends set_back h = absurd (cc)

abbrev pub status_in : Option LogEntry → Option Status
status_in none = none
status_in (some e) = some e.status

-- What the service answers for an id.
abbrev pub status_of : String → QueueState → Option Status
status_of id q = status_in (lookup id q.conv_log)

-- Every id's status changes as the relation says.
abbrev pub Follows : (Option Status → Option Status → Type 0) → QueueState → QueueState → Type 0
Follows R q p = (id : String) → R (status_of id q) (status_of id p)

-- Nothing is queued twice, and what is queued waits.
abbrev pub Unqueued : String → List ConversionFile → Type 0
Unqueued id fs = All (λ (f : ConversionFile). f.conversion_id ≢ id) fs

abbrev pub IsDistinct : List ConversionFile → Type 0
IsDistinct [] = Unit
IsDistinct (f ∷ fs) = Unqueued f.conversion_id fs × IsDistinct fs

abbrev pub Waits : QueueState → ConversionFile → Type 0
Waits q f = status_of f.conversion_id q ≡ some Status.in_queue

abbrev pub IsWaiting : QueueState → Type 0
IsWaiting q = All (Waits q) q.conversion × IsDistinct q.conversion

abbrev pub IsAt : Phase → QueueState → Type 0
IsAt Phase.idle q = (q.is_converting ≡ false) × (q.conversion ≡ [])
IsAt (Phase.converting f) q =
    (q.is_converting ≡ true) × (status_of f.conversion_id q ≡ some Status.processing)
IsAt (Phase.deleting f true) q =
    (q.is_converting ≡ true) × (status_of f.conversion_id q ≡ some Status.converted)
IsAt (Phase.deleting f false) q =
    (q.is_converting ≡ true) × (status_of f.conversion_id q ≡ some Status.erroneous)

-- Nothing waits while the service is idle, and what it works on is not queued.
abbrev pub IsSound : Machine → Type 0
IsSound m = IsWaiting m.queue × IsAt m.phase m.queue
