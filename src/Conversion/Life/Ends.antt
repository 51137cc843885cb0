-- ===== src/Conversion/Life/Ends.antt =====
-- How a request is queued, and how a conversion ends, in packages/conversion-service: the lives of the
-- requests go on, and the machine stays sound.
use mathlib.Core.Path.{subst}
use dynamic_conversion_servi.Prelude.{
  String, Bool, true, false, str_eq, eq_iff, Bool-cases, Option, none, some, List, [], ◌∷◌, ◌++◌,
  ◌≡◌, ◌≢◌, inl, inr, refl, sym, ap, ◌∙◌, arith, All,
}
use dynamic_conversion_servi.Prelude.Dict.{insert}
use dynamic_conversion_servi.Prelude.Action.{Result, ok, err}
use dynamic_conversion_servi.Conversion.{
  Status, ConversionFile, LogEntry, ConversionFault, QueueState, ConversionConfig,
}
use dynamic_conversion_servi.Conversion.Queue.{change_conv_log_entry}
use dynamic_conversion_servi.Conversion.Rounds.{retried, logged, queued_again, IsWrapped}
use dynamic_conversion_servi.Conversion.Drain.{
  change_conv_log_entry-erroneous, change_conv_log_entry-in_queue,
}
use dynamic_conversion_servi.Conversion.Service.{set_current, ServiceState}
use dynamic_conversion_servi.Conversion.Events.{
  Phase, Event, finish, marked_erroneous, after_wrap, after_deletion, answering,
}
use dynamic_conversion_servi.Conversion.Life.{
  Taken, Move, unchanged, succeeded, given_up, set_back, Taken-Move, tried_again_then, status_of,
  Follows, Unqueued, IsDistinct, Waits, IsWaiting, IsAt, IsSound,
}
use dynamic_conversion_servi.Conversion.Life.Steps.{
  status_of-logged, status_of-logged_self, entry_of, Follows-logged, logged_then, All-logged,
  unqueued, finish-IsSound, finish-Unqueued,
}

-- The queue with a file at its end, and the file's entry.
abbrev pub enqueued : ConversionFile → LogEntry → QueueState → QueueState
enqueued f e q = record q {
  conversion = q.conversion ++ f ∷ [];
  conv_log = insert f.conversion_id e q.conv_log;
}

module _ (f : ConversionFile) where
  Unqueued-append :
      (id : String) (fs : List ConversionFile)
      → Unqueued id fs
      → f.conversion_id ≢ id
      → Unqueued id (fs ++ f ∷ [])
  Unqueued-append id [] u d = (d, tt)
  Unqueued-append id (g ∷ fs) u d = (u.0, Unqueued-append id fs u.1 d)

  IsDistinct-append :
      (fs : List ConversionFile)
      → IsDistinct fs
      → Unqueued f.conversion_id fs
      → IsDistinct (fs ++ f ∷ [])
  IsDistinct-append [] d u = (tt, tt)
  IsDistinct-append (g ∷ fs) d u =
      (Unqueued-append g.conversion_id fs d.0 (λ e. u.0 (sym e)), IsDistinct-append fs d.1 u.1)

  All-append :
      (q : QueueState) (fs : List ConversionFile)
      → All (Waits q) fs
      → Waits q f
      → All (Waits q) (fs ++ f ∷ [])
  All-append q [] h w = (w, tt)
  All-append q (g ∷ fs) h w = (h.0, All-append q fs h.1 w)

  pub enqueued-IsWaiting :
      (e : LogEntry) (q : QueueState)
      → e.status ≡ Status.in_queue
      → Unqueued f.conversion_id q.conversion
      → IsWaiting q
      → IsWaiting (enqueued f e q)
  enqueued-IsWaiting e q s u w = (
    All-append (enqueued f e q) q.conversion (All-logged f.conversion_id e q q.conversion u w.0)
        (status_of-logged_self f.conversion_id e q ∙ ap some s),
    IsDistinct-append q.conversion w.1 u,
  )

-- Writing that a request waits leaves what waits.
All-waiting :
    (id : String) (e : LogEntry) (q : QueueState) (fs : List ConversionFile)
    → e.status ≡ Status.in_queue
    → All (Waits q) fs
    → All (Waits (logged id e q)) fs
All-waiting id e q [] s h = tt
All-waiting id e q (f ∷ fs) s h =
    (ground (arith, status_of-logged id f.conversion_id e q, h.0, s), All-waiting id e q fs s h.1)

module _ (f : ConversionFile) (q : QueueState) where
  abbrev waits_again : QueueState
  waits_again = (finish (change_conv_log_entry f.conversion_id Status.in_queue none q).1).queue

  -- The log entry is set to "in queue", and the next conversion begins; it is not the same one, unless it
  -- is queued.
  set_waiting-IsSound :
      (s : Status)
      → IsWaiting q
      → status_of f.conversion_id q ≡ some s
      → (mark : LogEntry) × (mark.status ≡ Status.in_queue)
        × IsSound (finish (change_conv_log_entry f.conversion_id Status.in_queue none q).1)
        × Follows Taken (logged f.conversion_id mark q) waits_again
        × (Unqueued f.conversion_id q.conversion
            → status_of f.conversion_id waits_again ≡ some Status.in_queue)
  set_waiting-IsSound s w k =
      let (e, found, known) = entry_of f.conversion_id s q k in
      let mark : LogEntry = record e { status = Status.in_queue } in
      let p = logged f.conversion_id mark q in
      let waiting : IsWaiting p = (All-waiting f.conversion_id mark q q.conversion refl w.0, w.1) in
      let ended = finish-IsSound p waiting in
      let (sound, follows, stays) =
        subst
          (λ r.
            IsSound (finish r.1)
            × Follows Taken p (finish r.1).queue
            × (Unqueued f.conversion_id q.conversion
                → status_of f.conversion_id (finish r.1).queue ≡ some Status.in_queue))
          (sym (change_conv_log_entry-in_queue f.conversion_id q e found))
          (
            ended.0,
            ended.1,
            λ u.
                finish-Unqueued f.conversion_id p waiting u
                ∙ status_of-logged_self f.conversion_id mark q,
          ) in
      (mark, refl, sound, follows, stays)

  set_back-Follows :
      IsWaiting q
      → status_of f.conversion_id q ≡ some Status.converted
      → IsSound (finish (change_conv_log_entry f.conversion_id Status.in_queue none q).1)
        × Follows (Move (Event.deleted false)) q waits_again
  set_back-Follows w k =
      let id = f.conversion_id in
      let (mark, is_waiting, sound, follows, stays) = set_waiting-IsSound Status.converted w k in
      let set = stays (unqueued id mark q (some Status.converted) q.conversion k (λ d. cc) w.0) in
      (
        sound,
        λ j. elim (Bool-cases (str_eq id j)) [
          | inl hit ↦
              subst
                (λ (i : String).
                  Move (Event.deleted false) (status_of i q) (status_of i waits_again))
                (ground (arith, hit, eq_iff id j))
                (subst (λ s. Move (Event.deleted false) s (status_of id waits_again)) (sym k)
                  (subst (λ t. Move (Event.deleted false) (some Status.converted) t) (sym set)
                    set_back))
          | inr miss ↦ Taken-Move (Event.deleted false) (
              subst (λ s. Taken s (status_of j waits_again))
                (ground (arith, miss, status_of-logged id j mark q)) (follows j))
        ],
      )

  pub after_deletion-IsSound :
      (after_conversion resolved : Bool)
      → IsWaiting q
      → IsAt (Phase.deleting f after_conversion) q
      → let m = after_deletion f after_conversion resolved q in
        IsSound m × Follows (Move (Event.deleted resolved)) q m.queue
  after_deletion-IsSound true true w at =
      let ended = finish-IsSound q w in (ended.0, λ j. Taken-Move _ (ended.1 j))
  after_deletion-IsSound true false w at = set_back-Follows w at.1
  after_deletion-IsSound false resolved w at =
      let ended = finish-IsSound q w in (ended.0, λ j. Taken-Move _ (ended.1 j))

  -- A last try is marked as erroneous, and its file deleted.
  give_up-IsSound :
      (answer : Option String)
      → IsWaiting q
      → q.is_converting ≡ true
      → status_of f.conversion_id q ≡ some Status.processing
      → let m =
          marked_erroneous f (change_conv_log_entry f.conversion_id Status.erroneous none q) in
        IsSound m × Follows (Move (Event.answered answer)) q m.queue
  give_up-IsSound answer w busy k =
      let (e, found, known) = entry_of f.conversion_id Status.processing q k in
      let mark : LogEntry = record e { status = Status.erroneous } in
      subst
        (λ r.
          IsSound (marked_erroneous f r)
          × Follows (Move (Event.answered answer)) q (marked_erroneous f r).queue)
        (sym (change_conv_log_entry-erroneous f.conversion_id q e found))
        (
          (
            (
              All-logged f.conversion_id mark q q.conversion
                  (unqueued f.conversion_id mark q (some Status.processing) q.conversion k (λ d. cc)
                    w.0)
                  w.0,
              w.1,
            ),
            (busy, status_of-logged_self f.conversion_id mark q),
          ),
          Follows-logged (Move (Event.answered answer)) f.conversion_id mark q (λ s. unchanged)
              (subst (λ t. Move (Event.answered answer) t (some Status.erroneous)) (sym k)
                given_up),
        )

module _ (config : ConversionConfig) (f : ConversionFile) (q : QueueState)
    (answer : Option String) where
  -- Each way in which `wrapConversion` ends.
  pub after_wrap-IsSound :
      (r : Result ConversionFault ConversionFile × ServiceState (Unit {0}))
      → IsWrapped (answering none) config f q r
      → IsWaiting q
      → q.is_converting ≡ true
      → status_of f.conversion_id q ≡ some Status.processing
      → let m = after_wrap f r.0 r.1.queue in
        IsSound m × Follows (Move (Event.answered answer)) q m.queue
  after_wrap-IsSound (ok g, t) (e, converted, is, left) w busy k =
      subst
        (λ p.
          IsSound (after_wrap f (ok g) p)
          × Follows (Move (Event.answered answer)) q (set_current none p))
        (sym is)
        (
          (
            (
              All-logged f.conversion_id e q q.conversion
                  (unqueued f.conversion_id e q (some Status.processing) q.conversion k (λ d. cc)
                    w.0)
                  w.0,
              w.1,
            ),
            (busy, status_of-logged_self f.conversion_id e q ∙ ap some converted),
          ),
          Follows-logged (Move (Event.answered answer)) f.conversion_id e q (λ s. unchanged)
              (subst (λ t. Move (Event.answered answer) t (some e.status)) (sym k)
                (subst (λ s. Move (Event.answered answer) (some Status.processing) (some s))
                  (sym converted) succeeded)),
        )
  after_wrap-IsSound (err x, t) (inl (spent, is, what)) w busy k =
      subst
        (λ (u : ConversionFault × QueueState).
          IsSound (after_wrap f (err u.0) u.1)
          × Follows (Move (Event.answered answer)) q (after_wrap f (err u.0) u.1).queue)
        (λ i. (sym what i, sym is i)) (give_up-IsSound f q answer w busy k)
  after_wrap-IsSound (err x, t) (inr (left, is, what)) w busy k =
      let mark : LogEntry = record { file = retried f; status = Status.in_queue } in
      let p = queued_again f q in
      let free =
        unqueued f.conversion_id mark q (some Status.processing) q.conversion k (λ d. cc) w.0 in
      let (again, is_waiting, sound, follows, _) =
        set_waiting-IsSound f p Status.in_queue (enqueued-IsWaiting (retried f) mark q refl free w)
          (status_of-logged_self f.conversion_id mark q) in
      let later : Follows Taken p (waits_again f p) =
        logged_then Taken f.conversion_id again p (waits_again f p)
          (λ t.
            subst (λ s. Taken s t)
              (ap some is_waiting ∙ sym (status_of-logged_self f.conversion_id mark q)))
          (λ s t h. h) follows in
      subst
        (λ (u : ConversionFault × QueueState).
          IsSound (after_wrap f (err u.0) u.1)
          × Follows (Move (Event.answered answer)) q (after_wrap f (err u.0) u.1).queue)
        (λ i. (sym what i, sym is i))
        (
          sound,
          logged_then (Move (Event.answered answer)) f.conversion_id mark q (waits_again f p)
              (λ t h.
                subst (λ s. Move (Event.answered answer) s t) (sym k)
                  (tried_again_then answer h refl))
              (λ s t. Taken-Move (Event.answered answer)) later,
        )
