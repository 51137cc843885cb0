-- ===== src/Conversion/Life/Steps.antt =====
-- What each write to the log and the queue of packages/conversion-service does to the lives of the
-- requests.
use mathlib.Core.Path.{subst}
use dynamic_conversion_servi.Prelude.{
  String, false, Option, none, some, List, [], ◌∷◌, ◌≡◌, ◌≢◌, inl, inr, refl, sym, ap, arith, All,
  str_eq, eq_iff, Bool-cases, if◌then◌else◌,
}
use dynamic_conversion_servi.Prelude.Dict.{lookup, lookup-insert}
use dynamic_conversion_servi.Conversion.{Status, ConversionFile, LogEntry, QueueState}
use dynamic_conversion_servi.Conversion.Queue.{change_conv_log_entry, first_of, rest_of}
use dynamic_conversion_servi.Conversion.Rounds.{logged}
use dynamic_conversion_servi.Conversion.Drain.{change_conv_log_entry-processing}
use dynamic_conversion_servi.Conversion.Events.{begun, started, start_next, take_next, finish}
use dynamic_conversion_servi.Conversion.Life.{
  Taken, kept, taken, status_in, status_of, Follows, Unqueued, IsDistinct, Waits, IsWaiting,
  IsSound,
}

pub status_of-logged :
    (id j : String) (e : LogEntry) (q : QueueState)
    → status_of j (logged id e q) ≡ (if str_eq id j then some e.status else status_of j q)
status_of-logged id j e q = ground (arith, lookup-insert id j e q.conv_log)

pub status_of-logged_self :
    (id : String) (e : LogEntry) (q : QueueState) → status_of id (logged id e q) ≡ some e.status
status_of-logged_self id e q = ground (arith, status_of-logged id id e q, eq_iff id id)

-- A known status has an entry.
pub entry_of :
    (id : String) (s : Status) (q : QueueState)
    → status_of id q ≡ some s
    → (e : LogEntry) × (lookup id q.conv_log ≡ some e) × (e.status ≡ s)
entry_of id s q h = found (lookup id q.conv_log) refl h
  where
    found :
        (o : Option LogEntry)
        → lookup id q.conv_log ≡ o
        → status_in o ≡ some s
        → (e : LogEntry) × (lookup id q.conv_log ≡ some e) × (e.status ≡ s)
    found none k l = absurd (cc)
    found (some e) k l = (e, k, cc)

-- Writing one status moves one request; then the next one may be taken.
pub logged_then :
    (R : Option Status → Option Status → Type 0) (id : String) (e : LogEntry) (q r : QueueState)
    → ((t : Option Status) → Taken (some e.status) t → R (status_of id q) t)
    → ((s t : Option Status) → Taken s t → R s t)
    → Follows Taken (logged id e q) r
    → Follows R q r
logged_then R id e q r here there h j = elim (Bool-cases (str_eq id j)) [
  | inl hit ↦
      subst (λ (k : String). R (status_of k q) (status_of k r)) (ground (arith, hit, eq_iff id j))
        (here (status_of id r)
          (subst (λ s. Taken s (status_of id r)) (status_of-logged_self id e q) (h id)))
  | inr miss ↦
      there (status_of j q) (status_of j r) (
        subst (λ s. Taken s (status_of j r)) (ground (arith, miss, status_of-logged id j e q))
          (h j))
]

-- Writing one status, and no more.
pub Follows-logged :
    (R : Option Status → Option Status → Type 0) (id : String) (e : LogEntry) (q : QueueState)
    → ((s : Option Status) → R s s)
    → R (status_of id q) (some e.status)
    → Follows R q (logged id e q)
Follows-logged R id e q whole c j = elim (Bool-cases (str_eq id j)) [
  | inl hit ↦
      subst (λ (k : String). R (status_of k q) (status_of k (logged id e q)))
        (ground (arith, hit, eq_iff id j))
        (subst (λ s. R (status_of id q) s) (sym (status_of-logged_self id e q)) c)
  | inr miss ↦
      subst (λ s. R (status_of j q) s) (sym (ground (arith, miss, status_of-logged id j e q)))
        (whole (status_of j q))
]

module _ (id : String) (e : LogEntry) (q : QueueState) where
  pub All-logged :
      (fs : List ConversionFile)
      → Unqueued id fs
      → All (Waits q) fs
      → All (Waits (logged id e q)) fs
  All-logged [] u h = tt
  All-logged (f ∷ fs) u h = (
    ground (arith, status_of-logged id f.conversion_id e q, eq_iff id f.conversion_id, h.0, u.0),
    All-logged fs u.1 h.1,
  )

  -- What does not wait is not queued.
  pub unqueued :
      (s : Option Status) (fs : List ConversionFile)
      → status_of id q ≡ s
      → s ≢ some Status.in_queue
      → All (Waits q) fs
      → Unqueued id fs
  unqueued s [] k d h = tt
  unqueued s (f ∷ fs) k d h = (
    λ (i : f.conversion_id ≡ id).
        let waits = h.0 in let moved = ap (λ (x : String). status_of x q) i in d (cc),
    unqueued s fs k d h.1,
  )

-- The start of the next conversion, for what is left of the queue.
start_first :
    (fs : List ConversionFile) (q : QueueState)
    → All (Waits q) fs
    → IsDistinct fs
    → q.is_converting ≡ false
    → let m = start_next (first_of fs) (record q { conversion = rest_of fs }) in
      IsSound m × Follows Taken q m.queue
start_first [] q waits distinct free = (((tt, tt), (free, refl)), λ id. kept)
start_first (f ∷ fs) q waits distinct free =
    at_entry (entry_of f.conversion_id Status.in_queue q waits.0)
  where
    here : QueueState
    here = begun f (record q { conversion = fs })

    at_entry :
        (e : LogEntry) × (lookup f.conversion_id q.conv_log ≡ some e) × (e.status ≡ Status.in_queue)
        → let m = started f (change_conv_log_entry f.conversion_id Status.processing none here) in
          IsSound m × Follows Taken q m.queue
    at_entry (e, found, _) =
        let mark : LogEntry = record e { status = Status.processing } in
        subst (λ r. IsSound (started f r) × Follows Taken q (started f r).queue)
          (sym (change_conv_log_entry-processing f.conversion_id here e found))
          (
            (
              (All-logged f.conversion_id mark q fs distinct.0 waits.1, distinct.1),
              (refl, status_of-logged_self f.conversion_id mark q),
            ),
            Follows-logged Taken f.conversion_id mark q (λ s. kept)
                (subst (λ s. Taken s (some Status.processing)) (sym waits.0) taken),
          )

pub take_next-IsSound :
    (q : QueueState)
    → IsWaiting q
    → q.is_converting ≡ false
    → IsSound (take_next q) × Follows Taken q (take_next q).queue
unfolding take_next
take_next-IsSound q (waits, distinct) free = start_first q.conversion q waits distinct free

pub finish-IsSound :
    (q : QueueState) → IsWaiting q → IsSound (finish q) × Follows Taken q (finish q).queue
unfolding finish
finish-IsSound q waiting =
    take_next-IsSound (record q { is_converting = false; currently_converting = none }) waiting refl

-- A request that is not queued is not taken.
start_first-Unqueued :
    (id : String) (fs : List ConversionFile) (q : QueueState)
    → All (Waits q) fs
    → Unqueued id fs
    → status_of id (start_next (first_of fs) (record q { conversion = rest_of fs })).queue
      ≡ status_of id q
start_first-Unqueued id [] q waits u = refl
start_first-Unqueued id (f ∷ fs) q waits u =
    let here = begun f (record q { conversion = fs }) in
    let (e, found, known) = entry_of f.conversion_id Status.in_queue q waits.0 in
    let mark : LogEntry = record e { status = Status.processing } in
    subst (λ r. status_of id (started f r).queue ≡ status_of id q)
      (sym (change_conv_log_entry-processing f.conversion_id here e found))
      (ground (arith, status_of-logged f.conversion_id id mark q, eq_iff f.conversion_id id, u.0))

pub finish-Unqueued :
    (id : String) (q : QueueState)
    → IsWaiting q
    → Unqueued id q.conversion
    → status_of id (finish q).queue ≡ status_of id q
unfolding finish take_next
finish-Unqueued id q w u =
    start_first-Unqueued id q.conversion
      (record q { is_converting = false; currently_converting = none }) w.0 u
