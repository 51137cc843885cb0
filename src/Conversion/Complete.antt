-- ===== src/Conversion/Complete.antt =====
-- The invariant of the conversion log, and that the chain of `update` calls settles every entry.
use mathlib.Core.Path.{subst}
use dynamic_conversion_servi.Prelude.{
  ℕ, suc, ◌+◌, ◌-◌, ◌<◌, String, Bool, true, false, ◌||◌, Option, none, some, List, [], ◌∷◌, ◌++◌,
  ◌≡◌, ◌≢◌, ◌⊎◌, inl, inr, refl, sym, ap, ◌∙◌, arith, ltb, str_eq, eq_iff, Bool-cases,
}
use dynamic_conversion_servi.Prelude.Dict.{lookup, insert, lookup-insert, lookup-insert_self}
use dynamic_conversion_servi.Prelude.Action.{settle}
use dynamic_conversion_servi.Conversion.{
  Status, ConversionFile, LogEntry, QueueState, ConversionConfig,
}
use dynamic_conversion_servi.Conversion.Queue.{add_to_queue}
use dynamic_conversion_servi.Conversion.Service.{
  Backend, ServiceState, wrap_conversion, try_file, catch_file, process_file, try_catch, finally,
}
use dynamic_conversion_servi.Conversion.Rounds.{retried, wrap_conversion_cases}
use dynamic_conversion_servi.Conversion.Drain.{
  IsFinal, IsRound, released, marked, ended-IsRound, change_conv_log_entry-processing,
}

abbrev pub queued : String → List ConversionFile → Bool
queued k [] = false
queued k (f ∷ fs) = str_eq f.conversion_id k || queued k fs

-- Every logged conversion is over or waits in the queue, and what is queued is logged.
abbrev pub IsLive : QueueState → Type 0
IsLive q =
    ((k : String) (e : LogEntry)
      → lookup k q.conv_log ≡ some e
      → IsFinal e.status ⊎ ((e.status ≡ Status.in_queue) × (queued k q.conversion ≡ true)))
    × ((k : String)
        → queued k q.conversion ≡ true
        → (e : LogEntry) × (lookup k q.conv_log ≡ some e))

-- How many conversions the queued files can take: each one more than it has tries left.
abbrev pub work : ℕ → List ConversionFile → ℕ
work tries [] = 0
work tries (f ∷ fs) = suc (tries - f.retries) + work tries fs

queued-append :
    (k : String) (fs : List ConversionFile) (f : ConversionFile)
    → queued k (fs ++ f ∷ []) ≡ (queued k fs || str_eq f.conversion_id k)
queued-append k [] f = ground arith
queued-append k (g ∷ fs) f = ground (arith, queued-append k fs f)

work-append :
    (tries : ℕ) (fs : List ConversionFile) (f : ConversionFile)
    → work tries (fs ++ f ∷ []) ≡ work tries fs + suc (tries - f.retries)
work-append tries [] f = omega arith
work-append tries (g ∷ fs) f = omega (arith, work-append tries fs f)

abbrev status_of : Option LogEntry → Status
status_of none = Status.in_queue
status_of (some e) = e.status

-- If every logged conversion is over or queued, and what is queued is logged, that is still so after
-- a request is added or refused.
pub add_to_queue-IsLive :
    (config : ConversionConfig) (f : ConversionFile) (q : QueueState)
    → IsLive q
    → IsLive (add_to_queue config f q).1
unfolding add_to_queue
add_to_queue-IsLive config f q live = elim (Bool-cases (ltb config.conversion_tries f.retries)) [
  | inl refused ↦ rw refused live
  | inr taken ↦ rw taken (statuses, entries)
]
  where
    entry : LogEntry
    entry = record { file = f; status = Status.in_queue }

    written :
        (k : String)
        → str_eq f.conversion_id k ≡ true
        → lookup k (insert f.conversion_id entry q.conv_log) ≡ some entry
    written k same = lookup-insert f.conversion_id k entry q.conv_log ∙ rw same refl

    kept :
        (k : String)
        → str_eq f.conversion_id k ≡ false
        → lookup k q.conv_log ≡ lookup k (insert f.conversion_id entry q.conv_log)
    kept k other = sym (lookup-insert f.conversion_id k entry q.conv_log ∙ rw other refl)

    statuses :
        (k : String) (e : LogEntry)
        → lookup k (insert f.conversion_id entry q.conv_log) ≡ some e
        → IsFinal e.status
          ⊎ ((e.status ≡ Status.in_queue) × (queued k (q.conversion ++ f ∷ []) ≡ true))
    statuses k e h = elim (Bool-cases (str_eq f.conversion_id k)) [
      | inl same ↦ inr (
        ap status_of (sym h ∙ written k same),
        ground (arith, same, queued-append k q.conversion f),
      )
      | inr other ↦ elim (live.0 k e (kept k other ∙ h)) [
        | inl final ↦ inl final
        | inr (waits, there) ↦ inr (waits, ground (arith, queued-append k q.conversion f))
      ]
    ]

    entries :
        (k : String)
        → queued k (q.conversion ++ f ∷ []) ≡ true
        → (e : LogEntry) × (lookup k (insert f.conversion_id entry q.conv_log) ≡ some e)
    entries k h = elim (Bool-cases (str_eq f.conversion_id k)) [
      | inl same ↦ (entry, written k same)
      | inr other ↦
          let (e, found) = live.1 k (ground (arith, queued-append k q.conversion f)) in
          (e, sym (kept k other) ∙ found)
    ]

module _ {W : Type 0} (backend : Backend W) (config : ConversionConfig)
    (deletes : (path : String) (w : W) → (backend.delete_file path w).0 ≡ true) where
  pub process_file-IsRound :
      (f : ConversionFile) (s : ServiceState W) (entry : LogEntry)
      → lookup f.conversion_id s.queue.conv_log ≡ some entry
      → IsRound config f s.queue (process_file backend config f s).1.queue
  unfolding process_file try_file
  process_file-IsRound f s entry found =
      let mark : LogEntry = record entry { status = Status.processing } in
      let start : ServiceState W = record s {
        queue = marked backend config deletes f s.queue mark;
      } in
      subst (IsRound config f s.queue)
        (sym (
          ap
            (λ r.
              (settle
                (λ _.
                  finally (try_catch (try_file backend config f) (catch_file backend config f))
                    released)
                (r.0, record s { queue = r.1 })).1.queue)
            (change_conv_log_entry-processing f.conversion_id
              (record s.queue { is_converting = true; currently_converting = some f }) entry
              found)))
        (ended-IsRound backend config deletes f s.queue mark
          (wrap_conversion backend config f start)
          (wrap_conversion_cases backend config f start mark
            (lookup-insert_self f.conversion_id mark s.queue.conv_log)))

-- What a round does to the invariant, when `f` was the first of the queue.
pub round-IsLive :
    (config : ConversionConfig) (f : ConversionFile) (fs : List ConversionFile) (q p : QueueState)
    → IsLive (record q { conversion = f ∷ fs })
    → IsRound config f (record q { conversion = fs }) p
    → IsLive p
round-IsLive config f fs q p live (e, found, others, free, end) = (statuses end, entries end)
  where
    End : Type 0
    End =
        (IsFinal e.status × (p.conversion ≡ fs))
        ⊎ ((f.retries < config.conversion_tries)
            × (e.status ≡ Status.in_queue)
            × (p.conversion ≡ fs ++ retried f ∷ []))

    later : (k : String) → End → queued k fs ≡ true → queued k p.conversion ≡ true
    later k (inl (final, kept)) h = rw kept h
    later k (inr (left, waits, again)) h = rw (again, queued-append k fs (retried f), h) refl

    at : (k : String) → str_eq f.conversion_id k ≡ true → lookup k p.conv_log ≡ some e
    at k same = subst (λ i. lookup i p.conv_log ≡ some e) ((eq_iff f.conversion_id k).0 same) found

    own :
        (k : String)
        → str_eq f.conversion_id k ≡ true
        → End
        → (x : LogEntry) → lookup k p.conv_log ≡ some x
        → IsFinal x.status ⊎ ((x.status ≡ Status.in_queue) × (queued k p.conversion ≡ true))
    own k same (inl (final, kept)) x h =
        inl (subst IsFinal (ap status_of (sym (at k same) ∙ h)) final)
    own k same (inr (left, waits, again)) x h = inr (
      sym (ap status_of (sym (at k same) ∙ h)) ∙ waits,
      rw again (ground (arith, same, queued-append k fs (retried f))),
    )

    earlier :
        (k : String)
        → str_eq f.conversion_id k ≡ false
        → End
        → queued k p.conversion ≡ true
        → queued k (f ∷ fs) ≡ true
    earlier k other (inl (final, kept)) h =
        let there = sym (ap (queued k) kept) ∙ h in ground (arith, other, there)
    earlier k other (inr (left, waits, again)) h =
        let there = sym (ap (queued k) again ∙ queued-append k fs (retried f)) ∙ h in
        ground (arith, other, there)

    statuses :
        End
        → (k : String) (x : LogEntry) → lookup k p.conv_log ≡ some x
        → IsFinal x.status ⊎ ((x.status ≡ Status.in_queue) × (queued k p.conversion ≡ true))
    statuses end k x h = elim (Bool-cases (str_eq f.conversion_id k)) [
      | inl same ↦ own k same end x h
      | inr other ↦
          let apart : f.conversion_id ≢ k = λ i. cc ((eq_iff f.conversion_id k).1 i) in
          elim (live.0 k x (sym (others k apart) ∙ h)) [
            | inl final ↦ inl final
            | inr (waits, there) ↦ inr (waits, later k end (ground (arith, other, there)))
          ]
    ]

    entries :
        End
        → (k : String) → queued k p.conversion ≡ true
        → (x : LogEntry) × (lookup k p.conv_log ≡ some x)
    entries end k h = elim (Bool-cases (str_eq f.conversion_id k)) [
      | inl same ↦ (e, at k same)
      | inr other ↦
          let apart : f.conversion_id ≢ k = λ i. cc ((eq_iff f.conversion_id k).1 i) in
          let (x, known) = live.1 k (earlier k other end h) in (x, others k apart ∙ known)
    ]

-- A round takes work away.
pub round-work :
    (config : ConversionConfig) (f : ConversionFile) (fs : List ConversionFile) (q p : QueueState)
    → IsRound config f (record q { conversion = fs }) p
    → work config.conversion_tries p.conversion < work config.conversion_tries (f ∷ fs)
round-work config f fs q p (e, found, others, free, inl (final, kept)) = rw kept (omega arith)
round-work config f fs q p (e, found, others, free, inr (left, waits, again)) =
    rw again (omega (arith, work-append config.conversion_tries fs (retried f), left))
