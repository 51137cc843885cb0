-- ===== src/Conversion/Awaits.antt =====
-- packages/conversion-service: `convertFile` run in one step, and cut at its awaits, are the same when
-- nothing else happens in between.
use dynamic_conversion_servi.Prelude.{
  Bool, true, false, Option, none, some, List, ◌∷◌, ◌≡◌, refl, sym, ap, ◌∙◌, if◌then◌else◌,
}
use dynamic_conversion_servi.Prelude.Dict.{lookup, lookup-insert_self}
use dynamic_conversion_servi.Prelude.Action.{Result, ok, err, settle, ◌>>◌, modify}
use dynamic_conversion_servi.Conversion.{
  Status, ConversionFile, LogEntry, ConversionFault, QueueState, ConversionConfig,
}
use dynamic_conversion_servi.Conversion.Queue.{
  change_conv_log_entry, get_next_queue_element, first_of,
}
use dynamic_conversion_servi.Conversion.Service.{
  Backend, ServiceState, wrap_conversion, convert_file, process_file, try_file, catch_file, caught,
  delete_input, on_queue, set_current, try_catch, finally,
}
use dynamic_conversion_servi.Conversion.Drain.{released, change_conv_log_entry-processing}
use dynamic_conversion_servi.Conversion.Rounds.{logged}
use dynamic_conversion_servi.Conversion.Events.{
  Event, Machine, begun, started, start_next, take_next, finish, marked_erroneous, after_wrap,
  after_deletion, on_deletion, on_answer, step,
}
use dynamic_conversion_servi.Conversion.Answer.{answer_of, wrap-IsSame}

-- A deletion that nothing waits for changes nothing.
deletion_ignored :
    (config : ConversionConfig) (resolved : Bool) (next : Option ConversionFile) (q : QueueState)
    → let m = start_next next q in on_deletion config resolved m.phase m.queue ≡ m
deletion_ignored config resolved none q = refl
deletion_ignored config resolved (some f) q =
    by_log (change_conv_log_entry f.conversion_id Status.processing none (begun f q))
  where
    by_log :
        (r : Result ConversionFault (Unit {0}) × QueueState)
        → let m = started f r in on_deletion config resolved m.phase m.queue ≡ m
    by_log (ok _, p) = refl
    by_log (err e, p) = refl

module _ {W : Type 0} (backend : Backend W) (config : ConversionConfig) (f : ConversionFile) where
  -- The end of `convertFile` after `wrapConversion`, and the queue then.
  abbrev ended : Result ConversionFault ConversionFile × ServiceState W → QueueState
  ended r =
      (caught (catch_file backend config f) (
        settle (λ _. on_queue (modify (set_current none)) >> delete_input backend config f.path)
          r)).1.queue

  abbrev deletion : Machine → Bool → Machine
  deletion m resolved = on_deletion config resolved m.phase m.queue

  finish_ignores : (q : QueueState) (resolved : Bool) → deletion (finish q) resolved ≡ finish q
  unfolding finish take_next
  finish_ignores q resolved = deletion_ignored config resolved (first_of q.conversion) _

  -- A conversion that returned: its input file is deleted, or its entry set back.
  deleted_after :
      (t : ServiceState W) (d : Bool × W)
      → let r : Result ConversionFault (Unit {0}) × ServiceState W = (
        if (if d.0 then false else true) then err (ConversionFault.invalid_path f.path) else ok tt,
        record t { world = d.1 },
      ) in
        after_deletion f true d.0 t.queue ≡ finish (caught (catch_file backend config f) r).1.queue
  unfolding catch_file
  deleted_after t (true, w) = refl
  deleted_after t (false, w) = refl

  -- A request that is given up: whatever becomes of the deletion, the end is the same.
  given_up_after :
      (c : Result ConversionFault (Unit {0}) × QueueState) (t : ServiceState W) (resolved : Bool)
      → deletion (marked_erroneous f c) resolved
        ≡ finish
            (settle
              (λ _. delete_input backend config f.path)
              (c.0, record t { queue = c.1 })).1.queue
  given_up_after (ok a, q) t resolved = refl
  given_up_after (err e, q) t resolved = finish_ignores q resolved

  ends_same :
      (r : Result ConversionFault ConversionFile × ServiceState W)
      → deletion (after_wrap f r.0 r.1.queue) (backend.delete_file f.path r.1.world).0
        ≡ finish (ended r)
  unfolding catch_file
  ends_same (ok g, t) =
      deleted_after (record t { queue = set_current none t.queue })
        (backend.delete_file f.path t.world)
  ends_same (err (ConversionFault.max_conversion_tries id), t) =
      given_up_after (change_conv_log_entry f.conversion_id Status.erroneous none t.queue) t _
  ends_same (err (ConversionFault.no_such_conversion_id id), t) = finish_ignores _ _
  ends_same (err (ConversionFault.invalid_path id), t) = finish_ignores _ _
  ends_same (err ConversionFault.conversion_error, t) = finish_ignores _ _
  ends_same (err ConversionFault.external, t) = finish_ignores _ _
  ends_same (err (ConversionFault.rule_fault x), t) = finish_ignores _ _

  module _ (q : QueueState) (fs : List ConversionFile) (w : W) (entry : LogEntry) where
    -- The queue with `f` first, and the state in which its conversion begins.
    abbrev pub before : QueueState
    before = record q { conversion = f ∷ fs }

    abbrev marked_queue : QueueState
    marked_queue =
        logged f.conversion_id (record entry { status = Status.processing })
          (begun f (record q { conversion = fs }))

    abbrev pub wrapped : Result ConversionFault ConversionFile × ServiceState W
    wrapped = wrap_conversion backend config f (record { queue = marked_queue; world = w })

    from_log : Result ConversionFault (Unit {0}) × QueueState → QueueState
    from_log c =
        (settle
          (λ (_ : Unit {0}).
            finally (try_catch (try_file backend config f) (catch_file backend config f)) released)
          (c.0, record { queue = c.1; world = w })).1.queue

    one_step :
        lookup f.conversion_id q.conv_log ≡ some entry
        → (convert_file backend config (record { queue = before; world = w })).1.queue
          ≡ released (ended wrapped)
    unfolding convert_file process_file get_next_queue_element from_log try_file
    one_step found = ap from_log (
        change_conv_log_entry-processing f.conversion_id (begun f (record q { conversion = fs }))
          entry found)

    -- When a request is taken from the queue and nothing else arrives, the answer of its wrapper and the
    -- outcome of the deletion lead the machine to where `convertFile`, run in one step, leaves the
    -- queue, with the next request taken.
    pub convert_file_awaits :
        lookup f.conversion_id q.conv_log ≡ some entry
        → step config
            (Event.deleted (backend.delete_file f.path wrapped.1.world).0)
            (step config (Event.answered (answer_of backend config f w)) (take_next before))
          ≡ take_next (convert_file backend config (record { queue = before; world = w })).1.queue
    unfolding step take_next finish
    convert_file_awaits found =
        let d = (backend.delete_file f.path wrapped.1.world).0 in
        let s : ServiceState W = record { queue = marked_queue; world = w } in
        let mark : LogEntry = record entry { status = Status.processing } in
        let (same_end, same_queue) =
          wrap-IsSame backend config f s mark
            (lookup-insert_self f.conversion_id mark q.conv_log) in
        ap
          (λ c.
            let m = started f c in
            deletion (on_answer config (answer_of backend config f w) m.phase m.queue) d)
          (change_conv_log_entry-processing f.conversion_id (begun f (record q { conversion = fs }))
            entry found)
        ∙ ap
            (λ (u : Result ConversionFault ConversionFile × QueueState).
              deletion (after_wrap f u.0 u.1) d)
            (λ i. (sym same_end i, sym same_queue i))
        ∙ ends_same wrapped
        ∙ ap take_next (sym (one_step found))
