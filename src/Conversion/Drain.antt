-- ===== src/Conversion/Drain.antt =====
-- How a conversion that `convertFile` takes from the queue ends, and that the chain of `update` calls
-- empties the queue.
use dynamic_conversion_servi.Prelude.{
  ◌<◌, String, true, false, none, some, List, [], ◌∷◌, ◌++◌, ◌≡◌, ◌≢◌, ◌⊎◌, inl, inr, refl, ap, ◌∙◌,
}
use dynamic_conversion_servi.Prelude.Dict.{lookup, insert, lookup-insert_self, lookup-insert_ne}
use dynamic_conversion_servi.Prelude.Action.{Result, ok, err, settle, modify, ◌>>◌}
use dynamic_conversion_servi.Conversion.{
  Status, ConversionFile, LogEntry, ConversionFault, QueueState, ConversionConfig,
}
use dynamic_conversion_servi.Conversion.Queue.{change_conv_log_entry}
use dynamic_conversion_servi.Conversion.Service.{
  Backend, ServiceState, catch_file, caught, delete_input, on_queue, set_current,
}
use dynamic_conversion_servi.Conversion.Rounds.{retried, logged, IsWrapped}

abbrev pub IsFinal : Status → Type 0
IsFinal status = (status ≡ Status.converted) ⊎ (status ≡ Status.erroneous)

-- How the queue with entry `e` for the taken file differs from the queue before.
abbrev pub IsRound : ConversionConfig → ConversionFile → QueueState → QueueState → Type 0
IsRound config f q p =
    (e : LogEntry) × (lookup f.conversion_id p.conv_log ≡ some e)
    × ((k : String) → f.conversion_id ≢ k → lookup k p.conv_log ≡ lookup k q.conv_log)
    × (p.is_converting ≡ false)
    × ((IsFinal e.status × (p.conversion ≡ q.conversion))
        ⊎ ((f.retries < config.conversion_tries)
            × (e.status ≡ Status.in_queue)
            × (p.conversion ≡ q.conversion ++ retried f ∷ [])))

abbrev pub released : QueueState → QueueState
released q = record q { is_converting = false; currently_converting = none }

-- Two writes of one entry leave the others.
twice_ne :
    (id k : String) (a b : LogEntry) (m : List (String × LogEntry))
    → id ≢ k
    → lookup k (insert id a (insert id b m)) ≡ lookup k m
twice_ne id k a b m h = lookup-insert_ne id k a (insert id b m) h ∙ lookup-insert_ne id k b m h

thrice_ne :
    (id k : String) (a b c : LogEntry) (m : List (String × LogEntry))
    → id ≢ k
    → lookup k (insert id a (insert id b (insert id c m))) ≡ lookup k m
thrice_ne id k a b c m h =
    lookup-insert_ne id k a (insert id b (insert id c m)) h ∙ twice_ne id k b c m h

-- An entry that is there takes any status but `converted` without a path.
pub change_conv_log_entry-erroneous :
    (id : String) (q : QueueState) (e : LogEntry)
    → lookup id q.conv_log ≡ some e
    → change_conv_log_entry id Status.erroneous none q
      ≡ (ok tt, logged id (record e { status = Status.erroneous }) q)
unfolding change_conv_log_entry
change_conv_log_entry-erroneous id q e found = rw found refl

pub change_conv_log_entry-in_queue :
    (id : String) (q : QueueState) (e : LogEntry)
    → lookup id q.conv_log ≡ some e
    → change_conv_log_entry id Status.in_queue none q
      ≡ (ok tt, logged id (record e { status = Status.in_queue }) q)
unfolding change_conv_log_entry
change_conv_log_entry-in_queue id q e found = rw found refl

pub change_conv_log_entry-processing :
    (id : String) (q : QueueState) (e : LogEntry)
    → lookup id q.conv_log ≡ some e
    → change_conv_log_entry id Status.processing none q
      ≡ (ok tt, logged id (record e { status = Status.processing }) q)
unfolding change_conv_log_entry
change_conv_log_entry-processing id q e found = rw found refl

delete_input-deletes :
    {W : Type 0} (backend : Backend W) (config : ConversionConfig)
    → ((path : String) (w : W) → (backend.delete_file path w).0 ≡ true)
    → (path : String) (s : ServiceState W)
    → delete_input backend config path s
      ≡ (ok tt, record s { world = (backend.delete_file path s.world).1 })
delete_input-deletes backend config deletes path s = rw (deletes path s.world) refl

module _ {W : Type 0} (backend : Backend W) (config : ConversionConfig)
    (deletes : (path : String) (w : W) → (backend.delete_file path w).0 ≡ true) where
  module _ (f : ConversionFile) (q : QueueState) (mark : LogEntry) where
    abbrev pub marked : QueueState
    marked = record q {
      is_converting = true;
      currently_converting = some f;
      conv_log = insert f.conversion_id mark q.conv_log;
    }

    -- From the end of `wrapConversion` to the end of `convertFile`.
    abbrev pub ended : Result ConversionFault ConversionFile × ServiceState W → ServiceState W
    ended r =
        (caught (catch_file backend config f) (
          settle (λ _. on_queue (modify (set_current none)) >> delete_input backend config f.path)
            r)).1

    ended-ok :
        (g : ConversionFile) (t : ServiceState W)
        → (ended (ok g, t)).queue ≡ set_current none t.queue
    ended-ok g t =
        ap (λ r. (caught (catch_file backend config f) r).1.queue)
          (delete_input-deletes backend config deletes f.path
            (record t { queue = set_current none t.queue }))

    ended-max :
        (id : String) (t : ServiceState W) (e : LogEntry)
        → lookup f.conversion_id t.queue.conv_log ≡ some e
        → (ended (err (ConversionFault.max_conversion_tries id), t)).queue
          ≡ logged f.conversion_id (record e { status = Status.erroneous }) t.queue
    unfolding catch_file
    ended-max id t e found =
        ap
          (λ r.
            (settle (λ _. delete_input backend config f.path)
              (r.0, record t { queue = r.1 })).1.queue)
          (change_conv_log_entry-erroneous f.conversion_id t.queue e found)
        ∙ ap (λ r. r.1.queue)
            (delete_input-deletes backend config deletes f.path (record t {
              queue = logged f.conversion_id (record e { status = Status.erroneous }) t.queue;
            }))

    ended-again :
        (t : ServiceState W) (e : LogEntry)
        → lookup f.conversion_id t.queue.conv_log ≡ some e
        → (ended (err ConversionFault.conversion_error, t)).queue
          ≡ logged f.conversion_id (record e { status = Status.in_queue }) t.queue
    unfolding catch_file
    ended-again t e found =
        ap (λ r. r.1) (change_conv_log_entry-in_queue f.conversion_id t.queue e found)

    pub ended-IsRound :
        (r : Result ConversionFault ConversionFile × ServiceState W)
        → IsWrapped backend config f marked r
        → IsRound config f q (released (ended r).queue)
    ended-IsRound (ok g, t) (e, done, same, left) =
        rw (ended-ok g t, same)
          (
            e,
            lookup-insert_self f.conversion_id e _,
            λ k h. twice_ne f.conversion_id k e mark q.conv_log h,
            refl,
            inl (inl done, refl),
          )
    ended-IsRound (err x, t) (inl (spent, same, fault)) =
        rw
          (
            fault,
            ended-max f.conversion_id t mark
                (rw same (lookup-insert_self f.conversion_id mark q.conv_log)),
            same,
          )
          (
            record mark { status = Status.erroneous },
            lookup-insert_self f.conversion_id _ _,
            λ k h. twice_ne f.conversion_id k _ mark q.conv_log h,
            refl,
            inl (inr refl, refl),
          )
    ended-IsRound (err x, t) (inr (left, same, fault)) =
        rw
          (
            fault,
            ended-again t (record { file = retried f; status = Status.in_queue })
                (rw same
                  (lookup-insert_self f.conversion_id _ (insert f.conversion_id mark q.conv_log))),
            same,
          )
          (
            record { file = retried f; status = Status.in_queue },
            lookup-insert_self f.conversion_id _ _,
            λ k h. thrice_ne f.conversion_id k _ _ mark q.conv_log h,
            refl,
            inr (left, refl, refl),
          )
