-- ===== src/Conversion/Settled.antt =====
-- The chain of `update` calls of packages/conversion-service/src/service/conversion/index.ts, run on
-- a queue of conversions until it ends.
use mathlib.Core.Path.{subst}
use dynamic_conversion_servi.Prelude.{
  ℕ, suc, zero, ◌≤◌, String, Bool, true, false, some, List, [], ◌∷◌, ◌≡◌, inl, inr, refl, sym, ap,
  ◌∙◌, arith, eq_iff, str_eq, Bool-cases, if◌then◌else◌,
}
use dynamic_conversion_servi.Prelude.Dict.{lookup}
use dynamic_conversion_servi.Conversion.{ConversionFile, LogEntry, QueueState, ConversionConfig}
use dynamic_conversion_servi.Conversion.Queue.{get_next_queue_element}
use dynamic_conversion_servi.Conversion.Service.{
  Backend, ServiceState, process_file, convert_file, update,
}
use dynamic_conversion_servi.Conversion.Drain.{IsFinal, IsRound}
use dynamic_conversion_servi.Conversion.Complete.{
  queued, IsLive, work, process_file-IsRound, round-IsLive, round-work,
}

abbrev pub IsKnown : String → QueueState → Type 0
IsKnown k q = (e : LogEntry) × (lookup k q.conv_log ≡ some e)

-- A logged conversion that is over.
abbrev pub IsOver : String → QueueState → Type 0
IsOver k q = (e : LogEntry) × (lookup k q.conv_log ≡ some e) × IsFinal e.status

-- The queue is empty, the service idle, and no logged conversion was dropped.
abbrev IsDrained : QueueState → QueueState → Type 0
IsDrained q p =
    IsLive p
    × (p.conversion ≡ [])
    × (p.is_converting ≡ false)
    × ((k : String) → IsKnown k q → IsKnown k p)

if_false : {A : Type 0} (b : Bool) (x y : A) → b ≡ false → (if b then x else y) ≡ y
if_false b x y e = rw e refl

work-none : (tries : ℕ) (fs : List ConversionFile) → work tries fs ≤ 0 → fs ≡ []
work-none tries [] h = refl
work-none tries (f ∷ fs) h = absurd (omega arith)

round-keeps :
    (config : ConversionConfig) (f : ConversionFile) (q p : QueueState)
    → IsRound config f q p
    → (k : String) → IsKnown k q
    → IsKnown k p
round-keeps config f q p (e, found, others, free, end) k (x, known) =
    elim (Bool-cases (str_eq f.conversion_id k)) [
      | inl same ↦
          (e, subst (λ i. lookup i p.conv_log ≡ some e) ((eq_iff f.conversion_id k).0 same) found)
      | inr other ↦ (x, others k (λ i. cc ((eq_iff f.conversion_id k).1 i)) ∙ known)
    ]

module _ {W : Type 0} (backend : Backend W) (config : ConversionConfig) where
  convert_file-idle :
      (s : ServiceState W)
      → s.queue.conversion ≡ []
      → (convert_file backend config s).1 ≡ record s { queue = record s.queue { conversion = [] } }
  unfolding convert_file get_next_queue_element
  convert_file-idle s e = rw e refl

  convert_file-first :
      (s : ServiceState W) (f : ConversionFile) (fs : List ConversionFile)
      → s.queue.conversion ≡ f ∷ fs
      → (convert_file backend config s).1
        ≡ (process_file backend config f
            (record s { queue = record s.queue { conversion = fs } })).1
  unfolding convert_file get_next_queue_element
  convert_file-first s f fs e = rw e refl

module _ {W : Type 0} (backend : Backend W) (config : ConversionConfig)
    (deletes : (path : String) (w : W) → (backend.delete_file path w).0 ≡ true) where
  update-drains :
      (n : ℕ) (s : ServiceState W)
      → IsLive s.queue
      → s.queue.is_converting ≡ false
      → work config.conversion_tries s.queue.conversion ≤ n
      → IsDrained s.queue (update backend config n s).queue
  unfolding update
  update-drains zero s live free h =
      (live, work-none config.conversion_tries s.queue.conversion h, free, λ k known. known)
  update-drains (suc n) s live free h =
      subst (λ t. IsDrained s.queue t.queue)
        (sym (
          if_false s.queue.is_converting s
            (update backend config n (convert_file backend config s).1) free))
        (by_list (λ t l i b. update-drains n t l i b) s.queue.conversion refl)
    where
      by_list :
          ((t : ServiceState W)
            → IsLive t.queue
            → t.queue.is_converting ≡ false
            → work config.conversion_tries t.queue.conversion ≤ n
            → IsDrained t.queue (update backend config n t).queue)
          → (l : List ConversionFile) → s.queue.conversion ≡ l
          → IsDrained s.queue (update backend config n (convert_file backend config s).1).queue
      by_list drains [] e = rw (convert_file-idle backend config s e) (
          drains (record s { queue = record s.queue { conversion = [] } })
            (subst (λ l. IsLive (record s.queue { conversion = l })) e live) free (omega arith))
      by_list drains (f ∷ fs) e =
          let s' : ServiceState W = record s { queue = record s.queue { conversion = fs } } in
          let live' = subst (λ l. IsLive (record s.queue { conversion = l })) e live in
          let (entry, found) =
            live'.1 f.conversion_id (ground (arith, eq_iff f.conversion_id f.conversion_id)) in
          let round = process_file-IsRound backend config deletes f s' entry found in
          let t = (process_file backend config f s').1 in
          let less = round-work config f fs s.queue t.queue round in
          let known = round-keeps config f s'.queue t.queue round in
          let bound = subst (λ l. work config.conversion_tries l ≤ suc n) e h in
          let (after, empty, idle, keeps) =
            drains t (round-IsLive config f fs s.queue t.queue live' round) round.3
              (omega (arith, less, bound)) in
          rw (convert_file-first backend config s f fs e)
            (after, empty, idle, λ k there. keeps k (known k there))

-- While every deletion of an input file succeeds: on an idle service whose queue holds all logged
-- conversions that are not over, with no more work queued than `n`, `n` rounds of `update` empty the
-- queue, leave the service idle, and every logged conversion ends converted or erroneous, whatever
-- the wrappers answer.
pub update_settles :
    {W : Type 0} (backend : Backend W) (config : ConversionConfig)
    → ((path : String) (w : W) → (backend.delete_file path w).0 ≡ true)
    → (n : ℕ) (s : ServiceState W) → IsLive s.queue
    → s.queue.is_converting ≡ false
    → work config.conversion_tries s.queue.conversion ≤ n
    → (k : String) → IsKnown k s.queue
    → let t = (update backend config n s).queue in
      (t.conversion ≡ []) × (t.is_converting ≡ false) × IsOver k t
update_settles backend config deletes n s live free h k known =
    let (after, empty, idle, keeps) = update-drains backend config deletes n s live free h in
    let (e, found) = keeps k known in
    (
      empty,
      idle,
      elim (after.0 k e found) [
        | inl final ↦ (e, found, final)
        | inr (waits, there) ↦ absurd (ground (arith, sym (ap (queued k) empty) ∙ there))
      ],
    )
