-- ===== src/Conversion/Rounds.antt =====
-- What one conversion does to the queue and the log, on each of its branches.
use dynamic_conversion_servi.Prelude.{
  ◌+◌, ◌≤◌, ◌<◌, String, Bool, true, false, Option, none, some, [], ◌∷◌, ◌++◌, ◌≡◌, ◌⊎◌, inl, inr,
  refl, arith, ltb, leb, str_eq, Bool-cases,
}
use dynamic_conversion_servi.Prelude.Dict.{lookup, insert}
use dynamic_conversion_servi.Prelude.Action.{Result, ok, err}
use dynamic_conversion_servi.Conversion.{
  Status, Wrapper, ConversionFile, LogEntry, ConversionFault, RuleFault, QueueState,
  ConversionConfig,
}
use dynamic_conversion_servi.Conversion.Queue.{add_to_queue, change_conv_log_entry}
use dynamic_conversion_servi.Conversion.Rules.{determine_converter}
use dynamic_conversion_servi.Conversion.Service.{
  Backend, ServiceState, try_conversion, catch_conversion, wrap_conversion,
}

-- The file with one more try behind it, as `wrapConversion` queues it again.
abbrev pub retried : ConversionFile → ConversionFile
retried f = record f { retries = f.retries + 1 }

-- The queue with a new log entry for a file.
abbrev pub logged : String → LogEntry → QueueState → QueueState
logged id e q = record q { conv_log = insert id e q.conv_log }

abbrev pub queued_again : ConversionFile → QueueState → QueueState
queued_again f q = record q {
  conversion = q.conversion ++ retried f ∷ [];
  conv_log =
      insert f.conversion_id (record { file = retried f; status = Status.in_queue }) q.conv_log;
}

module _ {W : Type 0} (backend : Backend W) (config : ConversionConfig) where
  -- The three ways in which `wrapConversion` ends: the file, with a try left, is converted; it has none; or the
  -- conversion failed, and the file is queued again with one more try counted.
  abbrev pub IsWrapped :
      ConversionFile → QueueState → Result ConversionFault ConversionFile × ServiceState W → Type 0
  IsWrapped f q (ok g, t) =
      (e : LogEntry) × (e.status ≡ Status.converted)
      × (t.queue ≡ logged f.conversion_id e q)
      × (f.retries < config.conversion_tries)
  IsWrapped f q (err e, t) =
      ((config.conversion_tries ≤ f.retries)
        × (t.queue ≡ q)
        × (e ≡ ConversionFault.max_conversion_tries f.conversion_id))
      ⊎ ((f.retries < config.conversion_tries)
          × (t.queue ≡ queued_again f q)
          × (e ≡ ConversionFault.conversion_error))

  module _ (f : ConversionFile) (s : ServiceState W) (entry : LogEntry) where
    -- `wrapConversion` of a logged file ends in one of three ways: it has a try left and is converted, and
    -- its log entry says so; or it has no try left, the error says so, and the queue is as before; or it
    -- has one left, and is queued again with one more try counted while the conversion error is thrown.
    pub wrap_conversion_cases :
        lookup f.conversion_id s.queue.conv_log ≡ some entry
        → IsWrapped f s.queue (wrap_conversion backend config f s)
    unfolding wrap_conversion try_conversion catch_conversion add_to_queue change_conv_log_entry
    wrap_conversion_cases e = elim (Bool-cases (leb config.conversion_tries f.retries)) [
      | inl spent ↦ rw spent (inl (ground (arith, spent), refl, refl))
      | inr left ↦ by_choice left (determine_converter config f.source_format f.target_format) refl
    ]
      where
        fits :
            leb config.conversion_tries f.retries ≡ false
            → ltb config.conversion_tries (f.retries + 1) ≡ false
        fits left = ground arith

        room : leb config.conversion_tries f.retries ≡ false → f.retries < config.conversion_tries
        room left = ground arith

        by_path :
            leb config.conversion_tries f.retries ≡ false
            → (w : Wrapper) → determine_converter config f.source_format f.target_format ≡ ok w
            → (path : String) → (backend.convert_to_target w f s.world).0 ≡ some path
            → (b : Bool) → str_eq path "" ≡ b
            → IsWrapped f s.queue (wrap_conversion backend config f s)
        by_path left w d path a true empty =
            rw (left, d, a, e, empty, fits left) (inr (room left, refl, refl))
        by_path left w d path a false full = rw (left, d, a, e, full) (_, refl, refl, room left)

        by_answer :
            leb config.conversion_tries f.retries ≡ false
            → (w : Wrapper) → determine_converter config f.source_format f.target_format ≡ ok w
            → (answer : Option String) → (backend.convert_to_target w f s.world).0 ≡ answer
            → IsWrapped f s.queue (wrap_conversion backend config f s)
        by_answer left w d none a = rw (left, d, a, fits left) (inr (room left, refl, refl))
        by_answer left w d (some path) a = by_path left w d path a (str_eq path "") refl

        by_choice :
            leb config.conversion_tries f.retries ≡ false
            → (r : Result RuleFault Wrapper)
            → determine_converter config f.source_format f.target_format ≡ r
            → IsWrapped f s.queue (wrap_conversion backend config f s)
        by_choice left (err x) d = rw (left, d, fits left) (inr (room left, refl, refl))
        by_choice left (ok w) d = by_answer left w d (backend.convert_to_target w f s.world).0 refl
