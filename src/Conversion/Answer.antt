-- ===== src/Conversion/Answer.antt =====
-- packages/conversion-service: of a wrapper, `wrapConversion` depends on the answer only.
use dynamic_conversion_servi.Prelude.{
  String, Bool, true, false, Option, none, some, ◌≡◌, inl, inr, refl, arith, leb, ltb, Bool-cases,
  str_eq, ◌+◌,
}
use dynamic_conversion_servi.Prelude.Dict.{lookup}
use dynamic_conversion_servi.Prelude.Action.{Result, ok, err}
use dynamic_conversion_servi.Conversion.{
  Wrapper, ConversionFile, LogEntry, ConversionFault, RuleFault, ConversionConfig,
}
use dynamic_conversion_servi.Conversion.Queue.{add_to_queue, change_conv_log_entry}
use dynamic_conversion_servi.Conversion.Rules.{determine_converter}
use dynamic_conversion_servi.Conversion.Service.{
  Backend, ServiceState, wrap_conversion, try_conversion, catch_conversion,
}
use dynamic_conversion_servi.Conversion.Events.{answering}

module _ {W : Type 0} (backend : Backend W) (config : ConversionConfig) (f : ConversionFile) where
  -- What the wrapper answers; none when there is no wrapper.
  abbrev answer_in : W → Result RuleFault Wrapper → Option String
  answer_in w (err e) = none
  answer_in w (ok converter) = (backend.convert_to_target converter f w).0

  abbrev pub answer_of : W → Option String
  answer_of w = answer_in w (determine_converter config f.source_format f.target_format)

  -- The same value or throw, and the same queue.
  abbrev pub IsSame :
      Result ConversionFault ConversionFile × ServiceState W
      → Result ConversionFault ConversionFile × ServiceState (Unit {0})
      → Type 0
  IsSame a b = (a.0 ≡ b.0) × (a.1.queue ≡ b.1.queue)

  module _ (s : ServiceState W) (entry : LogEntry)
      (found : lookup f.conversion_id s.queue.conv_log ≡ some entry) where
    fits :
        leb config.conversion_tries f.retries ≡ false
        → ltb config.conversion_tries (f.retries + 1) ≡ false
    fits left = ground arith

    by_path :
        leb config.conversion_tries f.retries ≡ false
        → (w : Wrapper) → determine_converter config f.source_format f.target_format ≡ ok w
        → (path : String) → (backend.convert_to_target w f s.world).0 ≡ some path
        → (b : Bool) → str_eq path "" ≡ b
        → IsSame (wrap_conversion backend config f s) (
            wrap_conversion
              (answering (some path))
              config
              f
              (record { queue = s.queue; world = tt }))
    unfolding wrap_conversion try_conversion catch_conversion add_to_queue change_conv_log_entry
    by_path left w d path a true empty = rw (left, d, a, found, empty, fits left) (refl, refl)
    by_path left w d path a false full = rw (left, d, a, found, full) (refl, refl)

    by_answer :
        leb config.conversion_tries f.retries ≡ false
        → (w : Wrapper) → determine_converter config f.source_format f.target_format ≡ ok w
        → (answer : Option String) → (backend.convert_to_target w f s.world).0 ≡ answer
        → IsSame
            (wrap_conversion backend config f s)
            (wrap_conversion (answering answer) config f (record { queue = s.queue; world = tt }))
    unfolding wrap_conversion try_conversion catch_conversion add_to_queue
    by_answer left w d none a = rw (left, d, a, fits left) (refl, refl)
    by_answer left w d (some path) a = by_path left w d path a (str_eq path "") refl

    by_choice :
        leb config.conversion_tries f.retries ≡ false
        → (r : Result RuleFault Wrapper)
        → determine_converter config f.source_format f.target_format ≡ r
        → IsSame (wrap_conversion backend config f s) (
            wrap_conversion
              (answering (answer_in s.world r))
              config
              f
              (record { queue = s.queue; world = tt }))
    unfolding wrap_conversion try_conversion catch_conversion add_to_queue
    by_choice left (err x) d = rw (left, d, fits left) (refl, refl)
    by_choice left (ok w) d = by_answer left w d (backend.convert_to_target w f s.world).0 refl

    -- Only the answer matters for what a conversion returns and does to the queue.
    pub wrap-IsSame : IsSame (wrap_conversion backend config f s) (
        wrap_conversion
          (answering (answer_of s.world))
          config
          f
          (record { queue = s.queue; world = tt }))
    unfolding wrap_conversion try_conversion
    wrap-IsSame = elim (Bool-cases (leb config.conversion_tries f.retries)) [
      | inl spent ↦ rw spent (refl, refl)
      | inr left ↦ by_choice left (determine_converter config f.source_format f.target_format) refl
    ]
