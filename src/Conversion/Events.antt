-- ===== src/Conversion/Events.antt =====
-- packages/conversion-service/src/service/conversion/index.ts: `addToConversionQueue`, `update` and
-- `convertFile` as they run between awaits. While `convertFile` waits for a wrapper or for the
-- deletion of a file, further requests are added; the answer is an event of its own.
use dynamic_conversion_servi.Prelude.{
  String, Bool, true, false, Option, none, some, [], if◌then◌else◌,
}
use dynamic_conversion_servi.Prelude.Action.{Result, ok, err}
use dynamic_conversion_servi.Conversion.{
  Status, ConversionFile, ConversionFault, QueueState, ConversionConfig,
}
use dynamic_conversion_servi.Conversion.Queue.{
  add_to_queue, change_conv_log_entry, first_of, rest_of,
}
use dynamic_conversion_servi.Conversion.Service.{Backend, set_current, wrap_conversion}

-- Where `convertFile` waits. A deletion follows a conversion or the last try.
pub data Phase : Type 0 where
  idle : Phase
  converting : ConversionFile → Phase
  deleting : ConversionFile → (after_conversion : Bool) → Phase

-- A request, the answer of the wrapper (the path of its result, or none when it rejects), and
-- whether the deletion resolves.
pub data Event : Type 0 where
  submitted : ConversionFile → Event
  answered : Option String → Event
  deleted : Bool → Event

pub record Machine : Type 0 where
  pub queue : QueueState
  pub phase : Phase

-- A wrapper that gives this answer.
abbrev pub answering : Option String → Backend (Unit {0})
answering path = record {
  convert_to_target = λ converter file w. (path, w);
  delete_file = λ file w. (true, w);
}

abbrev pub begun : ConversionFile → QueueState → QueueState
begun f q = record q { is_converting = true; currently_converting = some f }

-- The start of `convertFile`; a throw of `changeConvLogEntry` there leaves the flag set.
abbrev pub started : ConversionFile → Result ConversionFault (Unit {0}) × QueueState → Machine
started f (ok _, q) = record { queue = q; phase = converting f }
started f (err e, q) = record { queue = q; phase = idle }

abbrev pub start_next : Option ConversionFile → QueueState → Machine
start_next none q = record { queue = q; phase = idle }
start_next (some f) q =
    started f (change_conv_log_entry f.conversion_id Status.processing none (begun f q))

-- `update` when nothing is being converted
unfoldable pub take_next : QueueState → Machine
take_next q = start_next (first_of q.conversion) (record q { conversion = rest_of q.conversion })

-- The `finally` block, with the `update` that ends it.
unfoldable pub finish : QueueState → Machine
unfolding take_next
finish q = take_next (record q { is_converting = false; currently_converting = none })

-- The `catch` block up to its deletion, after which the error of `changeConvLogEntry` would escape.
abbrev pub marked_erroneous :
    ConversionFile → Result ConversionFault (Unit {0}) × QueueState → Machine
marked_erroneous f (ok _, q) = record { queue = q; phase = deleting f false }
marked_erroneous f (err e, q) = finish q

abbrev pub after_wrap :
    ConversionFile → Result ConversionFault ConversionFile → QueueState → Machine
after_wrap f (ok _) q = record { queue = set_current none q; phase = deleting f true }
after_wrap f (err (ConversionFault.max_conversion_tries id)) q =
    marked_erroneous f (change_conv_log_entry f.conversion_id Status.erroneous none q)
after_wrap f (err _) q = finish (change_conv_log_entry f.conversion_id Status.in_queue none q).1

-- A failed deletion after a conversion is caught, and the log entry set back.
abbrev pub after_deletion :
    ConversionFile → (after_conversion resolved : Bool) → QueueState → Machine
after_deletion f true false q =
    finish (change_conv_log_entry f.conversion_id Status.in_queue none q).1
after_deletion f true true q = finish q
after_deletion f false resolved q = finish q

module _ (config : ConversionConfig) where
  -- `addToConversionQueue`, with its `update`
  abbrev pub submit : ConversionFile → Machine → Machine
  submit f m =
      let q = (add_to_queue config f m.queue).1 in
      if q.is_converting then record m { queue = q } else take_next q

  abbrev pub on_answer : Option String → Phase → QueueState → Machine
  on_answer path (converting f) q =
      let (r, s) = wrap_conversion (answering path) config f (record { queue = q; world = tt }) in
      after_wrap f r s.queue
  on_answer path phase q = record { queue = q; phase = phase }

  abbrev pub on_deletion : Bool → Phase → QueueState → Machine
  on_deletion resolved (deleting f after_conversion) q =
      after_deletion f after_conversion resolved q
  on_deletion resolved phase q = record { queue = q; phase = phase }

  -- What one event does; an answer that nothing waits for does nothing.
  unfoldable pub step : Event → Machine → Machine
  unfolding finish
  step (submitted f) m = submit f m
  step (answered path) m = on_answer path m.phase m.queue
  step (deleted resolved) m = on_deletion resolved m.phase m.queue

-- No request yet.
abbrev pub initial : Machine
initial = record {
  queue = record {
    conv_log = [];
    conversion = [];
    currently_converting = none;
    is_converting = false;
  };
  phase = idle;
}
