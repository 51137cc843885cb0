-- ===== src/Conversion/Tests.antt =====
-- A conversion service with one file queued, on wrappers that always answer or never do.
use dynamic_conversion_servi.Prelude.{
  ℕ, suc, true, false, none, [], ◌∷◌, ◌≡◌, ◌≤◌, ◌<◌, ◌↔◌, refl, arith,
}
use dynamic_conversion_servi.Prelude.Dict.{lookup, insert}
use dynamic_conversion_servi.Conversion.{
  Status, Wrapper, ConversionFile, QueueState, ConversionConfig,
}
use dynamic_conversion_servi.Conversion.Queue.{add_to_queue, queue_position}
use dynamic_conversion_servi.Conversion.Service.{Backend, ServiceState, wrap_conversion, update}
use dynamic_conversion_servi.Conversion.Rounds.{IsWrapped, wrap_conversion_cases}
use dynamic_conversion_servi.Conversion.Complete.{IsLive, queued, add_to_queue-IsLive}
use dynamic_conversion_servi.Conversion.Position.{queue_position_range}
use dynamic_conversion_servi.Conversion.Settled.{IsOver, update_settles}

-- The world counts the conversions.
abbrev pub failing : Backend ℕ
failing = record {
  convert_to_target = λ wrapper file n. (none, suc n);
  delete_file = λ path n. (true, n);
}

abbrev pub config : ConversionConfig
config = record {
  conversion_tries = 2;
  document = Wrapper.unoconv ∷ [];
  media = Wrapper.ffmpeg ∷ [];
  env = λ key. none;
  is_media_file = λ extension. false;
}

abbrev pub document : ConversionFile
document = record {
  conversion_id = "d1";
  path = "input/d1.docx";
  retries = 0;
  source_format = "docx";
  target_format = "pdf";
}

abbrev empty_queue : QueueState
empty_queue = record {
  conv_log = [];
  conversion = [];
  currently_converting = none;
  is_converting = false;
}

abbrev pub one_queued : QueueState
one_queued = record {
  conv_log = ("d1", record { file = document; status = Status.in_queue }) ∷ [];
  conversion = document ∷ [];
  currently_converting = none;
  is_converting = false;
}

abbrev service : ServiceState ℕ
service = record { queue = one_queued; world = 0 }

empty_queue-IsLive : IsLive empty_queue
unfolding lookup
empty_queue-IsLive = (λ k e h. cc, λ k h. cc)

add_to_queue-IsLive_run : IsLive (add_to_queue config document empty_queue).1
add_to_queue-IsLive_run = add_to_queue-IsLive config document empty_queue empty_queue-IsLive

one_queued-IsLive : IsLive one_queued
unfolding add_to_queue insert
one_queued-IsLive = add_to_queue-IsLive config document empty_queue empty_queue-IsLive

wrap_conversion_cases_example :
    IsWrapped failing config document one_queued (wrap_conversion failing config document service)
unfolding lookup
wrap_conversion_cases_example =
    wrap_conversion_cases failing config document service
      (record { file = document; status = Status.in_queue }) refl

-- Three rounds suffice for two tries.
update_settles_example :
    let t = (update failing config 3 service).queue in
    (t.conversion ≡ []) × (t.is_converting ≡ false) × IsOver "d1" t
unfolding lookup
update_settles_example =
    update_settles failing config (λ path n. refl) 3 service one_queued-IsLive refl (omega arith)
      "d1" (record { file = document; status = Status.in_queue }, refl)

queue_position_range_run :
    ((queued "d1" (document ∷ []) ≡ true) ↔ (0 < queue_position "d1" (document ∷ [])))
    × (queue_position "d1" (document ∷ []) ≤ 1)
queue_position_range_run = queue_position_range "d1" (document ∷ [])
