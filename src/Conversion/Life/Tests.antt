-- ===== src/Conversion/Life/Tests.antt =====
-- A request that arrives while another one is converted.
use dynamic_conversion_servi.Prelude.{none, some, false, [], ◌∷◌, ◌≡◌, refl}
use dynamic_conversion_servi.Prelude.Dict.{lookup, insert}
use dynamic_conversion_servi.Conversion.{Status, ConversionFile}
use dynamic_conversion_servi.Conversion.Queue.{add_to_queue, change_conv_log_entry}
use dynamic_conversion_servi.Conversion.Answer.{answer_of}
use dynamic_conversion_servi.Conversion.Awaits.{convert_file_awaits, wrapped, before}
use dynamic_conversion_servi.Conversion.Service.{convert_file}
use dynamic_conversion_servi.Conversion.Tests.{config, document, failing, one_queued}
use dynamic_conversion_servi.Conversion.Events.{Phase, Event, Machine, take_next, step, initial}
use dynamic_conversion_servi.Conversion.Life.{status_of, Follows, Move, IsSound}
use dynamic_conversion_servi.Conversion.Life.Runs.{
  Run, stay, extend, IsFresh, initial-IsSound, runs_follow_life, reached-IsSound, erroneous_stays,
}

abbrev second : ConversionFile
second = record document { conversion_id = "d2"; path = "input/d2.docx" }

abbrev one_submitted : Machine
one_submitted = step config (Event.submitted document) initial

abbrev two_submitted : Machine
two_submitted = step config (Event.submitted second) one_submitted

first-IsFresh : IsFresh (Event.submitted document) initial.queue
unfolding lookup
first-IsFresh = (refl, refl)

second-IsFresh : IsFresh (Event.submitted second) one_submitted.queue
unfolding lookup insert step take_next add_to_queue change_conv_log_entry
second-IsFresh = (refl, refl)

two-Run : Run config initial two_submitted
two-Run =
    extend (extend stay (Event.submitted document) first-IsFresh) (Event.submitted second)
      second-IsFresh

-- The first conversion succeeds while the second request waits.
runs_follow_life_example :
    let e = Event.answered (some "output/d1.pdf") in
    IsSound (step config e two_submitted)
    × Follows (Move e) two_submitted.queue (step config e two_submitted).queue
runs_follow_life_example =
    runs_follow_life config two-Run initial-IsSound (Event.answered (some "output/d1.pdf")) tt

reached-IsSound_example : IsSound two_submitted
reached-IsSound_example = reached-IsSound config two-Run

-- A service whose only request was given up.
abbrev given_up_one : Machine
given_up_one = record {
  queue = record {
    conv_log = ("d1", record { file = document; status = Status.erroneous }) ∷ [];
    conversion = [];
    currently_converting = none;
    is_converting = false;
  };
  phase = Phase.idle;
}

given_up_one-IsSound : IsSound given_up_one
given_up_one-IsSound = ((tt, tt), (refl, refl))

later-IsFresh : IsFresh (Event.submitted second) given_up_one.queue
unfolding lookup
later-IsFresh = (refl, refl)

given_up_known : status_of "d1" given_up_one.queue ≡ some Status.erroneous
unfolding lookup
given_up_known = refl

erroneous_stays_example :
    status_of "d1" (step config (Event.submitted second) given_up_one).queue ≡ some Status.erroneous
erroneous_stays_example =
    erroneous_stays config "d1" (extend stay (Event.submitted second) later-IsFresh)
      given_up_one-IsSound given_up_known

convert_file_awaits_run :
    step config
      (Event.deleted
        (failing.delete_file document.path
          (wrapped failing config document one_queued [] 0
            (record { file = document; status = Status.in_queue })).1.world).0)
      (step config (Event.answered (answer_of failing config document 0)) (
        take_next (
          before failing config document one_queued [] 0
            (record { file = document; status = Status.in_queue }))))
    ≡ take_next
        (convert_file failing config (record {
          queue =
              before failing config document one_queued [] 0
                (record { file = document; status = Status.in_queue });
          world = 0;
        })).1.queue
unfolding lookup
convert_file_awaits_run =
    convert_file_awaits failing config document one_queued [] 0
      (record { file = document; status = Status.in_queue }) refl
