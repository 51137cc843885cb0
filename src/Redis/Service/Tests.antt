-- ===== src/Redis/Service/Tests.antt =====
-- The service's loop on the queue and the two workers of the tests.
use dynamic_conversion_servi.Redis.Tests.{daemon, network, rsmq}
use dynamic_conversion_servi.Redis.Worker.Tests.{queued}
use dynamic_conversion_servi.Redis.Service.Posted.{Outbox, posted}
use dynamic_conversion_servi.Prelude.{
  some, ℕ, String, ◌+◌, ◌*◌, ◌<◌, ◌≡◌, refl, arith, true, false, ◌||◌, [], ◌∷◌, min, zero, none,
  if◌then◌else◌,
}
use dynamic_conversion_servi.Prelude.Dict.{has, lookup}
use dynamic_conversion_servi.Prelude.Action.{Ensures}
use dynamic_conversion_servi.Prelude.After.{After}
use dynamic_conversion_servi.Prelude.Hoare.{Ran, Any}
use dynamic_conversion_servi.Redis.Tests.{Messages, environment, config, service}
use dynamic_conversion_servi.Redis.Worker.{get_forwardable_request_count}
use dynamic_conversion_servi.Redis.Worker.Forward.{forward_requests}
use dynamic_conversion_servi.Redis.Worker.Safe.{IsValidHandler}
use dynamic_conversion_servi.Redis.Worker.Tests.{queued, two_workers, two_workers-IsValid}
use dynamic_conversion_servi.Redis.Worker.Track.{assigned}
use dynamic_conversion_servi.Redis.Worker.Valid.{IsValid}
use dynamic_conversion_servi.Redis.Request.{ConversionStatus}
use dynamic_conversion_servi.Redis.Service.{Environment, ServiceState}
use dynamic_conversion_servi.Redis.Service.Health.{check_health}
use dynamic_conversion_servi.Redis.Service.Loop.{
  pop_until, check_file_ttl, quit, probe, probes_per_state_apply, should_apply_state,
}
use dynamic_conversion_servi.Redis.Service.Lifetime.{IsFiled, end_of, gone, check_file_ttl-lifetime}
use dynamic_conversion_servi.Redis.Service.Filed.{probe-IsFiled}
use dynamic_conversion_servi.Redis.Service.Quit.{
  RemovesAll, quit-RemovesAll, StopsAll, quit-StopsAll,
}
use dynamic_conversion_servi.Docker.Journal.{Recorded, blank}
use dynamic_conversion_servi.Docker.Effects.{Whatever}
use dynamic_conversion_servi.Redis.Service.Journal.{with_journal}
use dynamic_conversion_servi.Redis.Service.Checked.{check_health-holds}
use dynamic_conversion_servi.Redis.Service.Forwarded.{Never, popped_requests_fit}
use dynamic_conversion_servi.Redis.Service.Probed.{probe-IsValid}
use dynamic_conversion_servi.Redis.Service.Cadence.{state_is_applied, zero_interval_never_applies}

check_health-holds_example :
    let t = (check_health environment config service).1 in
    IsValid t.workers × ((assigned "r1" t.workers || has "r1" t.requests_in_queue) ≡ true)
unfolding lookup
check_health-holds_example =
    check_health-holds environment config "r1" service two_workers-IsValid refl

popped_requests_fit_example :
    After Never
      (λ requests (t : ServiceState Messages).
        (t.workers ≡ two_workers)
        × Ran IsValidHandler Any (
            forward_requests environment.network requests
              (record { workers = t.workers; finished = []; world = t.world })))
      (pop_until environment config 3
        (min 2 (get_forwardable_request_count 5 two_workers))
        []
        service)
popped_requests_fit_example = popped_requests_fit environment config 3 2 service two_workers-IsValid

probe-IsValid_example : IsValid (probe environment config 3 true service).1.workers
probe-IsValid_example = probe-IsValid environment config 3 true service two_workers-IsValid

state_is_applied_example :
    (j : ℕ) × (zero < j)
    × (j * 10 < 30 + 10)
    × (should_apply_state (7 + j) (probes_per_state_apply 30 10) ≡ true)
state_is_applied_example = state_is_applied 7 30 10 (omega arith) (omega arith)

zero_interval_never_applies_run : should_apply_state 7 (probes_per_state_apply 0 10) ≡ false
zero_interval_never_applies_run = zero_interval_never_applies 7 0 10 refl

-- A result of the time 0, long after.
abbrev finished_one : ServiceState Messages
finished_one = record service {
  finished_request =
      (
        "r2",
        record {
          container_id = "c1";
          finished_time = 0;
          request = record queued { conversion_status = ConversionStatus.converted };
        },
      )
      ∷ [];
}

abbrev later : Environment Messages String
later = record environment { network = record environment.network { now = λ w. (1000000000, w) } }

check_file_ttl-lifetime_example :
    let r = check_file_ttl later config finished_one in
    (r.0 ≡ end_of later config (some []))
    × (lookup "r2" r.1.finished_request ≡ (
        if gone later config 1000000000 (lookup "r2" finished_one.finished_request)
        then none
        else lookup "r2" finished_one.finished_request))
unfolding lookup
check_file_ttl-lifetime_example =
    check_file_ttl-lifetime later config (λ path w. refl) finished_one "r2" (refl, refl, tt)

probe-IsFiled_example : IsFiled (probe later config 3 true finished_one).1.finished_request
unfolding lookup
probe-IsFiled_example = probe-IsFiled later config 3 true finished_one (refl, refl, tt)

quit-RemovesAll_run : Ensures (RemovesAll environment config) (quit environment config service)
quit-RemovesAll_run = quit-RemovesAll environment config service

-- The service with a blank journal.
abbrev journaled : ServiceState (Recorded Messages)
journaled = record {
  finished_request = service.finished_request;
  last_status = none;
  requests_in_queue = service.requests_in_queue;
  total_requests = 0;
  workers = service.workers;
  has_image = true;
  is_initialized = true;
  world = record { journal = blank; world = service.world };
}

quit-StopsAll_example :
    After Whatever
      (StopsAll environment config blank)
      (quit (with_journal environment) config journaled)
quit-StopsAll_example = quit-StopsAll environment config journaled

-- The service over a queue whose messages are noted.
abbrev noting : Environment (Outbox Messages) String
noting = record {
  daemon = daemon;
  rsmq = posted rsmq;
  network = network;
  stringify = environment.stringify;
  parse = environment.parse;
  read_output = λ w. (some [], w);
  delete_orphan = λ file w. (true, w);
}

abbrev sending : ServiceState (Outbox Messages)
sending = record {
  finished_request = [];
  last_status = none;
  requests_in_queue = [];
  total_requests = 0;
  workers = [];
  has_image = true;
  is_initialized = true;
  world = record { sent = []; world = [] };
}
