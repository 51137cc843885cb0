-- ===== src/AutoScaler/Tests.antt =====
-- The scaler at concrete amounts, and on the daemon of the Docker service's tests.
use dynamic_conversion_servi.Prelude.After.{After}
use dynamic_conversion_servi.Docker.Journal.{Recorded, recorded, blank}
use dynamic_conversion_servi.Docker.{DockerState}
use dynamic_conversion_servi.Prelude.{List, String}
use dynamic_conversion_servi.Docker.Effects.{Whatever}
use dynamic_conversion_servi.AutoScaler.Effects.{IsApplied, apply_configuration_state-IsApplied}
use dynamic_conversion_servi.Prelude.{
  ℕ, true, none, some, [], ◌∷◌, ◌≡◌, ◌≢◌, ◌≤◌, ◌⊎◌, ◌↔◌, ◌*◌, ◌+◌, refl, arith, length,
}
use dynamic_conversion_servi.Prelude.Int.{pos, ◌+ℤ◌}
use dynamic_conversion_servi.Prelude.Action.{err, Ensures}
use dynamic_conversion_servi.Docker.{collect_running, get_running_container_info}
use dynamic_conversion_servi.Docker.Tests.{example_daemon, example_config, two_running}
use dynamic_conversion_servi.AutoScaler.{
  AutoScalerConfiguration, ScalerStatus, ScalerError, both_nonzero, apply_configuration_state,
  check_container_status,
}
use dynamic_conversion_servi.AutoScaler.Scale.{compute_scale_amount}
use dynamic_conversion_servi.AutoScaler.Bounds.{
  IsWithinLimits, scale_limits, scale_suffices, scale_removes_to_minimum, scale_exclusive,
}
use dynamic_conversion_servi.AutoScaler.Apply.{
  ids_of, applied_as_asked, refused_iff, computed_status_applies,
}

scale_limits_example : IsWithinLimits 2 8 (compute_scale_amount 2 30 5 8 1)
scale_limits_example = scale_limits 2 30 5 8 1 (omega arith) (omega arith)

scale_suffices_example :
    let s = compute_scale_amount 2 30 5 8 1 in
    (pos 2 +ℤ s.start ≡ pos 8) ⊎ ((n : ℕ) × (s.start ≡ pos n) × (30 ≤ 5 * (2 + n)))
scale_suffices_example = scale_suffices 2 30 5 8 1 (omega arith) (omega arith) (omega arith)

scale_removes_to_minimum_example :
    compute_scale_amount 4 12 5 8 1 ≡ record { remove = pos 3; start = pos 0 }
scale_removes_to_minimum_example =
    scale_removes_to_minimum 4 12 5 8 1 (omega arith) (omega arith) refl

scale_exclusive_run :
    let s = compute_scale_amount 4 12 5 8 1 in (s.start ≡ pos 0) ⊎ (s.remove ≡ pos 0)
scale_exclusive_run = scale_exclusive 4 12 5 8 1

abbrev scaler_config : AutoScalerConfiguration
scaler_config = record {
  docker_config = example_config;
  max_containers = 8;
  min_containers = 1;
  tasks_per_container = 5;
}

abbrev starting_two : ScalerStatus
starting_two = record {
  containers_to_remove = pos 0;
  containers_to_start = pos 2;
  pending_requests = 10;
  running_containers = [];
}

abbrev removing_one : ScalerStatus
removing_one = record {
  containers_to_remove = pos 1;
  containers_to_start = pos 0;
  pending_requests = 0;
  running_containers = [];
}

applied_as_asked_run :
    Ensures
      (λ change.
        (length change.started_containers ≡ 0)
        × (ids_of change.removed_containers ≡ "worker__1" ∷ []))
      (apply_configuration_state example_daemon scaler_config removing_one
        (some ("worker__1" ∷ "worker__2" ∷ []))
        none
        none
        two_running)
applied_as_asked_run =
    applied_as_asked example_daemon scaler_config removing_one ("worker__1" ∷ "worker__2" ∷ []) none
      none two_running

refused_iff_run :
    ((apply_configuration_state example_daemon scaler_config starting_two none none none
        two_running).0
      ≡ err ScalerError.start_and_remove)
    ↔ (both_nonzero starting_two ≡ true)
refused_iff_run = refused_iff example_daemon scaler_config starting_two none none none two_running

computed_status_applies_example :
    (apply_configuration_state example_daemon scaler_config starting_two none none none
      two_running).0
    ≢ err ScalerError.start_and_remove
unfolding check_container_status get_running_container_info collect_running compute_scale_amount
computed_status_applies_example =
    computed_status_applies example_daemon scaler_config 10 none none none
      (record { has_image = true; world = [] }) (record { has_image = true; world = [] })
      two_running starting_two refl

abbrev two_journaled : DockerState (Recorded (List String))
two_journaled = record {
  has_image = true;
  world = record { journal = blank; world = two_running.world };
}

apply_configuration_state-IsApplied_example :
    After Whatever
      (IsApplied example_daemon scaler_config removing_one ("worker__1" ∷ "worker__2" ∷ []) blank)
      (apply_configuration_state
        (recorded example_daemon)
        scaler_config
        removing_one
        (some ("worker__1" ∷ "worker__2" ∷ []))
        none
        none
        two_journaled)
apply_configuration_state-IsApplied_example =
    apply_configuration_state-IsApplied example_daemon scaler_config removing_one
      ("worker__1" ∷ "worker__2" ∷ []) none none two_journaled
