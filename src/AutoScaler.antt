-- ===== src/AutoScaler.antt =====
-- packages/auto-scaler/src/index.ts: the `AutoScaler` class over the Docker service. Calls that the
-- source starts together and awaits by `Promise.all` are run one after the other, all of them, and
-- the first error is thrown at the end.
pub mod Scale
pub mod Ceil
pub mod Bounds
pub mod Apply
pub mod Effects
pub mod Tests
use dynamic_conversion_servi.Prelude.{
  ℕ, zero, suc, String, Bool, Option, none, some, List, [], ◌∷◌, ◌&&◌, not, take, length,
}
use dynamic_conversion_servi.Prelude.Int.{ℤ, pos, pos_part, eqb_ℤ}
use dynamic_conversion_servi.Prelude.Action.{Result, ok, err, Action, pure, raise_if, ◌>>=◌, ◌>>◌}
use dynamic_conversion_servi.Docker.{
  ContainerInfo, DockerConfiguration, Daemon, DockerError, DockerState, create_container,
  get_running_container_info, remove_container,
}
use Scale.{ScalingResult, compute_scale_amount}

-- `IAutoScalerConfiguration`
pub record AutoScalerConfiguration : Type 0 where
  pub docker_config : DockerConfiguration
  pub max_containers : ℕ
  pub min_containers : ℕ
  pub tasks_per_container : ℕ

-- `IContainerStatus`
pub record ScalerStatus : Type 0 where
  pub containers_to_remove : ℤ
  pub containers_to_start : ℤ
  pub pending_requests : ℕ
  pub running_containers : List ContainerInfo

-- `IContainerStateChange`
pub record ContainerStateChange : Type 0 where
  pub removed_containers : List ContainerInfo
  pub started_containers : List ContainerInfo

-- What a call of the scaler rejects with: its own error, or one of the Docker service.
pub data ScalerError (E : Type 0) : Type 0 where
  start_and_remove : ScalerError E
  docker_error : DockerError E → ScalerError E

-- `containersToStart !== 0 && containersToRemove !== 0`
abbrev pub both_nonzero : ScalerStatus → Bool
both_nonzero status =
    not (eqb_ℤ status.containers_to_start (pos 0))
    && not (eqb_ℤ status.containers_to_remove (pos 0))

module _ {W E A : Type 0} where
  -- `await` of a call of the Docker service
  abbrev pub docker :
      Action (DockerState W) (DockerError E) A → Action (DockerState W) (ScalerError E) A
  docker m s = let (r, t) = m s in elim r [ ok a ↦ (ok a, t) | err e ↦ (err (docker_error e), t) ]

module _ {E A : Type 0} where
  -- `Promise.all`: every call runs; the first that rejects decides.
  abbrev pub join_results : Result E A → Result E (List A) → Result E (List A)
  join_results (ok a) (ok rest) = ok (a ∷ rest)
  join_results (ok a) (err e) = err e
  join_results (err e) rest = err e

  unfoldable pub all_of : {S : Type 0} → List (Action S E A) → Action S E (List A)
  all_of [] s = (ok [], s)
  all_of (m ∷ ms) s = let (r, t) = m s in let (rest, u) = all_of ms t in (join_results r rest, u)

-- The list of `n` calls that a `for` loop pushes.
abbrev pub repeat {ℓ} : {A : Type ℓ} → ℕ → A → List A
repeat zero a = []
repeat (suc n) a = a ∷ repeat n a

abbrev pub map_calls {ℓ κ} : {A : Type ℓ} {B : Type κ} → (A → B) → List A → List B
map_calls f [] = []
map_calls f (x ∷ xs) = f x ∷ map_calls f xs

module _ {W E : Type 0} (daemon : Daemon W E) (config : AutoScalerConfiguration) where
  -- The loop that starts containers; none for an amount of 0 or below.
  pub start_containers :
      Option String
      → Option String
      → ℤ
      → Action (DockerState W) (ScalerError E) (List ContainerInfo)
  start_containers image tag n =
      docker (all_of (repeat (pos_part n) (create_container daemon config.docker_config image tag)))

  -- The loop that removes the first idle containers.
  pub remove_containers :
      Option (List String) → ℤ → Action (DockerState W) (ScalerError E) (List ContainerInfo)
  remove_containers none n = pure []
  remove_containers (some idle) n =
      docker
        (all_of (map_calls (remove_container daemon config.docker_config) (take (pos_part n) idle)))

  -- `applyConfigurationState`
  unfoldable pub apply_configuration_state :
      ScalerStatus
      → Option (List String)
      → Option String
      → Option String
      → Action (DockerState W) (ScalerError E) ContainerStateChange
  unfolding start_containers remove_containers
  apply_configuration_state status idle image tag = do
    raise_if (both_nonzero status) start_and_remove
    started ← start_containers image tag status.containers_to_start
    removed ← remove_containers idle status.containers_to_remove
    pure (record { removed_containers = removed; started_containers = started })

  -- `checkContainerStatus`
  unfoldable pub check_container_status : ℕ → Action (DockerState W) (ScalerError E) ScalerStatus
  check_container_status pending = do
    running ← docker (get_running_container_info daemon config.docker_config)
    let amount =
        compute_scale_amount (length running) pending config.tasks_per_container
          config.max_containers config.min_containers
    pure (record {
      containers_to_remove = amount.remove;
      containers_to_start = amount.start;
      pending_requests = pending;
      running_containers = running;
    })

  -- `removeContainer`
  unfoldable pub scaler_remove_container :
      String → Action (DockerState W) (ScalerError E) ContainerInfo
  scaler_remove_container id = docker (remove_container daemon config.docker_config id)
