-- ===== src/Docker.antt =====
-- packages/auto-scaler/src/docker: the container types of interface.ts and type.ts, and the
-- `DockerService` class of index.ts. The Docker daemon and `nanoid` are not part of the repository:
-- they are the record `Daemon` over a world `W`, which every call may read and change.
pub mod Names
pub mod Connect
pub mod Journal
pub mod Laws
pub mod Effects
pub mod Tests
use text.Mathlib.Text.{starts_with}
use Prim.Native.String.{◌++◌ as join_str}
use dynamic_conversion_servi.Prelude.{
  ℕ, String, Bool, true, false, not, ◌||◌, Option, none, some, List, [], ◌∷◌, str_eq, get_or,
  is_some, filter, if◌then◌else◌,
}
use dynamic_conversion_servi.Prelude.Action.{
  Result, ok, err, Action, pure, raise, gets, modify, ◌>>=◌, ◌>>◌,
}
use Names.{first_char, second_char, first_part, second_part, concat}

-- `TDockerHealthStatus`; `no_check` is the source's "none".
pub data HealthStatus : Type 0 where
  no_check starting healthy unhealthy : HealthStatus

-- `TDockerContainerStatus`
pub data ContainerStatus : Type 0 where
  created running paused restarting removing exited dead : ContainerStatus

-- `IContainerInfo`
pub record ContainerInfo : Type 0 where
  pub container_health_status : HealthStatus
  pub container_id : String
  pub container_image : Option String
  pub container_ip : String
  pub container_name : String
  pub container_status : ContainerStatus
  pub container_tag : Option String

-- `IDockerContainerStatus`, with the fields that the service reads
pub record DockerContainerStatus : Type 0 where
  pub config_image : String
  pub name : String
  pub ip_address : String
  pub health : Option HealthStatus
  pub status : ContainerStatus

-- `IDockerConfiguration`
pub record DockerConfiguration : Type 0 where
  pub env_vars : Option (List String)
  pub host : Option String
  pub image_name : String
  pub is_local : Bool
  pub name_prefix : String
  pub network : Option String
  pub port : Option ℕ
  pub socket_path : Option String
  pub tag : Option String

-- The argument of `docker.container.create`
pub record CreateOptions : Type 0 where
  pub env : List String
  pub network_mode : Option (Option String)
  pub image : String
  pub name : String

pub record Daemon (W E : Type 0) : Type 0 where
  pub list_images : String → Action W E (List (List String))
  pub pull_image : String → String → Action W E (Unit {0})
  pub create : CreateOptions → Action W E String
  pub start : String → Action W E (Unit {0})
  pub list : Action W E (List String)
  pub status_of : String → Action W E DockerContainerStatus
  pub stop : String → Action W E (Unit {0})
  pub delete : String → Action W E (Unit {0})
  pub nanoid : ℕ → Action W E String

-- The errors that a call may reject with: the service's own, or the daemon's.
pub data DockerError (E : Type 0) : Type 0 where
  container_not_found : String → DockerError E
  daemon_error : E → DockerError E

-- `hasImage`, and the world of the daemon
pub record DockerState (W : Type 0) : Type 0 where
  pub has_image : Bool
  pub world : W

module _ {W E A : Type 0} where
  -- `await` of a call of the daemon
  abbrev pub call : Action W E A → Action (DockerState W) (DockerError E) A
  call m s =
      let (r, w) = m s.world in
      elim r [
        | ok a ↦ (ok a, record s { world = w })
        | err e ↦ (err (daemon_error e), record s { world = w })
      ]

abbrev pub health_of : DockerContainerStatus → HealthStatus
health_of c = get_or c.health HealthStatus.unhealthy

abbrev pub first_tag_is : String → List String → Bool
first_tag_is target [] = false
first_tag_is target (tag ∷ tags) = str_eq tag target

-- `localImages.forEach`: whether some image has the target as its first tag
abbrev pub some_first_tag : String → List (List String) → Bool
some_first_tag target [] = false
some_first_tag target (image ∷ images) = first_tag_is target image || some_first_tag target images

-- One round of the loop of `getRunningContainerInfo`. `const [image, tag] = ….Config.Image` takes
-- the first two characters of the image's name.
abbrev pub running_info :
    DockerConfiguration → String → DockerContainerStatus → List ContainerInfo → List ContainerInfo
running_info config id state rest =
    if starts_with state.name (concat "/" (concat config.name_prefix "__"))
    then record {
      container_health_status = health_of state;
      container_id = id;
      container_image = first_char state.config_image;
      container_ip = state.ip_address;
      container_name = state.name;
      container_status = state.status;
      container_tag = second_char state.config_image;
    }
      ∷ rest
    else rest

module _ {W E : Type 0} (daemon : Daemon W E) (config : DockerConfiguration) where
  pub check_image : String → String → Action (DockerState W) (DockerError E) (Unit {0})
  check_image image_id target_tag = do
    images ← call (daemon.list_images image_id)
    let target = concat image_id (concat ":" target_tag)
    if some_first_tag target images then pure tt else call (daemon.pull_image image_id target_tag)

  pub ensure_image : Bool → String → String → Action (DockerState W) (DockerError E) (Unit {0})
  unfolding check_image
  ensure_image true target_image target_tag = do
    check_image target_image target_tag
    modify (λ s. record s { has_image = true })
  ensure_image false target_image target_tag = pure tt

  -- `createContainer`
  unfoldable pub create_container :
      Option String → Option String → Action (DockerState W) (DockerError E) ContainerInfo
  unfolding ensure_image
  create_container new_image_name new_tag = do
    has_image ← gets (λ s. s.has_image)
    let target_image = get_or new_image_name config.image_name
    let target_tag = get_or new_tag (get_or config.tag "latest")
    ensure_image (not has_image || is_some new_image_name || is_some new_tag) target_image
        target_tag
    suffix ← call (daemon.nanoid 6)
    let container_name = concat config.name_prefix (concat "__" suffix)
    id ← call (
        daemon.create (record {
          env = get_or config.env_vars [];
          network_mode = if config.is_local then none else some config.network;
          image = concat target_image (concat ":" target_tag);
          name = container_name;
        }))
    call (daemon.start id)
    state ← call (daemon.status_of id)
    pure (record {
      container_health_status = health_of state;
      container_id = id;
      container_image = some target_image;
      container_ip = state.ip_address;
      container_name = concat "/" container_name;
      container_status = state.status;
      container_tag = some target_tag;
    })

  unfoldable pub collect_running :
      List String → Action (DockerState W) (DockerError E) (List ContainerInfo)
  collect_running [] = pure []
  collect_running (id ∷ ids) = do
    state ← call (daemon.status_of id)
    rest ← collect_running ids
    pure (running_info config id state rest)

  -- `getRunningContainerInfo`
  unfoldable pub get_running_container_info :
      Action (DockerState W) (DockerError E) (List ContainerInfo)
  get_running_container_info = do ids ← call daemon.list; collect_running ids

  -- The part of `removeContainer` behind its guard.
  pub stop_and_delete : String → Action (DockerState W) (DockerError E) ContainerInfo
  stop_and_delete id = do
    state ← call (daemon.status_of id)
    call (daemon.stop id)
    call (daemon.delete id)
    pure (record {
      container_health_status = health_of state;
      container_id = id;
      container_image = some (first_part b':' state.config_image);
      container_ip = state.ip_address;
      container_name = state.name;
      container_status = state.status;
      container_tag = second_part b':' state.config_image;
    })

  -- `filteredContainers.length !== 1`
  abbrev pub exactly_one :
      String → List String → Action (DockerState W) (DockerError E) ContainerInfo
  exactly_one container_id (id ∷ []) = stop_and_delete id
  exactly_one container_id _ = raise (container_not_found container_id)

  -- `removeContainer`
  unfoldable pub remove_container : String → Action (DockerState W) (DockerError E) ContainerInfo
  unfolding stop_and_delete
  remove_container container_id = do
    ids ← call daemon.list
    exactly_one container_id (filter (λ id. str_eq id container_id) ids)
