-- ===== src/Docker/Tests.antt =====
-- A daemon that lists the containers of its world, and the Docker service run on it.
use dynamic_conversion_servi.Prelude.After.{After}
use dynamic_conversion_servi.Docker.Journal.{recorded, blank}
use dynamic_conversion_servi.Docker.Effects.{Whatever, IsCreated, create_container-IsCreated}
use dynamic_conversion_servi.Prelude.{
  String, true, false, not, none, some, List, [], ◌∷◌, ◌≡◌, refl, All, arith, filter, str_eq,
}
use dynamic_conversion_servi.Prelude.Action.{ok, err, Ensures}
use dynamic_conversion_servi.Docker.{
  HealthStatus, ContainerStatus, DockerConfiguration, Daemon, DockerError, DockerState,
  get_running_container_info, create_container, remove_container,
}
use dynamic_conversion_servi.Docker.Names.{concat}
use dynamic_conversion_servi.Docker.Laws.{
  IsOwn, listed-IsOwn, created-IsOwn, remove_container_absent,
}

-- A container's id is its name; the world lists the ids.
abbrev pub example_daemon : Daemon (List String) String
example_daemon = record {
  list_images = λ image w. (ok [], w);
  pull_image = λ image tag w. (ok tt, w);
  create = λ options w. (ok options.name, w);
  start = λ id w. (ok tt, id ∷ w);
  list = λ w. (ok w, w);
  status_of = λ id w. (
    ok (record {
      config_image = "conversion-service:latest";
      name = concat "/" id;
      ip_address = "10.0.0.2";
      health = some HealthStatus.healthy;
      status = ContainerStatus.running;
    }),
    w,
  );
  stop = λ id w. (ok tt, w);
  delete = λ id w. (ok tt, filter (λ i. not (str_eq i id)) w);
  nanoid = λ n w. (ok "a1b2c3", w);
}

abbrev pub example_config : DockerConfiguration
example_config = record {
  env_vars = none;
  host = none;
  image_name = "conversion-service";
  is_local = true;
  name_prefix = "worker";
  network = none;
  port = none;
  socket_path = some "/var/run/docker.sock";
  tag = some "latest";
}

abbrev pub two_running : DockerState (List String)
two_running = record { has_image = false; world = "worker__1" ∷ "redis" ∷ [] }

listed-IsOwn_example :
    Ensures
      (All (IsOwn example_config))
      (get_running_container_info example_daemon example_config two_running)
listed-IsOwn_example = listed-IsOwn example_daemon example_config two_running

created-IsOwn_run :
    Ensures
      (λ c.
        IsOwn example_config c
        × (c.container_image ≡ some "conversion-service")
        × (c.container_tag ≡ some "2.0"))
      (create_container example_daemon example_config none (some "2.0") two_running)
created-IsOwn_run = created-IsOwn example_daemon example_config none (some "2.0") two_running

remove_container_absent_run :
    remove_container example_daemon example_config "worker__7" two_running
    ≡ (err (DockerError.container_not_found "worker__7"), two_running)
remove_container_absent_run =
    remove_container_absent example_daemon example_config "worker__7" two_running
      ("worker__1" ∷ "redis" ∷ []) two_running refl (λ e. ground (arith, e))

create_container-IsCreated_example :
    After Whatever (IsCreated example_daemon example_config none (some "v2") blank) (
      create_container
        (recorded example_daemon)
        example_config
        none
        (some "v2")
        (record { has_image = true; world = record { journal = blank; world = [] } }))
create_container-IsCreated_example =
    create_container-IsCreated example_daemon example_config none (some "v2")
      (record { has_image = true; world = record { journal = blank; world = [] } })
