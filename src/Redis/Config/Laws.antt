-- ===== src/Redis/Config/Laws.antt =====
-- What packages/redis/src/config/index.ts promises of the configuration that it reads.
use dynamic_conversion_servi.Prelude.{
  ℕ, String, Bool, true, false, not, ◌||◌, Option, some, List, [], ◌∷◌, ◌≡◌, ◌≢◌, ◌↔◌, refl, arith,
  get_or,
}
use dynamic_conversion_servi.Prelude.Dict.{lookup}
use dynamic_conversion_servi.Prelude.Action.{
  ok, err, Ensures, Ensures-last, raise_if, ◌>>=◌, ◌>>◌, pure,
}
use dynamic_conversion_servi.Docker.{DockerConfiguration}
use dynamic_conversion_servi.Docker.Names.{is_truthy}
use dynamic_conversion_servi.Docker.Connect.{
  ConnectionError, connect, choose_client, check_network, use_socket, use_host_port,
}
use dynamic_conversion_servi.AutoScaler.{AutoScalerConfiguration}
use dynamic_conversion_servi.Redis.Config.Numbers.{
  print, parse_int-print, is_truthy-print, is_string_number-print,
}
use dynamic_conversion_servi.Redis.Config.{
  Variables, ConfigurationType, ConfigurationError, variable, required, number,
  get_conversion_service_config, optional_port, can_connect, local_deployment,
  get_auto_scaler_config, get_scheduler_config,
}

-- What the constructor of `DockerService` then does with the configuration.
abbrev pub Connects : DockerConfiguration → Type 0
Connects d =
    (connect d ≢ err ConnectionError.invalid_docker_connection_options)
    × ((connect d ≡ err ConnectionError.no_network_specified)
        ↔ ((d.is_local ≡ false) × (is_truthy d.network ≡ false)))

by_tests :
    (d : DockerConfiguration) (socket host_port is_local network : Bool)
    → (socket || host_port) ≡ true
    → let r = check_network is_local network (choose_client socket host_port d) in
      (r ≢ err ConnectionError.invalid_docker_connection_options)
      × ((r ≡ err ConnectionError.no_network_specified) ↔ ((is_local ≡ false) × (network ≡ false)))
by_tests d true host_port true network h = grind arith
by_tests d true host_port false true h = grind arith
by_tests d true host_port false false h = grind arith
by_tests d false true true network h = grind arith
by_tests d false true false true h = grind arith
by_tests d false true false false h = grind arith
by_tests d false false is_local network h = absurd (cc)

connects : (d : DockerConfiguration) → can_connect d.socket_path d.host d.port ≡ true → Connects d
unfolding connect
connects d h = by_tests d (use_socket d) (use_host_port d) d.is_local (is_truthy d.network) h

abbrev Wanted : AutoScalerConfiguration → Type 0
Wanted c = Connects c.docker_config

-- The last steps: the connection options, the network, and the variables of the containers.
last_steps :
    (make : Option String → List String → AutoScalerConfiguration) (e : ConfigurationError)
    (allowed : Bool)
    → ((network : Option String) (env_vars : List String)
        → allowed ≡ true
        → Wanted (make network env_vars))
    → (s : Variables)
    → Ensures Wanted (
        (raise_if (not allowed) e
            >> (variable "DOCKER_ROOT_NETWORK" >>= λ network.
                get_conversion_service_config >>= λ env_vars. pure (make network env_vars)))
          s)
last_steps make e true h s =
    Ensures-last Wanted get_conversion_service_config _ s
      λ env_vars t. h (lookup "DOCKER_ROOT_NETWORK" s) env_vars refl
last_steps make e false h s = tt

module _ (json_truth : String → Option Bool) where
  -- A configuration that `getAutoScalerConfigFromEnv` returns never makes the constructor of
  -- `DockerService` refuse its connection options; the constructor throws for want of a network
  -- exactly when the deployment is not local and the network is the empty text.
  pub config-Connects :
      (s : Variables)
      → Ensures (λ c. Connects c.docker_config) (get_auto_scaler_config json_truth s)
  unfolding get_auto_scaler_config
  config-Connects s =
      Ensures-last Wanted (required ConfigurationType.auto_scaler "TASKS_PER_CONTAINER") _ s
        λ tasks_text a.
          Ensures-last Wanted
            (number ConfigurationType.auto_scaler "MAX_WORKER_CONTAINERS" tasks_text) _ a
            λ tasks b.
              Ensures-last Wanted (required ConfigurationType.auto_scaler "MAX_WORKER_CONTAINERS") _
                b
                λ max_text c.
                  Ensures-last Wanted
                    (number ConfigurationType.auto_scaler "MAX_WORKER_CONTAINERS" max_text) _ c
                    λ max_containers d.
                      Ensures-last Wanted
                        (required ConfigurationType.auto_scaler "MIN_WORKER_CONTAINERS") _ d
                        λ min_text e.
                          Ensures-last Wanted
                            (number ConfigurationType.auto_scaler "MIN_WORKER_CONTAINERS" min_text)
                            _ e
                            λ min_containers f.
                              Ensures-last Wanted
                                (required ConfigurationType.auto_scaler "CONTAINER_NAME_PREFIX") _ f
                                λ name_prefix g.
                                  Ensures-last Wanted
                                    (required ConfigurationType.auto_scaler "CONTAINER_IMAGE") _ g
                                    λ image_name h.
                                      Ensures-last Wanted (optional_port (lookup "DOCKER_PORT" h)) _
                                        h
                                        λ port i.
                                          Ensures-last Wanted
                                            (local_deployment json_truth
                                              (lookup "LOCAL_DEPLOYMENT" i))
                                            _ i
                                            λ is_local j.
                                              last_steps
                                                (λ network env_vars. record {
                                                  docker_config = record {
                                                    env_vars = some env_vars;
                                                    host = lookup "DOCKER_HOST" h;
                                                    image_name = image_name;
                                                    is_local = is_local;
                                                    name_prefix = name_prefix;
                                                    network =
                                                        some (get_or network "dcs__dcs-network");
                                                    port = port;
                                                    socket_path = lookup "DOCKER_SOCKET_PATH" h;
                                                    tag = lookup "CONTAINER_TAG" h;
                                                  };
                                                  max_containers = max_containers;
                                                  min_containers = min_containers;
                                                  tasks_per_container = tasks;
                                                })
                                                (ConfigurationError.invalid_value
                                                  ConfigurationType.auto_scaler
                                                  "DOCKER_SOCKET_PATH|DOCKER_HOST|DOCKER_PORT"
                                                  "Either use socketPath OR host+port")
                                                (can_connect (lookup "DOCKER_SOCKET_PATH" h)
                                                  (lookup "DOCKER_HOST" h) port)
                                                (λ network env_vars allowed. connects _ allowed) j

scheduler_roundtrip :
    (health state : ℕ)
    → (get_scheduler_config (
        ("HEALTH_CHECK_INTERVAL", print health)
        ∷ ("APPLY_DESIRED_STATE_INTERVAL", print state)
        ∷ [])).0
      ≡ ok (record { health_check_interval = health; state_application_interval = state })
unfolding get_scheduler_config lookup
scheduler_roundtrip health state = simp (is_truthy-print, is_string_number-print, parse_int-print)
