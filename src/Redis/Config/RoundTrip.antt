-- ===== src/Redis/Config/RoundTrip.antt =====
-- A configuration written as environment variables, and what packages/redis/src/config/index.ts
-- reads from them.
use dynamic_conversion_servi.Prelude.{ℕ, String, Bool, true, Option, some, List, ◌∷◌, ◌≡◌}
use dynamic_conversion_servi.Prelude.Dict.{lookup}
use dynamic_conversion_servi.Prelude.Action.{ok}
use dynamic_conversion_servi.Docker.Names.{is_truthy}
use dynamic_conversion_servi.Redis.Config.Numbers.{
  print, parse_int-print, is_truthy-print, is_string_number-print,
}
use dynamic_conversion_servi.Redis.Config.{
  Variables, required, number, get_conversion_service_config, get_auto_scaler_config,
  get_scheduler_config, get_redis_config, RedisServiceConfiguration,
}

-- The texts of a configuration in which every optional field is given.
pub record Texts : Type 0 where
  pub prefix : String
  pub image : String
  pub image_tag : String
  pub docker_host : String
  pub socket : String
  pub root_network : String
  pub local_text : String
  pub redis_host : String
  pub redis_namespace : String
  pub redis_queue : String

-- The numbers.
pub record Numbers : Type 0 where
  pub tasks : ℕ
  pub most : ℕ
  pub least : ℕ
  pub docker_port : ℕ
  pub redis_port : ℕ
  pub ttl : ℕ
  pub redis_timeout : ℕ
  pub health_interval : ℕ
  pub state_interval : ℕ

-- Every number as its decimal text, before the variables of the conversion service.
abbrev pub variables_of : Texts → Numbers → Variables → Variables
variables_of t n own =
    ("TASKS_PER_CONTAINER", print n.tasks)
    ∷ ("MAX_WORKER_CONTAINERS", print n.most)
    ∷ ("MIN_WORKER_CONTAINERS", print n.least)
    ∷ ("CONTAINER_NAME_PREFIX", t.prefix)
    ∷ ("CONTAINER_IMAGE", t.image)
    ∷ ("CONTAINER_TAG", t.image_tag)
    ∷ ("DOCKER_SOCKET_PATH", t.socket)
    ∷ ("DOCKER_HOST", t.docker_host)
    ∷ ("DOCKER_PORT", print n.docker_port)
    ∷ ("LOCAL_DEPLOYMENT", t.local_text)
    ∷ ("DOCKER_ROOT_NETWORK", t.root_network)
    ∷ ("HEALTH_CHECK_INTERVAL", print n.health_interval)
    ∷ ("APPLY_DESIRED_STATE_INTERVAL", print n.state_interval)
    ∷ ("REDIS_HOST", t.redis_host)
    ∷ ("REDIS_PORT", print n.redis_port)
    ∷ ("REDIS_NS", t.redis_namespace)
    ∷ ("REDIS_QUEUE", t.redis_queue)
    ∷ ("FILE_TTL", print n.ttl)
    ∷ ("REDIS_TIMEOUT", print n.redis_timeout)
    ∷ own

abbrev pub configuration_of : Texts → Numbers → Bool → List String → RedisServiceConfiguration
configuration_of t n is_local env_vars = record {
  auto_scaler_config = record {
    docker_config = record {
      env_vars = some env_vars;
      host = some t.docker_host;
      image_name = t.image;
      is_local = is_local;
      name_prefix = t.prefix;
      network = some t.root_network;
      port = some n.docker_port;
      socket_path = some t.socket;
      tag = some t.image_tag;
    };
    max_containers = n.most;
    min_containers = n.least;
    tasks_per_container = n.tasks;
  };
  file_ttl = n.ttl;
  redis_config = record {
    host = t.redis_host;
    namespace = t.redis_namespace;
    port = n.redis_port;
    queue = t.redis_queue;
    timeout = n.redis_timeout;
  };
  scheduler_config = record {
    health_check_interval = n.health_interval;
    state_application_interval = n.state_interval;
  };
}

module _ (json_truth : String → Option Bool) (t : Texts) (n : Numbers) (own : Variables) where
  scheduler_read : get_scheduler_config (variables_of t n own) ≡ (
    ok (record {
      health_check_interval = n.health_interval;
      state_application_interval = n.state_interval;
    }),
    variables_of t n own,
  )
  unfolding get_scheduler_config lookup
  scheduler_read = simp (is_truthy-print, is_string_number-print, parse_int-print)

  scaler_read :
      (is_local : Bool) (env_vars : List String)
      → is_truthy (some t.prefix) ≡ true
      → is_truthy (some t.image) ≡ true
      → is_truthy (some t.socket) ≡ true
      → is_truthy (some t.local_text) ≡ true
      → json_truth t.local_text ≡ some is_local
      → get_conversion_service_config (variables_of t n own) ≡ (ok env_vars, variables_of t n own)
      → get_auto_scaler_config json_truth (variables_of t n own)
        ≡ (ok ((configuration_of t n is_local env_vars).auto_scaler_config), variables_of t n own)
  unfolding get_auto_scaler_config required number lookup
  scaler_read is_local env_vars prefix image socket text truth vars = simp (
    is_truthy-print, is_string_number-print, parse_int-print, prefix, image, socket, text, truth,
    vars,
  )

  -- A configuration with every variable set is read back as it was written: with texts that are not
  -- empty for the prefix, the image, the socket and LOCAL_DEPLOYMENT, which parses to a value with
  -- the truth value of the deployment, and with conversion service variables that are complete,
  -- `getRedisConfigFromEnv` returns every number and text of the configuration.
  pub redis_config_roundtrip :
      (is_local : Bool) (env_vars : List String)
      → is_truthy (some t.prefix) ≡ true
      → is_truthy (some t.image) ≡ true
      → is_truthy (some t.socket) ≡ true
      → is_truthy (some t.local_text) ≡ true
      → json_truth t.local_text ≡ some is_local
      → get_conversion_service_config (variables_of t n own) ≡ (ok env_vars, variables_of t n own)
      → (get_redis_config json_truth (variables_of t n own)).0
        ≡ ok (configuration_of t n is_local env_vars)
  unfolding get_redis_config lookup
  redis_config_roundtrip is_local env_vars prefix image socket text truth vars = simp (
    is_truthy-print,
    is_string_number-print,
    parse_int-print,
    scheduler_read,
    scaler_read is_local env_vars prefix image socket text truth vars,
  )
