-- ===== src/Redis/Config.antt =====
-- packages/redis/src/config: the service's configuration, read from the environment variables, which
-- are the state of the actions. `JSON.parse` of LOCAL_DEPLOYMENT, with its truth value, is a parameter.
pub mod Numbers
pub mod Laws
pub mod RoundTrip
pub mod Tests
use text.Mathlib.Text.{starts_with}
use dynamic_conversion_servi.Prelude.{
  ℕ, String, Bool, true, false, not, ◌&&◌, ◌||◌, Option, none, some, List, [], ◌∷◌, ◌++◌, get_or,
  filter, map, if◌then◌else◌,
}
use dynamic_conversion_servi.Prelude.Dict.{Dict, lookup}
use dynamic_conversion_servi.Prelude.Action.{
  Result, ok, err, Action, pure, raise, gets, or_raise, raise_if, ◌>>=◌, ◌>>◌,
}
use dynamic_conversion_servi.Docker.{DockerConfiguration}
use dynamic_conversion_servi.Docker.Names.{concat, is_truthy}
use dynamic_conversion_servi.Docker.Connect.{is_truthy_number}
use dynamic_conversion_servi.AutoScaler.{AutoScalerConfiguration}
use Numbers.{is_string_number, parse_int}

-- `TConfigurationType`
pub data ConfigurationType : Type 0 where
  auto_scaler redis_service conversion_service : ConfigurationType

-- exception.ts: `InvalidConfigurationError` and `InvalidConfigurationValueError`, and the error of
-- `JSON.parse`
pub data ConfigurationError : Type 0 where
  missing : ConfigurationType → String → ConfigurationError
  invalid_value : ConfigurationType → String → String → ConfigurationError
  syntax_error : ConfigurationError

-- interface.ts
pub record RedisConfiguration : Type 0 where
  pub host : String
  pub namespace : String
  pub port : ℕ
  pub queue : String
  pub timeout : ℕ

pub record SchedulerConfiguration : Type 0 where
  pub health_check_interval : ℕ
  pub state_application_interval : ℕ

pub record RedisServiceConfiguration : Type 0 where
  pub auto_scaler_config : AutoScalerConfiguration
  pub file_ttl : ℕ
  pub redis_config : RedisConfiguration
  pub scheduler_config : SchedulerConfiguration

abbrev pub Variables : Type 0
Variables = Dict String

abbrev pub Reader : Type 0 → Type 0
Reader A = Action Variables ConfigurationError A

-- `process.env.KEY`
abbrev pub variable : String → Reader (Option String)
variable key = gets (lookup key)

-- `if (!value) throw …`
abbrev pub truthy_or_missing : ConfigurationType → String → Option String → Reader String
truthy_or_missing type key none = raise (ConfigurationError.missing type key)
truthy_or_missing type key (some value) =
    raise_if (not (is_truthy (some value))) (ConfigurationError.missing type key) >> pure value

unfoldable pub required : ConfigurationType → String → Reader String
required type key = do value ← variable key; truthy_or_missing type key value

-- `if (!isStringNumber(value)) throw …`, then `parseInt`; the error names the key `named`.
unfoldable pub number : ConfigurationType → String → String → Reader ℕ
number type named value = do
  raise_if (not (is_string_number (some value))) (ConfigurationError.invalid_value type named value)
  pure (parse_int value)

-- A number with a default for an undefined or empty variable, and the error for a text that is no
-- number.
abbrev pub number_or : ℕ → (String → ConfigurationError) → Option String → Reader ℕ
number_or default e none = pure default
number_or default e (some value) =
    if is_truthy (some value)
    then (raise_if (not (is_string_number (some value))) (e value) >> pure (parse_int value))
    else pure default

-- `${kv.key}=${kv.value}` for the variables whose key starts so
unfoldable pub rules_from : String → Variables → List String
rules_from start variables =
    map (λ (e : String × String). concat e.0 (concat "=" e.1))
      (filter (λ (e : String × String). starts_with e.0 start) variables)

-- `getConversionServiceConfigFromEnv`
unfoldable pub get_conversion_service_config : Reader (List String)
unfolding required rules_from
get_conversion_service_config = do
  ffmpeg_path ← required ConfigurationType.conversion_service "FFMPEG_PATH"
  image_magick_path ← required ConfigurationType.conversion_service "IMAGE_MAGICK_PATH"
  unoconv_path ← required ConfigurationType.conversion_service "UNOCONV_PATH"
  webservice_port ← required ConfigurationType.conversion_service "WEBSERVICE_PORT"
  max_time ← required ConfigurationType.conversion_service "MAX_CONVERSION_TIME"
  max_tries ← required ConfigurationType.conversion_service "MAX_CONVERSION_TRIES"
  document ← required ConfigurationType.conversion_service "CONVERTER_DOCUMENT_PRIORITY"
  media ← required ConfigurationType.conversion_service "CONVERTER_MEDIA_PRIORITY"
  mono_rules ← gets (rules_from "CONVERT_TO")
  multi_rules ← gets (rules_from "CONVERT_FROM")
  pure (
      (concat "FFMPEG_PATH=" ffmpeg_path
        ∷ concat "IMAGE_MAGICK_PATH=" image_magick_path
        ∷ concat "UNOCONV_PATH=" unoconv_path
        ∷ "WEBSERVICE_PORT=3000"
        ∷ concat "MAX_CONVERSION_TIME=" max_time
        ∷ concat "MAX_CONVERSION_TRIES=" max_tries
        ∷ concat "CONVERTER_DOCUMENT_PRIORITY=" document
        ∷ concat "CONVERTER_MEDIA_PRIORITY=" media
        ∷ mono_rules)
      ++ multi_rules)

-- The optional DOCKER_PORT.
abbrev pub optional_port : Option String → Reader (Option ℕ)
optional_port none = pure none
optional_port (some value) =
    if is_truthy (some value)
    then (number ConfigurationType.auto_scaler "DOCKER_PORT" value >>= λ port. pure (some port))
    else pure none

abbrev pub can_connect : Option String → Option String → Option ℕ → Bool
can_connect socket_path host port =
    is_truthy socket_path
    || (is_truthy host && is_truthy_number port && not (is_truthy socket_path))

module _ (json_truth : String → Option Bool) where
  -- `Boolean(JSON.parse(isLocalEnv))`
  abbrev pub local_deployment : Option String → Reader Bool
  local_deployment none = pure false
  local_deployment (some value) =
      if is_truthy (some value)
      then or_raise (json_truth value) ConfigurationError.syntax_error
      else pure false

  -- `getAutoScalerConfigFromEnv`
  unfoldable pub get_auto_scaler_config : Reader AutoScalerConfiguration
  unfolding required number get_conversion_service_config
  get_auto_scaler_config = do
    tasks_text ← required ConfigurationType.auto_scaler "TASKS_PER_CONTAINER"
    tasks ← number ConfigurationType.auto_scaler "MAX_WORKER_CONTAINERS" tasks_text
    max_text ← required ConfigurationType.auto_scaler "MAX_WORKER_CONTAINERS"
    max_containers ← number ConfigurationType.auto_scaler "MAX_WORKER_CONTAINERS" max_text
    min_text ← required ConfigurationType.auto_scaler "MIN_WORKER_CONTAINERS"
    min_containers ← number ConfigurationType.auto_scaler "MIN_WORKER_CONTAINERS" min_text
    name_prefix ← required ConfigurationType.auto_scaler "CONTAINER_NAME_PREFIX"
    image_name ← required ConfigurationType.auto_scaler "CONTAINER_IMAGE"
    tag ← variable "CONTAINER_TAG"
    socket_path ← variable "DOCKER_SOCKET_PATH"
    host ← variable "DOCKER_HOST"
    port_text ← variable "DOCKER_PORT"
    port ← optional_port port_text
    local_text ← variable "LOCAL_DEPLOYMENT"
    is_local ← local_deployment local_text
    raise_if (not (can_connect socket_path host port)) (
        ConfigurationError.invalid_value ConfigurationType.auto_scaler
          "DOCKER_SOCKET_PATH|DOCKER_HOST|DOCKER_PORT" "Either use socketPath OR host+port")
    network ← variable "DOCKER_ROOT_NETWORK"
    env_vars ← get_conversion_service_config
    pure (record {
      docker_config = record {
        env_vars = some env_vars;
        host = host;
        image_name = image_name;
        is_local = is_local;
        name_prefix = name_prefix;
        network = some (get_or network "dcs__dcs-network");
        port = port;
        socket_path = socket_path;
        tag = tag;
      };
      max_containers = max_containers;
      min_containers = min_containers;
      tasks_per_container = tasks;
    })

-- `getSchedulerConfigFromEnv`
unfoldable pub get_scheduler_config : Reader SchedulerConfiguration
get_scheduler_config = do
  health_text ← variable "HEALTH_CHECK_INTERVAL"
  state_text ← variable "APPLY_DESIRED_STATE_INTERVAL"
  health ←
      number_or 10
        (ConfigurationError.invalid_value ConfigurationType.redis_service "HEALTH_CHECK_INTERVAL")
        health_text
  state ←
      number_or 30
        (ConfigurationError.invalid_value ConfigurationType.redis_service
          "APPLY_DESIRED_STATE_INTERVAL")
        state_text
  pure (record { health_check_interval = health; state_application_interval = state })

-- `getRedisConfigFromEnv`
unfoldable pub get_redis_config : (String → Option Bool) → Reader RedisServiceConfiguration
get_redis_config json_truth = do
  host ← variable "REDIS_HOST"
  port_text ← variable "REDIS_PORT"
  namespace ← variable "REDIS_NS"
  queue ← variable "REDIS_QUEUE"
  ttl_text ← variable "FILE_TTL"
  timeout_text ← variable "REDIS_TIMEOUT"
  port ←
      number_or 6379 (ConfigurationError.invalid_value ConfigurationType.redis_service "REDIS_PORT")
        port_text
  file_ttl ←
      number_or 3600
        (λ value. ConfigurationError.missing ConfigurationType.redis_service "FILE_TTL") ttl_text
  timeout ←
      number_or 10
        (ConfigurationError.invalid_value ConfigurationType.redis_service "REDIS_TIMEOUT")
        (some (get_or timeout_text "10"))
  scaler_config ← get_auto_scaler_config json_truth
  scheduler ← get_scheduler_config
  pure (record {
    auto_scaler_config = scaler_config;
    file_ttl = file_ttl;
    redis_config = record {
      host = get_or host "127.0.0.1";
      namespace = get_or namespace "dcs-redis-ns";
      port = port;
      queue = get_or queue "dcs-redis-q";
      timeout = timeout;
    };
    scheduler_config = scheduler;
  })
