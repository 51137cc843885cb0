-- ===== src/Docker/Connect.antt =====
-- packages/auto-scaler/src/docker/index.ts: the constructor of `DockerService`, which chooses how to
-- reach the daemon.
use dynamic_conversion_servi.Prelude.{
  ℕ, zero, suc, String, Bool, true, false, not, ◌&&◌, Option, none, some,
}
use dynamic_conversion_servi.Prelude.Action.{Result, ok, err}
use dynamic_conversion_servi.Docker.Names.{is_truthy}
use dynamic_conversion_servi.Docker.{DockerConfiguration}

-- docker/exception.ts, the errors of the constructor
pub data ConnectionError : Type 0 where
  invalid_docker_connection_options no_network_specified : ConnectionError

-- The options that the daemon's client is made with.
pub data DockerClient : Type 0 where
  by_socket : Option String → DockerClient
  by_host : Option String → Option ℕ → DockerClient

-- `port` as a condition: 0 is falsy.
abbrev pub is_truthy_number : Option ℕ → Bool
is_truthy_number none = false
is_truthy_number (some zero) = false
is_truthy_number (some (suc n)) = true

abbrev pub use_socket : DockerConfiguration → Bool
use_socket config = is_truthy config.socket_path

abbrev pub use_host_port : DockerConfiguration → Bool
use_host_port config =
    is_truthy config.host && is_truthy_number config.port && not (is_truthy config.socket_path)

abbrev pub choose_client :
    (socket host_port : Bool) → DockerConfiguration → Result ConnectionError DockerClient
choose_client true host_port config = ok (by_socket config.socket_path)
choose_client false true config = ok (by_host config.host config.port)
choose_client false false config = err ConnectionError.invalid_docker_connection_options

-- The rest of the constructor: outside a local deployment there must be a network.
abbrev pub check_network :
    (is_local has_network : Bool)
    → Result ConnectionError DockerClient
    → Result ConnectionError DockerClient
check_network is_local has_network (err e) = err e
check_network true has_network (ok client) = ok client
check_network false true (ok client) = ok client
check_network false false (ok client) = err ConnectionError.no_network_specified

unfoldable pub connect : DockerConfiguration → Result ConnectionError DockerClient
connect config =
    check_network config.is_local (is_truthy config.network)
      (choose_client (use_socket config) (use_host_port config) config)
