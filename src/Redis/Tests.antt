-- ===== src/Redis/Tests.antt =====
-- The wrapper and the service on a queue that the world holds as a list of messages.
use dynamic_conversion_servi.Prelude.{
  String, true, false, Option, none, some, List, [], ◌∷◌, ◌++◌, ◌≡◌, ◌≢◌, ◌↔◌, refl, length,
}
use dynamic_conversion_servi.Prelude.Action.{ok, err}
use dynamic_conversion_servi.Docker.{Daemon}
use dynamic_conversion_servi.Docker.Tests.{example_config}
use dynamic_conversion_servi.Docker.Names.{concat}
use dynamic_conversion_servi.Redis.Formats.{get_ext, get_ext_from_format, Directory, removed_path}
use dynamic_conversion_servi.Redis.Paths.{removed_input_iff}
use dynamic_conversion_servi.Redis.Worker.Network.{Network}
use dynamic_conversion_servi.Redis.Worker.Tests.{queued, two_workers}
use dynamic_conversion_servi.Redis.Wrapper.{
  Rsmq, WrapperError, WrapperState, get_pending_messages_count, initialize, receive_message,
  send_message,
}
use dynamic_conversion_servi.Redis.Wrapper.Laws.{
  IsInitialized, uninitialized_refused, initialize_flag,
}
use dynamic_conversion_servi.Redis.Service.{Environment, ServiceConfiguration, ServiceState}

abbrev pub Messages : Type 0
Messages = List String

abbrev popped_message : Messages → Option String × Messages
popped_message [] = (none, [])
popped_message (m ∷ ms) = (some m, ms)

abbrev pub rsmq : Rsmq Messages
rsmq = record {
  get_queue_attributes = λ queue w. (ok (length w), w);
  pop_message = λ queue w. let (m, rest) = popped_message w in (ok m, rest);
  send_message = λ queue message w. (ok true, w ++ message ∷ []);
  create_queue = λ queue w. (ok 1, []);
  delete_queue = λ queue w. (ok 1, []);
  list_queues = λ w. (ok [], w);
}

abbrev pub daemon : {W : Type 0} → Daemon W String
daemon = record {
  list_images = λ image w. (ok [], w);
  pull_image = λ image tag w. (ok tt, w);
  create = λ options w. (err "full", w);
  start = λ id w. (err "full", w);
  list = λ w. (ok [], w);
  status_of = λ id w. (err "unknown", w);
  stop = λ id w. (err "unknown", w);
  delete = λ id w. (err "unknown", w);
  nanoid = λ n w. (ok "a1b2c3", w);
}

abbrev pub network : {W : Type 0} → Network W
network = record {
  extname = λ name. ".txt";
  join = λ a b. concat a (concat "/" b);
  post = λ url form w. (none, w);
  status = λ url id w. (none, w);
  download = λ url id path w. (false, w);
  delete_file = λ path w. (true, w);
  now = λ w. (0, w);
}

abbrev pub environment : Environment Messages String
environment = record {
  daemon = daemon;
  rsmq = rsmq;
  network = network;
  stringify = λ request. request.external_conversion_id;
  parse = λ text. some queued;
  read_output = λ w. (some [], w);
  delete_orphan = λ file w. (true, w);
}

abbrev pub config : ServiceConfiguration
config = record {
  auto_scaler_config = record {
    docker_config = example_config;
    max_containers = 8;
    min_containers = 1;
    tasks_per_container = 5;
  };
  file_ttl = 3600;
  queue = "requests";
}

abbrev pub service : ServiceState Messages
service = record {
  finished_request = [];
  last_status = none;
  requests_in_queue = [];
  total_requests = 0;
  workers = two_workers;
  has_image = true;
  is_initialized = true;
  world = "r9" ∷ "r10" ∷ [];
}

abbrev fresh : WrapperState Messages
fresh = record { is_initialized = false; world = "r9" ∷ [] }

uninitialized_refused_run :
    (get_pending_messages_count rsmq "requests" fresh ≡ (err WrapperError.not_initialized, fresh))
    × (receive_message rsmq "requests" fresh ≡ (err WrapperError.not_initialized, fresh))
    × (send_message rsmq "requests" "r1" fresh ≡ (err WrapperError.not_initialized, fresh))
uninitialized_refused_run = uninitialized_refused rsmq "requests" "r1" fresh refl

initialize_flag_run : IsInitialized false (initialize rsmq "requests" fresh)
initialize_flag_run = initialize_flag rsmq "requests" fresh

removed_input_iff_example :
    (removed_path (λ directory name. name) Directory.input queued ≡ concat "r2" ".txt")
    ↔ (get_ext_from_format none ≢ "")
unfolding get_ext get_ext_from_format
removed_input_iff_example = removed_input_iff (λ name. ".txt") queued ".txt" refl
