-- ===== src/Redis/Config/Tests.antt =====
-- A deployment by socket, and its variables.
use dynamic_conversion_servi.Prelude.{
  String, Bool, true, false, Option, none, some, List, [], ◌∷◌, ◌≡◌, refl, str_eq, if◌then◌else◌,
}
use dynamic_conversion_servi.Prelude.Dict.{lookup}
use dynamic_conversion_servi.Prelude.Action.{ok, Ensures}
use dynamic_conversion_servi.Redis.Config.{
  Variables, get_redis_config, get_auto_scaler_config, get_conversion_service_config,
}
use dynamic_conversion_servi.Redis.Config.Numbers.{print, parse_int, parse_int-print}
use dynamic_conversion_servi.Redis.Config.Laws.{Connects, config-Connects}
use dynamic_conversion_servi.Redis.Config.RoundTrip.{
  Texts, Numbers, variables_of, configuration_of, redis_config_roundtrip,
}

abbrev json_truth : String → Option Bool
json_truth text =
    if str_eq text "true" then some true else if str_eq text "false" then some false else none

abbrev own : Variables
own =
    ("FFMPEG_PATH", "/usr/bin/ffmpeg")
    ∷ ("IMAGE_MAGICK_PATH", "/usr/bin/convert")
    ∷ ("UNOCONV_PATH", "/usr/bin/unoconv")
    ∷ ("WEBSERVICE_PORT", "8080")
    ∷ ("MAX_CONVERSION_TIME", "60")
    ∷ ("MAX_CONVERSION_TRIES", "3")
    ∷ ("CONVERTER_DOCUMENT_PRIORITY", "unoconv")
    ∷ ("CONVERTER_MEDIA_PRIORITY", "ffmpeg")
    ∷ ("CONVERT_TO_PDF_WITH", "unoconv")
    ∷ []

abbrev env_vars : List String
env_vars =
    "FFMPEG_PATH=/usr/bin/ffmpeg" ∷ "IMAGE_MAGICK_PATH=/usr/bin/convert"
    ∷ "UNOCONV_PATH=/usr/bin/unoconv" ∷ "WEBSERVICE_PORT=3000" ∷ "MAX_CONVERSION_TIME=60"
    ∷ "MAX_CONVERSION_TRIES=3" ∷ "CONVERTER_DOCUMENT_PRIORITY=unoconv"
    ∷ "CONVERTER_MEDIA_PRIORITY=ffmpeg" ∷ "CONVERT_TO_PDF_WITH=unoconv" ∷ []

abbrev texts : Texts
texts = record {
  prefix = "worker";
  image = "conversion-service";
  image_tag = "latest";
  docker_host = "";
  socket = "/var/run/docker.sock";
  root_network = "dcs";
  local_text = "false";
  redis_host = "redis";
  redis_namespace = "ns";
  redis_queue = "q";
}

abbrev numbers : Numbers
numbers = record {
  tasks = 5;
  most = 8;
  least = 1;
  docker_port = 0;
  redis_port = 6379;
  ttl = 3600;
  redis_timeout = 10;
  health_interval = 10;
  state_interval = 30;
}

redis_config_roundtrip_example :
    (get_redis_config json_truth (variables_of texts numbers own)).0
    ≡ ok (configuration_of texts numbers false env_vars)
unfolding get_conversion_service_config lookup print
redis_config_roundtrip_example =
    redis_config_roundtrip json_truth texts numbers own false env_vars refl refl refl refl refl refl

config-Connects_example :
    Ensures
      (λ c. Connects c.docker_config)
      (get_auto_scaler_config json_truth (variables_of texts numbers own))
config-Connects_example = config-Connects json_truth (variables_of texts numbers own)

parse_int-print_example : parse_int (print 3600) ≡ 3600
parse_int-print_example = parse_int-print 3600
