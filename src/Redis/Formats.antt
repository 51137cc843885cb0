-- ===== src/Redis/Formats.antt =====
-- packages/redis/src/util.ts: file extensions, health tests, and the paths of a request's files.
-- `path.extname` and `path.join` are Node's and enter as parameters.
use text.Mathlib.Text.{starts_with}
use dynamic_conversion_servi.Prelude.{
  String, Bool, true, false, not, ◌||◌, Option, none, some, str_eq, if◌then◌else◌,
}
use dynamic_conversion_servi.Prelude.Action.{Result, ok, err}
use dynamic_conversion_servi.Docker.{HealthStatus}
use dynamic_conversion_servi.Docker.Names.{concat}
use dynamic_conversion_servi.Redis.Request.{RequestBody, ConversionRequest}

-- `InvalidFormatError`
pub data FormatError : Type 0 where
  invalid_format : String → Option String → FormatError

-- `format.startsWith(".") ? format : `.${format}``
abbrev pub with_dot : String → String
with_dot format = if starts_with format "." then format else concat "." format

-- `getExtFromFormat`; the empty text is as good as none.
unfoldable pub get_ext_from_format : Option String → String
get_ext_from_format none = ""
get_ext_from_format (some format) = if str_eq format "" then "" else with_dot format

-- `getExt`
unfoldable pub get_ext : (String → String) → String → Option String → Result FormatError String
get_ext extname filename format =
    let from_format = get_ext_from_format format in
    let ext = if str_eq from_format "" then extname filename else from_format in
    if str_eq ext "" then err (invalid_format filename format) else ok ext

-- `isHealthy`, `isUnhealthy`, `isStartingOrHealthy`
abbrev pub is_healthy : HealthStatus → Bool
is_healthy HealthStatus.healthy = true
is_healthy _ = false

abbrev pub is_unhealthy : HealthStatus → Bool
is_unhealthy h = not (is_healthy h)

abbrev pub is_starting : HealthStatus → Bool
is_starting HealthStatus.starting = true
is_starting _ = false

abbrev pub is_starting_or_healthy : HealthStatus → Bool
is_starting_or_healthy h = is_healthy h || is_starting h

-- `dir: "input" | "output"` of `removeRequestFile`
pub data Directory : Type 0 where
  input output : Directory

abbrev pub directory_name : Directory → String
directory_name Directory.input = "input"
directory_name Directory.output = "output"

abbrev pub format_in : Directory → RequestBody → Option String
format_in Directory.input body = body.original_format
format_in Directory.output body = some body.target_format

-- The path that `removeRequestFile` deletes.
unfoldable pub removed_path : (String → String → String) → Directory → ConversionRequest → String
removed_path join dir request =
    let ext = get_ext_from_format (format_in dir request.conversion_request_body) in
    join (directory_name dir) (concat request.external_conversion_id ext)
