-- ===== src/Redis/Rest.antt =====
-- packages/redis/src/api/rest/conversion: `ConversionController` over the redis service. The parsed
-- form, `uuid` and the files are parameters; the text of an error message is left out.
pub mod Laws
pub mod Tests
use Prim.Native.String as Text
use text.Mathlib.Text.{starts_with}
use dynamic_conversion_servi.Prelude.{
  ℕ, zero, suc, ◌+◌, String, Bool, true, false, not, ◌&&◌, Option, none, some, List, [], ◌∷◌, ◌++◌,
  map, length, if◌then◌else◌, get_or,
}
use dynamic_conversion_servi.Prelude.Dict.{values}
use dynamic_conversion_servi.Prelude.Action.{Result, ok, err}
use dynamic_conversion_servi.Docker.Names.{concat, is_truthy}
use dynamic_conversion_servi.Conversion.{Status}
use dynamic_conversion_servi.Redis.Request.{
  ConversionStatus, WorkerConversionId, RequestBody, ConversionRequest, FinishedRequest,
}
use dynamic_conversion_servi.Redis.Formats.{FormatError, get_ext, with_dot}
use dynamic_conversion_servi.Redis.Worker.{get_requests}
use dynamic_conversion_servi.Redis.Service.{
  Environment, ServiceConfiguration, ServiceState, ServiceError, add_request_to_queue,
  get_pending_request_count, get_conversion_result,
}

-- `isFinished` and `assertStatus` of util.ts
abbrev pub is_finished : Option ConversionStatus → Bool
is_finished (some ConversionStatus.converted) = true
is_finished (some ConversionStatus.erroneous) = true
is_finished _ = false

abbrev pub assert_status : ConversionStatus → Status
assert_status ConversionStatus.converted = Status.converted
assert_status ConversionStatus.erroneous = Status.erroneous
assert_status ConversionStatus.in_queue = Status.in_queue
assert_status ConversionStatus.processing = Status.processing
assert_status (ConversionStatus.other text) = Status.erroneous

-- What the handlers use of `uuid`, of the output directory and of `writeToFile`.
pub record Files (W : Type 0) : Type 0 where
  pub uuid : W → String × W
  pub write_to_file : String → String → W → Bool × W
  pub read_file : String → W → Option String × W
  -- the size of `fs.promises.stat`, and `getType` of the `mime` package
  pub stat : String → W → Option ℕ × W
  pub get_type : String → String

-- The answer to a request; `internal_server_error` is the body of `handleError`.
pub data Accepted : Type 0 where
  processing_response : String → Accepted
  internal_server_error : Accepted

-- `IConversionStatus`, with the result of version 1
pub record StatusBody : Type 0 where
  pub conversion_id : String
  pub path : String
  pub retries : ℕ
  pub source_format : Option String
  pub status : Status
  pub target_format : String
  pub result_file : Option String

pub data StatusAnswer : Type 0 where
  found : StatusBody → StatusAnswer
  not_found : StatusAnswer

-- The answer of the download: the stream of a file with its headers, or the status
pub data DownloadAnswer : Type 0 where
  stream : (path content_type : String) (content_length : ℕ) (filename : String) → DownloadAnswer
  status_only : String → ConversionStatus → DownloadAnswer
  no_download : DownloadAnswer

-- `text.replace(pattern, by)`: the first occurrence. The `$` patterns of `by` are left out.
unfoldable pub replace_first : String → String → String → String
replace_first pattern by Text.[] = if starts_with Text.[] pattern then by else Text.[]
replace_first pattern by (Text.◌∷◌ c s) =
    let later = replace_first pattern by s in
    if starts_with (Text.◌∷◌ c s) pattern
    then concat by (Text.slice (Text.◌∷◌ c s) (Text.len pattern) (Text.len (Text.◌∷◌ c s)))
    else Text.◌∷◌ c later

-- The name of the result: the extension instead of the original format, or after the name.
unfoldable pub result_name : RequestBody → String
unfolding replace_first
result_name body =
    if is_truthy body.original_format
    then replace_first (get_or body.original_format "") (with_dot body.target_format) body.filename
    else concat body.filename (with_dot body.target_format)

abbrev pub output_file : String → RequestBody → String
output_file id body = concat "./output/" (concat id (with_dot body.target_format))

-- The request that is queued for a form.
abbrev pub queued_request : String → RequestBody → ConversionRequest
queued_request id form = record {
  conversion_request_body = record form { file = "" };
  conversion_status = ConversionStatus.in_queue;
  external_conversion_id = id;
  worker_conversion_id = WorkerConversionId.null;
}

abbrev pub is_converted : ConversionStatus → Bool
is_converted ConversionStatus.converted = true
is_converted _ = false

module _ {W E : Type 0} (environment : Environment W E) (config : ServiceConfiguration)
    (files : Files W) where
  abbrev pub answered :
      String → Result (ServiceError E) (Unit {0}) × ServiceState W → Accepted × ServiceState W
  answered id (ok _, t) = (Accepted.processing_response id, t)
  answered id (err e, t) = (Accepted.internal_server_error, t)

  abbrev pub written : String → RequestBody → Bool → ServiceState W → Accepted × ServiceState W
  written id form false s = (Accepted.internal_server_error, s)
  written id form true s =
      answered id (add_request_to_queue environment config (queued_request id form) s)

  abbrev pub with_extension :
      String → RequestBody → Result FormatError String → ServiceState W → Accepted × ServiceState W
  with_extension id form (err e) s = (Accepted.internal_server_error, s)
  with_extension id form (ok ext) s =
      let (resolved, w) =
        files.write_to_file (environment.network.join "input" (concat id ext)) form.file s.world in
      written id form resolved (record s { world = w })

  -- `convertFile`, and `convertFileLegacy` for a body; none is a form that cannot be parsed, or no body.
  unfoldable pub convert_file : Option RequestBody → ServiceState W → Accepted × ServiceState W
  convert_file none s = (Accepted.internal_server_error, s)
  convert_file (some form) s =
      let (id, w) = files.uuid s.world in
      with_extension id form
        (get_ext environment.network.extname form.filename form.original_format)
        (record s { world = w })

  abbrev pub status_body : String → ConversionRequest → StatusBody
  status_body id request = record {
    conversion_id = id;
    path = "";
    retries = 0;
    source_format = some (get_or request.conversion_request_body.original_format "");
    status = assert_status request.conversion_status;
    target_format = request.conversion_request_body.target_format;
    result_file = none;
  }

  -- The result as version 1 sends it, when it can be read.
  abbrev pub with_file :
      String
      → ConversionRequest
      → Option String × W
      → ServiceState W
      → StatusAnswer × ServiceState W
  with_file id request (none, w) s = (StatusAnswer.not_found, record s { world = w })
  with_file id request (some contents, w) s = (
    StatusAnswer.found (record (status_body id request) {
      path = result_name request.conversion_request_body;
      result_file = some contents;
    }),
    record s { world = w },
  )

  abbrev pub answer_for :
      Bool → String → Option ConversionRequest → ServiceState W → StatusAnswer × ServiceState W
  answer_for is_v2 id none s = (StatusAnswer.not_found, s)
  answer_for is_v2 id (some request) s =
      if is_converted request.conversion_status && not is_v2
      then with_file id request
          (files.read_file (output_file id request.conversion_request_body) s.world) s
      else (StatusAnswer.found (status_body id request), s)

  -- `getConvertedFile`
  unfoldable pub get_converted_file : Bool → String → ServiceState W → StatusAnswer × ServiceState W
  unfolding result_name
  get_converted_file is_v2 id s = answer_for is_v2 id (get_conversion_result id s) s

  abbrev pub streamed :
      String → RequestBody → Option ℕ × W → ServiceState W → DownloadAnswer × ServiceState W
  streamed id body (none, w) s = (DownloadAnswer.no_download, record s { world = w })
  streamed id body (some size, w) s =
      let path = output_file id body in
      (stream path (files.get_type path) size (result_name body), record s { world = w })

  abbrev pub download_for :
      String → Option ConversionRequest → ServiceState W → DownloadAnswer × ServiceState W
  download_for id none s = (DownloadAnswer.no_download, s)
  download_for id (some request) s =
      if is_converted request.conversion_status
      then streamed id request.conversion_request_body
          (files.stat (output_file id request.conversion_request_body) s.world) s
      else (status_only id request.conversion_status, s)

  -- `getConvertedFileDownload`
  unfoldable pub get_converted_file_download :
      String → ServiceState W → DownloadAnswer × ServiceState W
  unfolding result_name
  get_converted_file_download id s = download_for id (get_conversion_result id s) s

  -- `getRequests` and `getFinishedRequests`
  abbrev pub finished_requests : List FinishedRequest → List ConversionRequest
  finished_requests [] = []
  finished_requests (f ∷ fs) = f.request ∷ finished_requests fs

  abbrev pub listed : ConversionRequest → StatusBody
  listed request = record (status_body request.external_conversion_id request) {
    path = request.conversion_request_body.filename;
    source_format = request.conversion_request_body.original_format;
  }

  abbrev pub counted :
      List StatusBody
      → Result (ServiceError E) ℕ × ServiceState W
      → (List StatusBody × ℕ) × ServiceState W
  counted conversions (ok pending, t) = ((conversions, length conversions + pending), t)
  counted conversions (err e, t) = (([], 0), t)

  -- `getConversionQueueStatus`: the conversions, and how many remain
  unfoldable pub get_conversion_queue_status :
      ServiceState W → (List StatusBody × ℕ) × ServiceState W
  get_conversion_queue_status s =
      counted (map listed (get_requests s.workers ++ finished_requests (values s.finished_request)))
        (get_pending_request_count environment config s)
