-- ===== src/Conversion/Rest.antt =====
-- packages/conversion-service/src/controller/conversion/index.ts: `ConversionController`, with the form, the
-- errors and the file names of service/conversion/util.ts. The text of an error message is left out.
pub mod Laws
pub mod Tests
use dynamic_conversion_servi.Prelude.{
  ℕ, String, Bool, true, false, Option, none, some, if◌then◌else◌,
}
use dynamic_conversion_servi.Prelude.Action.{Result, ok, err}
use dynamic_conversion_servi.Docker.Names.{concat}
use dynamic_conversion_servi.Conversion.{
  Status, LogEntry, ConversionFault, ConversionConfig, QueueState,
}
use dynamic_conversion_servi.Conversion.Queue.{StatusResponse, get_status_by_id}
use dynamic_conversion_servi.Conversion.Events.{Machine}
use dynamic_conversion_servi.Conversion.FileIo.{FileSystem, FileFault, read_from_file_sync}
use dynamic_conversion_servi.Conversion.Requests.{
  Intake, Upload, Processed, process_conversion_request,
}

-- What multer gives its callback: whether there is an error, the fields of the body and the file.
pub record Form : Type 0 where
  pub failed : Bool
  pub original_format : Option String
  pub target_format : String
  -- its content and its name
  pub file : Option (String × String)

-- `handleMultipartFormData`: the error is rejected first, so that a file then changes nothing.
abbrev pub upload_of : Form → Option (String × String) → Option Upload
upload_of form none = none
upload_of form (some (content, name)) = some (record {
  file = content;
  filename = name;
  original_format = form.original_format;
  target_format = form.target_format;
})

unfoldable pub handle_multipart_form_data : Form → Option Upload
handle_multipart_form_data form = if form.failed then none else upload_of form form.file

-- The body of an accepted conversion, or that of `handleError`. `DifferentOriginalFormatsDetectedError` is
-- never thrown.
pub data Accepted : Type 0 where
  processing_response : String → Accepted
  internal_server_error : Accepted

abbrev pub handle_error : Processed → Accepted
handle_error (Processed.processing id) = processing_response id
handle_error Processed.unsupported_conversion_format = internal_server_error
handle_error Processed.not_written = internal_server_error

-- `getConvertedFileNameAndPath`
pub record FileProps : Type 0 where
  pub file_name : String
  pub file_path : String

unfoldable pub get_converted_file_name_and_path : String → String → String → FileProps
get_converted_file_name_and_path base_path id target_format = record {
  file_name = concat id (concat "." target_format);
  file_path = concat base_path (concat "output/" (concat id (concat "." target_format)));
}

-- `IConversionStatus`; version 1 adds the file, and the retries as its failures.
pub data StatusAnswer : Type 0 where
  found : StatusResponse → StatusAnswer
  found_v1 : StatusResponse → (failures : ℕ) → (result_file : String) → StatusAnswer
  not_found : StatusAnswer

-- The stream of a file with its headers, or the status alone.
pub data DownloadAnswer : Type 0 where
  stream : (path content_type : String) (content_length : ℕ) (filename : String) → DownloadAnswer
  status_only : String → Status → DownloadAnswer
  no_download : DownloadAnswer

-- `fs.promises.stat`, none when it rejects, and `getType` of the `mime` package
pub record Files (W : Type 0) : Type 0 where
  pub size : String → W → Option ℕ
  pub get_type : String → String
  pub base_path : String

module _ {W : Type 0} (intake : Intake W) (config : ConversionConfig) where
  abbrev pub accept : Option Upload → Machine → W → (Accepted × Machine) × W
  accept none m w = ((internal_server_error, m), w)
  accept (some upload) m w =
      let ((processed, m1), w1) = process_conversion_request intake config upload m w in
      ((handle_error processed, m1), w1)

  -- `convertFile`
  unfoldable pub convert_file : Form → Machine → W → (Accepted × Machine) × W
  unfolding handle_multipart_form_data
  convert_file form m w = accept (handle_multipart_form_data form) m w

  -- `convertFileLegacy`; none is a request without a body.
  unfoldable pub convert_file_legacy : Option Upload → Machine → W → (Accepted × Machine) × W
  convert_file_legacy body m w = accept body m w

module _ {W : Type 0} (fs : FileSystem W) (files : Files W) where
  abbrev pub with_file : StatusResponse → Result FileFault String → StatusAnswer
  with_file r (err e) = not_found
  with_file r (ok text) = found_v1 r r.entry.file.retries text

  abbrev pub read_result : String → StatusResponse → W → Result FileFault String
  read_result id r w =
      let props = get_converted_file_name_and_path files.base_path id r.entry.file.target_format in
      read_from_file_sync fs props.file_path w

  -- Only version 1 reads the file, and only of a converted request.
  abbrev pub status_answer : Bool → String → Status → StatusResponse → W → StatusAnswer
  status_answer false id Status.converted r w = with_file r (read_result id r w)
  status_answer is_v2 id status r w = found r

  abbrev pub answer_for : Bool → String → Result ConversionFault StatusResponse → W → StatusAnswer
  answer_for is_v2 id (err e) w = not_found
  answer_for is_v2 id (ok r) w = status_answer is_v2 id r.entry.status r w

  -- `getConvertedFile`
  unfoldable pub get_converted_file : Bool → String → QueueState → W → StatusAnswer
  unfolding get_status_by_id get_converted_file_name_and_path
  get_converted_file is_v2 id q w = answer_for is_v2 id (get_status_by_id id q).0 w

  abbrev pub streamed : FileProps → Option ℕ → DownloadAnswer
  streamed props none = no_download
  streamed props (some size) =
      stream props.file_path (files.get_type props.file_path) size props.file_name

  abbrev pub download_answer : String → Status → LogEntry → W → DownloadAnswer
  download_answer id Status.converted entry w =
      let props = get_converted_file_name_and_path files.base_path id entry.file.target_format in
      streamed props (files.size props.file_path w)
  download_answer id status entry w = status_only id status

  abbrev pub download_for : String → Result ConversionFault StatusResponse → W → DownloadAnswer
  download_for id (err e) w = no_download
  download_for id (ok r) w = download_answer id r.entry.status r.entry w

  -- `getConvertedFileDownload`
  unfoldable pub get_converted_file_download : String → QueueState → W → DownloadAnswer
  unfolding get_status_by_id get_converted_file_name_and_path
  get_converted_file_download id q w = download_for id (get_status_by_id id q).0 w
