-- ===== src/Redis/Rest/Tests.antt =====
-- Requests to the redis service of the tests.
use dynamic_conversion_servi.Prelude.{true, false, not, ◌&&◌, none, some, ◌≡◌, ◌↔◌, ◌⊎◌, refl}
use dynamic_conversion_servi.Redis.Request.{RequestBody, ConversionRequest}
use dynamic_conversion_servi.Redis.Tests.{Messages, environment, config, service}
use dynamic_conversion_servi.Redis.Formats.{get_ext, get_ext_from_format}
use dynamic_conversion_servi.Redis.Wrapper.{send_message, get_pending_messages_count}
use dynamic_conversion_servi.Redis.Service.{
  add_request_to_queue, get_pending_request_count, get_conversion_result,
}
use dynamic_conversion_servi.Redis.Rest.{
  Files, found, not_found, convert_file, get_converted_file, is_converted, output_file, result_name,
}
use dynamic_conversion_servi.Redis.Rest.Laws.{waiting_body, accepted_is_found, not_found_iff}

abbrev files : Files Messages
files = record {
  uuid = λ w. ("r7", w);
  write_to_file = λ path file w. (true, w);
  read_file = λ path w. (some "contents", w);
  stat = λ path w. (some 8, w);
  get_type = λ path. "application/pdf";
}

abbrev form : RequestBody
form = record {
  file = "text";
  filename = "a.docx";
  original_format = some ".docx";
  target_format = "pdf";
}

accepted_is_found_example :
    let t = (convert_file environment config files (some form) service).1 in
    get_converted_file environment config files false "r7" t ≡ (found (waiting_body "r7" form), t)
unfolding convert_file get_ext get_ext_from_format add_request_to_queue send_message
    get_pending_request_count get_pending_messages_count
accepted_is_found_example = accepted_is_found environment config files form false "r7" service refl

not_found_iff_example :
    ((get_converted_file environment config files false "r9" service).0 ≡ not_found) ↔ (
      (get_conversion_result "r9" service ≡ none)
      ⊎ ((r : ConversionRequest) × (get_conversion_result "r9" service ≡ some r)
          × ((is_converted r.conversion_status && not false) ≡ true)
          × ((files.read_file (output_file "r9" r.conversion_request_body) service.world).0
              ≡ none)))
not_found_iff_example = not_found_iff environment config files false "r9" service

-- The name of a result: the format of the form has no dot, so the dot is doubled.
doubled_dot : result_name (record form { original_format = some "docx" }) ≡ "a..pdf"
unfolding result_name
doubled_dot = refl
