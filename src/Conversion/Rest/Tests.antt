-- ===== src/Conversion/Rest/Tests.antt =====
-- A form that is sent to a conversion service without requests.
use dynamic_conversion_servi.Prelude.{ℕ, suc, true, false, some, none, [], ◌≡◌, refl}
use dynamic_conversion_servi.Prelude.Dict.{lookup}
use dynamic_conversion_servi.Prelude.Action.{ok, err}
use dynamic_conversion_servi.Conversion.Tests.{config}
use dynamic_conversion_servi.Conversion.Events.{initial}
use dynamic_conversion_servi.Conversion.FileIo.{
  FileSystem, delete_file, write_to_file, create_directory_if_not_present, system_error,
}
use dynamic_conversion_servi.Conversion.Requests.{Intake, process_conversion_request}
use dynamic_conversion_servi.Conversion.Rest.{
  Form, Files, convert_file, get_converted_file, not_found, internal_server_error,
}
use dynamic_conversion_servi.Conversion.Rest.Laws.{IsFound, accepted_is_pending}

abbrev intake : Intake ℕ
intake = record {
  can_convert = λ wrapper source target n. (true, n);
  uuid = λ n. ("1b9d", suc n);
  write_to_file = λ path content n. (true, suc n);
}

-- A disk on which nothing can be changed.
abbrev read_only : FileSystem ℕ
read_only = record {
  exists = λ path n. true;
  stat_is_directory = λ path n. false;
  stat_is_file = λ path n. true;
  read_directory = λ path n. [];
  read_file = λ path n. "contents";
  unlink = λ path n. (false, n);
  remove_directory = λ path n. (false, n);
  make_directory = λ path n. (false, n);
  write_file = λ path text n. (false, n);
  resolve_path = λ path. path;
}

abbrev files : Files ℕ
files = record { size = λ path n. none; get_type = λ path. "application/pdf"; base_path = "/srv/" }

abbrev form : Form
form = record {
  failed = false;
  original_format = some ".odt";
  target_format = ".pdf";
  file = some ("text", "a.odt");
}

accepted_is_pending_example :
    IsFound intake config read_only files false 9
      (convert_file intake config form initial 0).0.1.queue
      form
      "1b9d"
unfolding convert_file process_conversion_request
accepted_is_pending_example =
    accepted_is_pending intake config read_only files form initial 0 "1b9d" refl false 9

-- A form without a file
no_file :
    (convert_file intake config (record form { file = none }) initial 0).0.0 ≡ internal_server_error
unfolding convert_file
no_file = refl

unknown_id : get_converted_file read_only files false "2c" initial.queue 0 ≡ not_found
unfolding get_converted_file lookup
unknown_id = refl

-- The deletion of a file is reported as done although it fails.
failing_deletion : delete_file read_only (some "input/a.odt") 0 ≡ (ok tt, 0)
unfolding delete_file
failing_deletion = refl

failing_write : write_to_file read_only "output/a.pdf" "text" 0 ≡ (err system_error, 0)
unfolding write_to_file
failing_write = refl

-- So is the creation of a directory.
failing_directory :
    create_directory_if_not_present (record read_only { exists = λ path n. false }) "input" 0
    ≡ (ok "Created", 0)
unfolding create_directory_if_not_present
failing_directory = refl
