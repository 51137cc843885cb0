-- ===== src/Conversion/Wrappers/Tests.antt =====
-- Wrappers of programs that list a few formats, and conversions by them.

use dynamic_conversion_servi.Prelude.{
  ℕ, suc, true, false, none, some, List, [], ◌∷◌, ◌++◌, ◌≡◌, ◌↔◌, refl,
}
use dynamic_conversion_servi.Prelude.Dict.{Dict}
use dynamic_conversion_servi.Docker.Names.{concat}
use dynamic_conversion_servi.Conversion.{ConversionFile, Wrapper, Status}
use dynamic_conversion_servi.Conversion.Configuration.{split}
use dynamic_conversion_servi.Conversion.FileIo.{FileSystem}
use dynamic_conversion_servi.Conversion.Requests.{conversion_file}
use dynamic_conversion_servi.Conversion.Wrappers.{Promised}
use dynamic_conversion_servi.Conversion.Wrappers.Unoconv.{
  Programs, uncaught, detect_supported_formats, has_sufficient_formats_detected, read_lines,
  read_line, section_of, get_binary,
}
use dynamic_conversion_servi.Conversion.Wrappers.Unoconv.Lines.{handle_formats_line, trim}
use dynamic_conversion_servi.Conversion.Wrappers.Unoconv.Show.{
  Shown, Listing, IsShown, IsListing, show, show_line, format_list, entries, detected_as,
}
use dynamic_conversion_servi.Conversion.Wrappers.Unoconv.RoundTrip.{detect_supported_formats-show}
use dynamic_conversion_servi.Conversion.Wrappers.Unoconv.Process.{
  ProcessEvent, ProcessApi, joined, target, convert_to_target, convert, race, output,
}
use dynamic_conversion_servi.Conversion.Wrappers.Unoconv.Endings.{
  stdout_of, stderr_of, target_path, convert_to_target_iff,
}
use dynamic_conversion_servi.Conversion.Wrappers.Ffmpeg.{FfmpegApi, FormatData}
use dynamic_conversion_servi.Conversion.Wrappers.ImageMagick as ImageMagick
use dynamic_conversion_servi.Conversion.Wrappers.Offered as Offered
use dynamic_conversion_servi.Conversion.Wrappers.Supports.{accepted, supports_conversion-accepted}
use dynamic_conversion_servi.Conversion.Service.{ServiceState}

abbrev odt : Shown
odt = record { format = "odt"; padding = 5; description = "ODF Text Document"; extension = "odt" }

abbrev pdf : Shown
pdf = record {
  format = "pdf";
  padding = 5;
  description = "Portable Document Format";
  extension = "pdf";
}

abbrev listing : Listing
listing = record { document = odt ∷ pdf ∷ []; graphics = []; presentation = []; spreadsheet = [] }

-- The line as unoconv prints it.
odt_line : show_line odt ≡ "  odt      - ODF Text Document [.odt]"
unfolding show_line
odt_line = refl

odt-IsShown : IsShown odt
unfolding trim
odt-IsShown = (
  (cc, refl, refl, refl, refl, refl, refl, refl),
  (cc, refl, refl, refl, refl, refl, refl, refl),
  (cc, refl, refl, refl, refl, refl, refl, refl),
)

pdf-IsShown : IsShown pdf
unfolding trim
pdf-IsShown = (
  (cc, refl, refl, refl, refl, refl, refl, refl),
  (cc, refl, refl, refl, refl, refl, refl, refl),
  (cc, refl, refl, refl, refl, refl, refl, refl),
)

listing-IsListing : IsListing listing
listing-IsListing = ((odt-IsShown, (pdf-IsShown, tt)), tt, tt, tt)

-- The world counts the programs that ran.
abbrev programs : Programs ℕ
programs = record {
  exec_file = λ binary args n. (some (show listing), suc n);
  get_type = λ extension. none;
}

detect_supported_formats-show_example :
    (detect_supported_formats programs none 0).0
    ≡ detected_as (entries listing) (format_list programs.get_type listing)
unfolding get_binary
detect_supported_formats-show_example =
    detect_supported_formats-show programs none 0 listing listing-IsListing refl

-- A description with a dash: the text up to its last dash is taken for the format.
dash_in_description : handle_formats_line "  csv      - Text - CSV [.csv]" ≡ record {
  description = some "Text - CSV";
  extension = some "csv";
  format = some "csv      - Text";
}
unfolding handle_formats_line
dash_in_description = refl

-- A format in front of the first heading is a TypeError in the callback.
no_heading_first :
    (detect_supported_formats
      (record programs { exec_file = λ binary args n. (some "  odt - Text [.odt]\n", n) })
      none
      0).0
    ≡ uncaught
unfolding detect_supported_formats read_lines read_line section_of handle_formats_line split
no_heading_first = refl

abbrev ffmpeg_list : Dict FormatData
ffmpeg_list =
    ("mp3", record { can_demux = true; can_mux = true; description = "MP3" })
    ∷ ("wav", record { can_demux = true; can_mux = true; description = "WAV" })
    ∷ []

abbrev ffmpeg : FfmpegApi (Unit {0}) (Unit {0}) (Unit {0}) ℕ
ffmpeg = record {
  available_codecs = λ n. (none, n);
  available_encoders = λ n. (none, n);
  available_filters = λ n. (none, n);
  available_formats = λ n. (some ffmpeg_list, suc n);
  run = λ input options path n. (true, suc n);
  join = λ a b. concat a b;
  base_path = "/srv/";
}

supports_conversion-accepted_example :
    (Offered.supports_conversion programs ffmpeg "odt" "pdf" 0).0
    ≡ accepted ffmpeg_list (some listing) "odt" "pdf"
unfolding has_sufficient_formats_detected
supports_conversion-accepted_example =
    supports_conversion-accepted programs ffmpeg ffmpeg_list (some listing) 0 1 "odt" "pdf" refl
      refl (listing-IsListing, refl)

-- Of the formats of three wrappers the client is told those of the first one.
only_the_first :
    (Offered.get_supported_conversion_formats programs ffmpeg
      (Wrapper.imagemagick ∷ Wrapper.ffmpeg ∷ [])
      0).0
    ≡ Promised.value ImageMagick.formats
unfolding Offered.get_supported_conversion_formats
only_the_first = refl

abbrev fs : FileSystem ℕ
fs = record {
  exists = λ path n. true;
  stat_is_directory = λ path n. false;
  stat_is_file = λ path n. true;
  read_directory = λ path n. [];
  read_file = λ path n. "contents";
  unlink = λ path n. (true, suc n);
  remove_directory = λ path n. (true, suc n);
  make_directory = λ path n. (true, suc n);
  write_file = λ path text n. (true, suc n);
  resolve_path = λ path. path;
}

abbrev file : ConversionFile
file = conversion_file "a1" "odt" "pdf"

abbrev ran : List ProcessEvent
ran = ProcessEvent.stdout_data "%PDF" ∷ ProcessEvent.stdout_data "-1.7" ∷ []

abbrev late : List ProcessEvent
late = ProcessEvent.stdout_data "rest" ∷ []

abbrev api : ProcessApi ℕ
api = record {
  spawn = λ binary args n. (("17", ran ++ ProcessEvent.exit ∷ late), suc n);
  exec = λ command n. (record { error = none; stdout = ""; stderr = "" }, suc n);
}

convert_to_target_iff_run :
    ((convert_to_target api fs file 0).0 ≡ target (target_path api fs file)) ↔ (
      (true ≡ true)
      × (stderr_of ran ≡ [])
      × ((fs.write_file (target_path api fs file) (joined (stdout_of ran)) 1).0 ≡ true))
convert_to_target_iff_run =
    convert_to_target_iff api fs file "17" ran late true 0 1 refl ((cc, cc), ((cc, cc), tt))

-- What comes on stdout behind the `exit` event is not in the result.
output_after_exit : convert api "input/a1.odt" "pdf" none 0 ≡ (output "%PDF-1.7", 1)
unfolding convert race
output_after_exit = refl

-- A source format that occurs in the directory's name: the directory is renamed instead.
renamed_directory :
    ImageMagick.target_path (conversion_file "1b9d-ef" "put" "pdf") ≡ "outpdf/1b9d-ef.put"
unfolding ImageMagick.target_path
renamed_directory = refl

abbrev gm : ImageMagick.GmApi ℕ
gm = record { write = λ input output_path n. (true, suc n); resolve = λ path. path }

abbrev file_logged : ServiceState ℕ
file_logged = record {
  queue = record {
    conv_log = ("a1", record { file = file; status = Status.processing }) ∷ [];
    conversion = [];
    currently_converting = some file;
    is_converting = true;
  };
  world = 0;
}

-- ImageMagick, run in the base path.
abbrev gm_in_srv : ImageMagick.GmApi ℕ
gm_in_srv = record gm { resolve = λ path. concat "/srv/" path }
