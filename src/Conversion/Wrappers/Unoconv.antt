-- ===== src/Conversion/Wrappers/Unoconv.antt =====
-- packages/conversion-service/src/service/unoconv: `Unoconv`, which runs the program of that name, and
-- `UnoconvWrapper`. The options, `detectSupportedFormats` and `canConvert` are here. The program is the
-- record `Programs`, the `mime` package is its `get_type`.
pub mod Lines
pub mod Texts
pub mod Show
pub mod LineLaws
pub mod LineEnds
pub mod RoundTrip
pub mod Process
pub mod Endings
use dynamic_conversion_servi.Prelude.{
  String, Bool, true, false, ◌&&◌, not, Option, none, some, List, [], ◌∷◌, ◌++◌, map, str_eq,
  get_or, if◌then◌else◌,
}
use dynamic_conversion_servi.Docker.Names.{concat, is_truthy}
use dynamic_conversion_servi.Conversion.Configuration.{split}
use dynamic_conversion_servi.Conversion.Wrappers.{Format, has_both, Promised, promised_both}
use Lines.{LineFormat, handle_formats_line}

-- `IUnoconvOptions`
pub record Options : Type 0 where
  pub port : Option String
  pub unoconv_binary_path : Option String

-- `addOptions`
abbrev add_port : Option String → List String → List String
add_port none args = args
add_port (some p) args = if is_truthy (some p) then args ++ concat "-p " p ∷ [] else args

unfoldable pub add_options : Option Options → List String → List String
add_options none args = args
add_options (some options) args = add_port options.port args

-- `getBinary`, with `defaultBin`
unfoldable pub get_binary : Option Options → String
get_binary none = "unoconv"
get_binary (some options) = get_or options.unoconv_binary_path "unoconv"

-- `IFileFormat` and `IFormatList`
pub record FileFormat : Type 0 where
  pub description : String
  pub extension : String
  pub format : String
  pub mime : Option String

pub record FormatList : Type 0 where
  pub document : List FileFormat
  pub graphics : List FileFormat
  pub presentation : List FileFormat
  pub spreadsheet : List FileFormat

pub data Section : Type 0 where
  documents drawings presentations spreadsheets : Section

unfoldable pub heading : Section → String
heading Section.documents = "The following list of document formats are currently available:"
heading Section.drawings = "The following list of graphics formats are currently available:"
heading Section.presentations =
    "The following list of presentation formats are currently available:"
heading Section.spreadsheets = "The following list of spreadsheet formats are currently available:"

-- The chain of `line === "…"`
unfoldable pub section_of : String → Option Section
unfolding heading
section_of line =
    if str_eq line (heading Section.documents)
    then some Section.documents
    else if str_eq line (heading Section.drawings)
    then some Section.drawings
    else if str_eq line (heading Section.presentations)
    then some Section.presentations
    else if str_eq line (heading Section.spreadsheets)
    then some Section.spreadsheets
    else none

-- `detectedFormats[docType].push(…)`
unfoldable pub push : FileFormat → Section → FormatList → FormatList
push f Section.documents fs = record fs { document = fs.document ++ f ∷ [] }
push f Section.drawings fs = record fs { graphics = fs.graphics ++ f ∷ [] }
push f Section.presentations fs = record fs { presentation = fs.presentation ++ f ∷ [] }
push f Section.spreadsheets fs = record fs { spreadsheet = fs.spreadsheet ++ f ∷ [] }

abbrev pub no_formats : FormatList
no_formats = record { document = []; graphics = []; presentation = []; spreadsheet = [] }

-- `docType`, none for "", and the formats so far
pub record Detection : Type 0 where
  pub doc_type : Option Section
  pub formats : FormatList

-- `hasSufficientFormatsDetected`
abbrev has_no_elements : List FileFormat → Bool
has_no_elements [] = true
has_no_elements (f ∷ fs) = false

unfoldable pub has_sufficient_formats_detected : FormatList → Bool
has_sufficient_formats_detected fs = not (
    has_no_elements fs.document
    && has_no_elements fs.graphics
    && has_no_elements fs.presentation
    && has_no_elements fs.spreadsheet)

-- A throw ends the loop.
abbrev pub and_then : Option Detection → (Detection → Option Detection) → Option Detection
and_then none more = none
and_then (some d) more = more d

-- What `detectSupportedFormats` comes to; `uncaught` is a TypeError in the callback, which settles nothing.
pub data Detected : Type 0 where
  resolved : FormatList → Detected
  program_failed not_detected uncaught : Detected

-- `execFile`: what the program writes to stderr, or none for an error
pub record Programs (W : Type 0) : Type 0 where
  pub exec_file : String → List String → W → Option String × W
  pub get_type : String → Option String

module _ (get_type : String → Option String) where
  -- A line of a format: all three parts are there.
  abbrev pub format_of : Option String → Option String → Option String → Option FileFormat
  format_of (some d) (some e) (some f) =
      some (record { description = d; extension = e; format = f; mime = get_type e })
  format_of _ _ _ = none

  -- Into the section at hand; without one `detectedFormats[""]` is undefined.
  abbrev pushed : Option FileFormat → Option Section → FormatList → Option Detection
  pushed none section fs = some (record { doc_type = section; formats = fs })
  pushed (some f) none fs = none
  pushed (some f) (some section) fs =
      some (record { doc_type = some section; formats = push f section fs })

  abbrev entered : Option Section → LineFormat → Detection → Option Detection
  entered (some section) line d = some (record d { doc_type = some section })
  entered none line d =
      pushed (format_of line.description line.extension line.format) d.doc_type d.formats

  unfoldable pub read_line : String → Detection → Option Detection
  read_line line d = entered (section_of line) (handle_formats_line line) d

  -- `lines.forEach`
  unfoldable pub read_lines : List String → Detection → Option Detection
  read_lines [] d = some d
  read_lines (line ∷ lines) d = and_then (read_line line d) (read_lines lines)

abbrev pub settled : Option Detection → Detected
settled none = uncaught
settled (some d) =
    if has_sufficient_formats_detected d.formats then resolved d.formats else not_detected

module _ {W : Type 0} (programs : Programs W) where
  abbrev of_stderr : Option String → Detected
  of_stderr none = program_failed
  of_stderr (some text) = settled (
      read_lines programs.get_type (split b'\n' text)
        (record { doc_type = none; formats = no_formats }))

  -- `detectSupportedFormats`: the program writes the list to stderr.
  unfoldable pub detect_supported_formats : Option Options → W → Detected × W
  unfolding get_binary add_options
  detect_supported_formats options w =
      let (text, w1) =
        programs.exec_file (get_binary options) (add_options none ("--show" ∷ [])) w in
      (of_stderr text, w1)

  -- `transformUnoconvFormatToIFormat`
  abbrev pub to_format : FileFormat → Format
  to_format f = record { description = f.description; extension = f.extension }

  unfoldable pub all_formats : FormatList → List Format
  all_formats fs = map to_format (fs.document ++ fs.graphics ++ fs.presentation ++ fs.spreadsheet)

  abbrev pub listed : Detected → Promised (List Format)
  listed (resolved fs) = Promised.value (all_formats fs)
  listed program_failed = Promised.rejected
  listed not_detected = Promised.rejected
  listed uncaught = Promised.never

  -- `UnoconvWrapper.getSupportedConversionFormats`
  unfoldable pub get_supported_conversion_formats : W → Promised (List Format) × W
  unfolding all_formats
  get_supported_conversion_formats w =
      let (detected, w1) = detect_supported_formats none w in (listed detected, w1)

  -- `UnoconvWrapper.canConvert`
  unfoldable pub can_convert : String → String → W → Promised Bool × W
  unfolding get_supported_conversion_formats has_both
  can_convert source target w =
      let (formats, w1) = get_supported_conversion_formats w in
      (promised_both source target formats, w1)
