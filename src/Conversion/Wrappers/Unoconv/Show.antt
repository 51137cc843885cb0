-- ===== src/Conversion/Wrappers/Unoconv/Show.antt =====
-- What `unoconv --show` writes: for each of the four sections the heading, an empty line, the formats and
-- an empty line.
use Prim.Native.String as Text
use Prim.Native.String.{◌∷◌}
use dynamic_conversion_servi.Prelude.{ℕ, suc, String, List, ◌++◌, map, ◌≡◌, ◌≢◌, false, Option, All}
use dynamic_conversion_servi.Prelude as Prelude
use dynamic_conversion_servi.Docker.Names.{concat}
use dynamic_conversion_servi.Conversion.Wrappers.Unoconv.{
  Section, heading, FileFormat, FormatList, Detected, resolved, not_detected,
}
use dynamic_conversion_servi.Conversion.Wrappers.Unoconv.Lines.{trim}
use dynamic_conversion_servi.Conversion.Wrappers.Unoconv.Texts.{has_code, spaces}

-- A format with the number of spaces that fill its column.
pub record Shown : Type 0 where
  pub format : String
  pub padding : ℕ
  pub description : String
  pub extension : String

pub record Listing : Type 0 where
  pub document : List Shown
  pub graphics : List Shown
  pub presentation : List Shown
  pub spreadsheet : List Shown

-- `  odt      - ODF Text Document [.odt]`
abbrev pub behind_dash : Shown → String
behind_dash f = " " ∷ concat f.description (" " ∷ "[" ∷ "." ∷ concat f.extension "]")

unfoldable pub show_line : Shown → String
show_line f = " " ∷ " " ∷ concat f.format (concat (spaces (suc f.padding)) ("-" ∷ behind_dash f))

abbrev pub show_section : Section → List Shown → List String
show_section section fs =
    Prelude.◌∷◌ (heading section)
      (Prelude.◌∷◌ Text.[] (map show_line fs ++ Prelude.◌∷◌ Text.[] Prelude.[]))

abbrev pub show_lines : Listing → List String
show_lines l =
    show_section Section.documents l.document
    ++ show_section Section.drawings l.graphics
    ++ show_section Section.presentations l.presentation
    ++ show_section Section.spreadsheets l.spreadsheet

-- Each line ends in `\n`.
abbrev pub unlines : List String → String
unlines Prelude.[] = Text.[]
unlines (Prelude.◌∷◌ line lines) = concat line ("\n" ∷ unlines lines)

abbrev pub show : Listing → String
show l = unlines (show_lines l)

-- The parts are not empty, have no space around them and hold no `-`, `[` or line end, of which JavaScript
-- knows four.
abbrev pub IsPart : String → Type 0
IsPart s =
    (s ≢ Text.[])
    × (trim s ≡ s)
    × (has_code b'-' s ≡ false)
    × (has_code b'[' s ≡ false)
    × (has_code b'\n' s ≡ false)
    × (has_code 13 s ≡ false)
    × (has_code 8232 s ≡ false)
    × (has_code 8233 s ≡ false)

abbrev pub IsShown : Shown → Type 0
IsShown f = IsPart f.format × IsPart f.description × IsPart f.extension

abbrev pub IsListing : Listing → Type 0
IsListing l =
    All IsShown l.document
    × All IsShown l.graphics
    × All IsShown l.presentation
    × All IsShown l.spreadsheet

-- All that is listed, in the order of the sections.
abbrev pub entries : Listing → List Shown
entries l = l.document ++ l.graphics ++ l.presentation ++ l.spreadsheet

-- What a listing with these entries and formats is detected as.
abbrev pub detected_as : List Shown → FormatList → Detected
detected_as Prelude.[] fs = not_detected
detected_as (Prelude.◌∷◌ e es) fs = resolved fs

-- The format that a shown one stands for.
abbrev pub file_format : (String → Option String) → Shown → FileFormat
file_format get_type f = record {
  description = f.description;
  extension = f.extension;
  format = f.format;
  mime = get_type f.extension;
}

abbrev pub format_list : (String → Option String) → Listing → FormatList
format_list get_type l = record {
  document = map (file_format get_type) l.document;
  graphics = map (file_format get_type) l.graphics;
  presentation = map (file_format get_type) l.presentation;
  spreadsheet = map (file_format get_type) l.spreadsheet;
}
