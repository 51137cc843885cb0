-- ===== src/Conversion/Wrappers/Unoconv/Lines.antt =====
-- packages/conversion-service/src/service/unoconv/unoconv.ts: one line of `unoconv --show`. The three
-- patterns are read as what their greedy `.*` takes, in a line without `\r` and the Unicode line ends,
-- which `.` does not match.
use Prim.Native.Char.{code}
use Prim.Native.String as Text
use dynamic_conversion_servi.Prelude.{ℕ, ◌==◌, String, Option, none, some, if◌then◌else◌}
use dynamic_conversion_servi.Docker.Names.{is_truthy}
use dynamic_conversion_servi.Conversion.Configuration.{trim_start, trim_end}
use dynamic_conversion_servi.Conversion.Requests.{without_dot}

-- The text in front of the last separator: `^(.*)-`.
abbrev in_front_of : ℕ → String → Option String → Option String
in_front_of sep (Text.◌∷◌ c s) (some front) = some (Text.◌∷◌ c front)
in_front_of sep (Text.◌∷◌ c s) none = if code c == sep then some Text.[] else none
in_front_of sep Text.[] found = none

unfoldable pub before_last : ℕ → String → Option String
before_last sep Text.[] = none
before_last sep (Text.◌∷◌ c s) = in_front_of sep (Text.◌∷◌ c s) (before_last sep s)

-- The text behind the first separator.
unfoldable pub after_first : ℕ → String → Option String
after_first sep Text.[] = none
after_first sep (Text.◌∷◌ c s) =
    let later = after_first sep s in if code c == sep then some s else later

-- `-(.*)\[` and `\[(.*)\]`: from the first of the one to the last of the other behind it
abbrev before_last_of : ℕ → Option String → Option String
before_last_of close none = none
before_last_of close (some s) = before_last close s

unfoldable pub between : ℕ → ℕ → String → Option String
unfolding before_last after_first
between open_at close s = before_last_of close (after_first open_at s)

unfoldable pub trim : String → String
unfolding trim_start trim_end
trim s = trim_end (trim_start s)

-- `returnMatchResultString`
abbrev pub non_empty : String → Option String
non_empty s = if is_truthy (some s) then some s else none

-- `Partial<IFileFormat>`
pub record LineFormat : Type 0 where
  pub description : Option String
  pub extension : Option String
  pub format : Option String

abbrev pub trimmed : Option String → Option String
trimmed none = none
trimmed (some s) = non_empty (trim s)

abbrev pub trimmed_extension : Option String → Option String
trimmed_extension none = none
trimmed_extension (some s) = non_empty (without_dot (trim s))

-- `handleFormatsLine`
unfoldable pub handle_formats_line : String → LineFormat
unfolding before_last between trim without_dot
handle_formats_line line = record {
  description = trimmed (between b'-' b'[' line);
  extension = trimmed_extension (between b'[' b']' line);
  format = trimmed (before_last b'-' line);
}
