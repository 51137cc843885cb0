-- ===== src/Conversion/Wrappers/Paths.antt =====
-- packages/conversion-service: where ImageMagick writes a result, and where the status handler looks for it.
use Prim.Native.Char.{Char, code}
use Prim.Native.String.{[], ◌∷◌}
use dynamic_conversion_servi.Prelude.{◌==◌, String, Bool, true, ◌&&◌, ◌||◌, leb, ◌≡◌}
use dynamic_conversion_servi.Conversion.Wrappers.ImageMagick.{replace}

-- The characters of a UUID.
abbrev pub is_uuid_char : Char → Bool
is_uuid_char c =
    (leb b'0' (code c) && leb (code c) b'9')
    || (leb b'a' (code c) && leb (code c) b'f')
    || code c == b'-'

abbrev pub is_uuid : String → Bool
is_uuid [] = true
is_uuid (c ∷ s) = is_uuid_char c && is_uuid s

-- A text in front of another, character by character.
abbrev glue : String → String → String
glue [] s = s
glue (c ∷ p) s = c ∷ glue p s

-- A source format that is met for the first time behind the dot.
abbrev IsMet : String → String → Type 0
IsMet source target =
    (replace source target ("." ∷ source) ≡ "." ∷ target)
    × ((c : Char) (s : String)
        → is_uuid_char c ≡ true
        → replace source target (c ∷ s) ≡ c ∷ replace source target s)
    × ((s : String)
        → replace source target (glue "output/" s) ≡ glue "output/" (replace source target s))
