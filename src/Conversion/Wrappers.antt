-- ===== src/Conversion/Wrappers.antt =====
-- packages/conversion-service/src/service/{unoconv,ffmpeg,imagemagick}: the three wrappers, which of the
-- formats they can convert, and what a conversion writes where. What all three share: the formats that
-- are offered to clients and the look-up of an extension.
pub mod Unoconv
pub mod Ffmpeg
pub mod ImageMagick
pub mod Offered
pub mod Supports
pub mod Paths
pub mod Backend
pub mod Tests
use dynamic_conversion_servi.Prelude.{String, Bool, false, ◌||◌, ◌&&◌, List, [], ◌∷◌, str_eq}

-- `IFormat`
pub record Format : Type 0 where
  pub description : String
  pub extension : String

-- `formats.find(format => format.extension === extension) !== undefined`
unfoldable pub has_extension : List Format → String → Bool
has_extension [] extension = false
has_extension (f ∷ fs) extension = str_eq f.extension extension || has_extension fs extension

-- Both formats of a conversion are looked up in one list.
unfoldable pub has_both : List Format → String → String → Bool
has_both formats source target = has_extension formats source && has_extension formats target

-- What a wrapper's promise comes to: its value, a rejection, or it never settles.
pub data Promised (A : Type 0) : Type 0 where
  value : A → Promised A
  rejected never : Promised A

-- `await`
abbrev pub and_then : {A B : Type 0} → Promised A → (A → Promised B) → Promised B
and_then (Promised.value a) next = next a
and_then Promised.rejected next = Promised.rejected
and_then Promised.never next = Promised.never

-- `const formats = await …`, then the test of both
abbrev pub promised_both : String → String → Promised (List Format) → Promised Bool
promised_both source target formats =
    and_then formats (λ fs. Promised.value (has_both fs source target))
