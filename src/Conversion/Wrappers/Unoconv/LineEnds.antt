-- ===== src/Conversion/Wrappers/Unoconv/LineEnds.antt =====
-- packages/conversion-service/src/service/unoconv/unoconv.ts: the lines that the program writes are the
-- lines that `stderr.split("\n")` gives.
use Prim.Native.String as Text
use dynamic_conversion_servi.Prelude.{
  suc, String, false, List, [], ◌∷◌, ◌++◌, map, ◌≡◌, refl, ap, ◌∙◌, All,
}
use dynamic_conversion_servi.Conversion.Configuration.{split}
use dynamic_conversion_servi.Conversion.Wrappers.Unoconv.{Section, heading}
use dynamic_conversion_servi.Conversion.Wrappers.Unoconv.Texts.{
  has_code, has_code-concat, split-concat, spaces,
}
use dynamic_conversion_servi.Conversion.Wrappers.Unoconv.Show.{
  Shown, Listing, show_line, show_section, show_lines, unlines, IsShown, IsListing,
}
use dynamic_conversion_servi.Conversion.Wrappers.Unoconv.LineLaws.{has_code-spaces}

-- No line holds a line end.
abbrev pub IsLine : String → Type 0
IsLine line = has_code b'\n' line ≡ false

-- Splitting at the line ends gives the lines and an empty last one.
pub split-unlines :
    (lines : List String) → All IsLine lines → split b'\n' (unlines lines) ≡ lines ++ Text.[] ∷ []
unfolding split
split-unlines [] h = refl
split-unlines (line ∷ lines) (h, hs) =
    split-concat b'\n' line "\n" (unlines lines) h refl
    ∙ ap (λ rest. line ∷ rest) (split-unlines lines hs)

All-append : (xs ys : List String) → All IsLine xs → All IsLine ys → All IsLine (xs ++ ys)
All-append [] ys h hs = hs
All-append (x ∷ xs) ys (h, hs) hys = (h, All-append xs ys hs hys)

show_line-IsLine : (f : Shown) → IsShown f → IsLine (show_line f)
unfolding show_line
show_line-IsLine f h =
    has_code-concat b'\n' f.format _ h.0.4
    ∙ has_code-concat b'\n' (spaces (suc f.padding)) _ (has_code-spaces b'\n' (suc f.padding) refl)
    ∙ has_code-concat b'\n' f.description _ h.1.4
    ∙ has_code-concat b'\n' f.extension _ h.2.4

map-IsLine : (es : List Shown) → All IsShown es → All IsLine (map show_line es)
map-IsLine [] h = tt
map-IsLine (e ∷ es) (h, hs) = (show_line-IsLine e h, map-IsLine es hs)

heading-IsLine : (section : Section) → IsLine (heading section)
unfolding heading
heading-IsLine Section.documents = refl
heading-IsLine Section.drawings = refl
heading-IsLine Section.presentations = refl
heading-IsLine Section.spreadsheets = refl

section-IsLine :
    (section : Section) (es : List Shown) → All IsShown es → All IsLine (show_section section es)
section-IsLine section es h = (
  heading-IsLine section,
  (refl, All-append (map show_line es) (Text.[] ∷ []) (map-IsLine es h) (refl, tt)),
)

pub lines-IsLine : (l : Listing) → IsListing l → All IsLine (show_lines l)
lines-IsLine l (hd, hg, hp, hs) =
    let documents = show_section Section.documents l.document in
    let drawings = show_section Section.drawings l.graphics in
    let presentations = show_section Section.presentations l.presentation in
    let spreadsheets = show_section Section.spreadsheets l.spreadsheet in
    All-append (documents ++ drawings ++ presentations) spreadsheets
      (All-append (documents ++ drawings) presentations
        (All-append documents drawings (section-IsLine Section.documents l.document hd)
          (section-IsLine Section.drawings l.graphics hg))
        (section-IsLine Section.presentations l.presentation hp))
      (section-IsLine Section.spreadsheets l.spreadsheet hs)
