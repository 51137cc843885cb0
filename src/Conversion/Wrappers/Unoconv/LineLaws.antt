-- ===== src/Conversion/Wrappers/Unoconv/LineLaws.antt =====
-- packages/conversion-service/src/service/unoconv/unoconv.ts: a line that shows a format is read back.
use Prim.Native.String as Text
use Prim.Native.String.{◌∷◌}
use text.Mathlib.TextLemmas.{append-nil}
use dynamic_conversion_servi.Prelude.{
  ℕ, suc, zero, String, ◌≡◌, ◌≢◌, refl, false, some, ◌∙◌, ap, arith, sym, ◌==◌,
}
use dynamic_conversion_servi.Docker.Names.{concat}
use dynamic_conversion_servi.Conversion.Configuration.{trim_start, trim_end}
use dynamic_conversion_servi.Conversion.Wrappers.Unoconv.Lines.{
  before_last, after_first, between, trim, non_empty, handle_formats_line,
}
use dynamic_conversion_servi.Conversion.Wrappers.Unoconv.Texts.{
  has_code, spaces, has_code-concat, before_last_absent, before_last-concat, after_first-concat,
  trim_end_idem, trim-concat, trim_behind_space,
}
use dynamic_conversion_servi.Conversion.Wrappers.Unoconv.Show.{
  Shown, behind_dash, show_line, IsShown,
}

pub has_code-spaces : (sep n : ℕ) → (32 == sep) ≡ false → has_code sep (spaces n) ≡ false
has_code-spaces sep zero h = refl
has_code-spaces sep (suc n) h = ground (arith, has_code-spaces sep n h)

non_empty_text : (s : String) → s ≢ Text.[] → non_empty s ≡ some s
non_empty_text Text.[] h = absurd (h refl)
non_empty_text (c ∷ s) h = refl

module _ (f : Shown) (shown : IsShown f) where
  abbrev bracketed : String
  bracketed = "." ∷ concat f.extension "]"

  abbrev described : String
  described = concat f.description (" " ∷ "[" ∷ bracketed)

  has_code-bracketed : has_code b'[' bracketed ≡ false
  has_code-bracketed = has_code-concat b'[' f.extension "]" shown.2.3

  dash_behind : has_code b'-' (behind_dash f) ≡ false
  dash_behind =
      has_code-concat b'-' f.description (" " ∷ "[" ∷ bracketed) shown.1.2
      ∙ has_code-concat b'-' f.extension "]" shown.2.2

  dash_last : before_last b'-' ("-" ∷ behind_dash f) ≡ some Text.[]
  unfolding before_last
  dash_last = rw (before_last_absent b'-' (behind_dash f) dash_behind) refl

  in_front_of_dash :
      before_last b'-' (show_line f) ≡ some (" " ∷ " " ∷ concat f.format (spaces (suc f.padding)))
  unfolding show_line before_last
  in_front_of_dash =
      rw
        (before_last-concat b'-' f.format _ _ (
          before_last-concat b'-' (spaces (suc f.padding)) ("-" ∷ behind_dash f) Text.[] dash_last
          ∙ ap some (append-nil (spaces (suc f.padding)))))
        refl

  bracket_last : before_last b'[' (" " ∷ "[" ∷ bracketed) ≡ some (spaces 1)
  unfolding before_last
  bracket_last = rw (before_last_absent b'[' bracketed has_code-bracketed) refl

  dash_first : after_first b'-' (show_line f) ≡ some (behind_dash f)
  unfolding show_line after_first
  dash_first =
      after_first-concat b'-' f.format _ shown.0.2
      ∙ after_first-concat b'-' (spaces (suc f.padding)) _
          (has_code-spaces b'-' (suc f.padding) refl)

  between_dash_and_bracket :
      between b'-' b'[' (show_line f) ≡ some (" " ∷ concat f.description (spaces 1))
  unfolding between before_last
  between_dash_and_bracket =
      rw (dash_first, before_last-concat b'[' f.description _ _ bracket_last) refl

  bracket_first : after_first b'[' (show_line f) ≡ some bracketed
  unfolding show_line after_first
  bracket_first =
      after_first-concat b'[' f.format _ shown.0.3
      ∙ after_first-concat b'[' (spaces (suc f.padding)) _
          (has_code-spaces b'[' (suc f.padding) refl)
      ∙ after_first-concat b'[' f.description _ shown.1.3

  between_brackets : between b'[' b']' (show_line f) ≡ some ("." ∷ f.extension)
  unfolding between before_last
  between_brackets =
      rw
        (
          bracket_first,
          before_last-concat b']' f.extension "]" Text.[] refl,
          append-nil f.extension,
        )
        refl

  end_trimmed : trim_end f.extension ≡ f.extension
  unfolding trim
  end_trimmed = ap trim_end (sym shown.2.1) ∙ trim_end_idem (trim_start f.extension) ∙ shown.2.1

  -- A line that shows a format is read back as its three parts.
  pub handle_formats_line-show_line : handle_formats_line (show_line f) ≡ record {
    description = some f.description;
    extension = some f.extension;
    format = some f.format;
  }
  unfolding handle_formats_line
  handle_formats_line-show_line =
      rw
        (
          in_front_of_dash,
          between_dash_and_bracket,
          between_brackets,
          end_trimmed,
          trim_behind_space (concat f.description (spaces 1)),
          trim_behind_space (" " ∷ concat f.format (spaces (suc f.padding))),
          trim_behind_space (concat f.format (spaces (suc f.padding))),
          trim-concat f.description 1,
          trim-concat f.format (suc f.padding),
          shown.0.1,
          shown.1.1,
          non_empty_text f.format shown.0.0,
          non_empty_text f.description shown.1.0,
          non_empty_text f.extension shown.2.0,
        )
        refl
