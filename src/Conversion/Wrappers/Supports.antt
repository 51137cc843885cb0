-- ===== src/Conversion/Wrappers/Supports.antt =====
-- packages/conversion-service: which conversions are accepted, in terms of what ffmpeg and unoconv list.
use dynamic_conversion_servi.Prelude.{
  String, Bool, true, false, ◌&&◌, ◌||◌, List, [], ◌∷◌, ◌++◌, map, Option, none, some, ◌≡◌, refl,
  ap, arith, str_eq,
}
use mathlib.Core.List.{map-append}
use dynamic_conversion_servi.Prelude.Dict.{Dict, has, lookup}
use dynamic_conversion_servi.Conversion.Wrappers.{Format, has_extension, has_both, Promised}
use dynamic_conversion_servi.Conversion.Wrappers.Unoconv.{
  Programs, FileFormat, FormatList, Detected, resolved, all_formats, to_format,
  has_sufficient_formats_detected, detect_supported_formats, get_binary,
}
use dynamic_conversion_servi.Conversion.Wrappers.Unoconv as Unoconv
use dynamic_conversion_servi.Conversion.Wrappers.Unoconv.Show.{
  Shown, Listing, IsListing, show, format_list, file_format,
}
use dynamic_conversion_servi.Conversion.Wrappers.Unoconv.RoundTrip.{detected_listing}
use dynamic_conversion_servi.Conversion.Wrappers.Ffmpeg.{
  FfmpegApi, FormatData, Named, ffmpeg_formats, name_capability, contains_capability,
}
use dynamic_conversion_servi.Conversion.Wrappers.Ffmpeg as Ffmpeg
use dynamic_conversion_servi.Conversion.Wrappers.ImageMagick as ImageMagick
use dynamic_conversion_servi.Conversion.Wrappers.Offered.{supports_conversion}

-- Whether a shown format has this extension.
abbrev pub shows : List Shown → String → Bool
shows [] extension = false
shows (f ∷ fs) extension = str_eq f.extension extension || shows fs extension

abbrev pub shown_formats : Listing → List Shown
shown_formats l = l.document ++ l.graphics ++ l.presentation ++ l.spreadsheet

shows-append :
    (fs gs : List Shown) (extension : String)
    → shows (fs ++ gs) extension ≡ (shows fs extension || shows gs extension)
shows-append [] gs extension = refl
shows-append (f ∷ fs) gs extension = ground (arith, shows-append fs gs extension)

has_extension-append :
    (fs gs : List Format) (extension : String)
    → has_extension (fs ++ gs) extension
      ≡ (has_extension fs extension || has_extension gs extension)
unfolding has_extension
has_extension-append [] gs extension = refl
has_extension-append (f ∷ fs) gs extension = ground (arith, has_extension-append fs gs extension)

module _ {W : Type 0} (programs : Programs W) where
  has_extension-map :
      (fs : List Shown) (extension : String)
      → has_extension (map (to_format programs) (map (file_format programs.get_type) fs)) extension
        ≡ shows fs extension
  unfolding has_extension
  has_extension-map [] extension = refl
  has_extension-map (f ∷ fs) extension =
      ap (λ b. str_eq f.extension extension || b) (has_extension-map fs extension)

  -- The formats of a listing are looked up by the extensions that it shows.
  has_extension-listing :
      (l : Listing) (extension : String)
      → has_extension (all_formats programs (format_list programs.get_type l)) extension
        ≡ shows (shown_formats l) extension
  unfolding all_formats
  has_extension-listing l extension =
      simp (map-append, has_extension-append, shows-append, has_extension-map)

has_extension-ffmpeg :
    (dict : Dict FormatData) (extension : String)
    → has_extension (ffmpeg_formats (name_capability dict)) extension ≡ has extension dict
unfolding has_extension ffmpeg_formats name_capability lookup
has_extension-ffmpeg [] extension = refl
has_extension-ffmpeg ((name, item) ∷ dict) extension =
    ground (arith, has_extension-ffmpeg dict extension)

-- What unoconv shows, if it runs at all, and what a conversion is then answered.
abbrev pub shown_text : Option Listing → Option String
shown_text none = none
shown_text (some l) = some (show l)

abbrev pub IsShowing : (String → Option String) → Option Listing → Type 0
IsShowing get_type none = Unit
IsShowing get_type (some l) =
    IsListing l × (has_sufficient_formats_detected (format_list get_type l) ≡ true)

abbrev pub both : (String → Bool) → String → String → Bool
both supports source target = supports source && supports target

abbrev pub accepted : Dict FormatData → Option Listing → String → String → Promised Bool
accepted dict none source target = Promised.rejected
accepted dict (some l) source target = Promised.value (
    both (λ f. has f dict) source target
    || both ImageMagick.is_supported_format source target
    || both (shows (shown_formats l)) source target)

module _ {Codec Encoder Filter W : Type 0} (programs : Programs W)
    (ffmpeg : FfmpegApi Codec Encoder Filter W) where
  by_ffmpeg :
      (dict : Dict FormatData) (w : W) (source target : String)
      → (ffmpeg.available_formats w).0 ≡ some dict
      → (Ffmpeg.can_convert ffmpeg source target w).0
        ≡ Promised.value (both (λ f. has f dict) source target)
  unfolding Ffmpeg.can_convert Ffmpeg.get_supported_conversion_formats has_both
  by_ffmpeg dict w source target h =
      rw (h, has_extension-ffmpeg dict source, has_extension-ffmpeg dict target) refl

  after_ffmpeg :
      (w w1 : W) (source target : String)
      → (ffmpeg.available_formats w).1 ≡ w1
      → (Ffmpeg.can_convert ffmpeg source target w).1 ≡ w1
  unfolding Ffmpeg.can_convert
  after_ffmpeg w w1 source target h = h

  by_unoconv :
      (l : Listing) (w : W) (source target : String)
      → (programs.exec_file "unoconv" ("--show" ∷ []) w).0 ≡ some (show l)
      → IsListing l
      → has_sufficient_formats_detected (format_list programs.get_type l) ≡ true
      → (Unoconv.can_convert programs source target w).0
        ≡ Promised.value (both (shows (shown_formats l)) source target)
  unfolding Unoconv.can_convert Unoconv.get_supported_conversion_formats has_both get_binary
  by_unoconv l w source target shown h enough =
      rw
        (
          detected_listing programs none w l h shown,
          enough,
          has_extension-listing programs l source,
          has_extension-listing programs l target,
        )
        refl

  without_unoconv :
      (w : W) (source target : String)
      → (programs.exec_file "unoconv" ("--show" ∷ []) w).0 ≡ none
      → (Unoconv.can_convert programs source target w).0 ≡ Promised.rejected
  unfolding Unoconv.can_convert detect_supported_formats
  without_unoconv w source target h = rw h refl

  -- When ffmpeg lists its formats, and unoconv shows a listing that holds a format and can be read, a
  -- conversion is supported exactly if both of its formats are names that ffmpeg lists, or both are
  -- formats of ImageMagick's file, or both are extensions that unoconv shows. If unoconv cannot be run,
  -- the question is rejected for all formats, those that ffmpeg lists included.
  pub supports_conversion-accepted :
      (dict : Dict FormatData) (listing : Option Listing) (w w1 : W) (source target : String)
      → ffmpeg.available_formats w ≡ (some dict, w1)
      → (programs.exec_file "unoconv" ("--show" ∷ []) w1).0 ≡ shown_text listing
      → IsShowing programs.get_type listing
      → (supports_conversion programs ffmpeg source target w).0
        ≡ accepted dict listing source target
  unfolding supports_conversion ImageMagick.can_convert
  supports_conversion-accepted dict none w w1 source target f shown h =
      rw
        (
          by_ffmpeg dict w source target (ap (λ p. p.0) f),
          after_ffmpeg w w1 source target (ap (λ p. p.1) f),
          without_unoconv w1 source target shown,
        )
        refl
  supports_conversion-accepted dict (some l) w w1 source target f shown (h, enough) =
      rw
        (
          by_ffmpeg dict w source target (ap (λ p. p.0) f),
          after_ffmpeg w w1 source target (ap (λ p. p.1) f),
          by_unoconv l w1 source target shown h enough,
        )
        refl
