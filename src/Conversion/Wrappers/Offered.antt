-- ===== src/Conversion/Wrappers/Offered.antt =====
-- packages/conversion-service/src/service/conversion/index.ts: `supportsConversion` and
-- `getSupportedConversionFormats` over the three wrappers of this directory.
use dynamic_conversion_servi.Prelude.{String, Bool, ◌||◌, List, [], ◌∷◌}
use dynamic_conversion_servi.Conversion.{Wrapper}
use dynamic_conversion_servi.Conversion.Wrappers.{Format, Promised, and_then}
use dynamic_conversion_servi.Conversion.Wrappers.Unoconv as Unoconv
use dynamic_conversion_servi.Conversion.Wrappers.Unoconv.{Programs}
use dynamic_conversion_servi.Conversion.Wrappers.Ffmpeg as Ffmpeg
use dynamic_conversion_servi.Conversion.Wrappers.Ffmpeg.{FfmpegApi}
use dynamic_conversion_servi.Conversion.Wrappers.ImageMagick as ImageMagick

module _ {Codec Encoder Filter W : Type 0} (programs : Programs W)
    (ffmpeg : FfmpegApi Codec Encoder Filter W) where
  -- `supportsConversion`: the wrappers are asked one after the other, and a rejection of one is passed on.
  abbrev any_of : Promised Bool → Promised Bool → Bool → Promised Bool
  any_of by_ffmpeg by_unoconv by_imagemagick =
      and_then by_ffmpeg (λ f. and_then by_unoconv (λ u. Promised.value (f || by_imagemagick || u)))

  unfoldable pub supports_conversion : String → String → W → Promised Bool × W
  supports_conversion source target w =
      let (by_ffmpeg, w1) = Ffmpeg.can_convert ffmpeg source target w in
      let (by_unoconv, w2) = Unoconv.can_convert programs source target w1 in
      (any_of by_ffmpeg by_unoconv (ImageMagick.can_convert source target), w2)

  -- `getSupportedConversionFormats` of a wrapper
  unfoldable pub formats_of : Wrapper → W → Promised (List Format) × W
  unfolding Ffmpeg.get_supported_conversion_formats Unoconv.get_supported_conversion_formats
  formats_of Wrapper.ffmpeg w = Ffmpeg.get_supported_conversion_formats ffmpeg w
  formats_of Wrapper.imagemagick w = (Promised.value ImageMagick.formats, w)
  formats_of Wrapper.unoconv w = Unoconv.get_supported_conversion_formats programs w

  -- `Promise.all`: a rejection settles it, whatever is still open.
  abbrev cons_promised : {A : Type 0} → Promised A → Promised (List A) → Promised (List A)
  cons_promised Promised.rejected rest = Promised.rejected
  cons_promised _ Promised.rejected = Promised.rejected
  cons_promised (Promised.value a) (Promised.value rest) = Promised.value (a ∷ rest)
  cons_promised _ _ = Promised.never

  unfoldable pub all_formats : List Wrapper → W → Promised (List (List Format)) × W
  unfolding formats_of
  all_formats [] w = (Promised.value [], w)
  all_formats (wrapper ∷ wrappers) w =
      let (formats, w1) = formats_of wrapper w in
      let (rest, w2) = all_formats wrappers w1 in (cons_promised formats rest, w2)

  -- `new Set(...totalFormats)`: the constructor takes one argument, the first list.
  abbrev pub first_list : List (List Format) → List Format
  first_list [] = []
  first_list (formats ∷ rest) = formats

  -- `getSupportedConversionFormats` of the service, for the keys of its `converterMap`
  unfoldable pub get_supported_conversion_formats : List Wrapper → W → Promised (List Format) × W
  unfolding all_formats
  get_supported_conversion_formats wrappers w =
      let (total_formats, w1) = all_formats wrappers w in
      (and_then total_formats (λ lists. Promised.value (first_list lists)), w1)
