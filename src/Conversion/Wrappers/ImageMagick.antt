-- ===== src/Conversion/Wrappers/ImageMagick.antt =====
-- packages/conversion-service/src/service/imagemagick: `ImageMagickWrapper` and `ImageMagick`, with the
-- formats of image-magick-formats.json. The gm package and `path.resolve` are the record `GmApi`.
use Prim.Native.String as Text
use dynamic_conversion_servi.Prelude.{
  String, Bool, true, false, ◌&&◌, Option, none, some, List, [], ◌∷◌,
}
use dynamic_conversion_servi.Docker.Names.{concat}
use dynamic_conversion_servi.Conversion.{ConversionFile}
use dynamic_conversion_servi.Conversion.Configuration.RuleShape.{after}
use dynamic_conversion_servi.Conversion.Wrappers.{Format, has_extension}

pub record GmApi (W : Type 0) : Type 0 where
  -- `imagemagick(input).write(output, …)`: whether there was no error
  pub write : String → String → W → Bool × W
  pub resolve : String → String

-- image-magick-formats.json
abbrev pub formats : List Format
formats =
    record { extension = "jpg"; description = "lossy image conversion format (.jpg)" }
    ∷ record { extension = "jpeg"; description = "lossy image conversion format (.jpeg)" }
    ∷ record { extension = "png"; description = "protable network graphic (.png)" }
    ∷ record { extension = "pdf"; description = "portable document format (.pdf)" }
    ∷ []

-- `text.replace(pattern, by)`: the first occurrence. In JavaScript a `$` in `by` may stand for
-- something else: the model agrees for a `by` without one.
abbrev pub replaced : String → Option String → String → String
replaced by none otherwise = otherwise
replaced by (some rest) otherwise = concat by rest

unfoldable pub replace : String → String → String → String
unfolding after
replace pattern by Text.[] = replaced by (after pattern Text.[]) Text.[]
replace pattern by (Text.◌∷◌ c s) =
    let later = replace pattern by s in
    replaced by (after pattern (Text.◌∷◌ c s)) (Text.◌∷◌ c later)

-- `isSupportedFormat` and `canConvert`
unfoldable pub is_supported_format : String → Bool
unfolding has_extension
is_supported_format format = has_extension formats format

unfoldable pub can_convert : String → String → Bool
unfolding is_supported_format
can_convert source target = is_supported_format source && is_supported_format target

unfoldable pub target_path : ConversionFile → String
unfolding replace
target_path f = replace f.source_format f.target_format (replace "input" "output" f.path)

module _ {W : Type 0} (api : GmApi W) where
  -- `writeOutput`
  abbrev pub write_output : String → String → W → Option String × W
  write_output input output w = settled (api.write input output w)
    where
      settled : Bool × W → Option String × W
      settled (true, w1) = (some output, w1)
      settled (false, w1) = (none, w1)

  -- `ImageMagick.convert`
  unfoldable pub convert : String → String → W → Option String × W
  convert source target w = write_output (api.resolve source) (api.resolve target) w

  -- `ImageMagickWrapper.convertToTarget`: the path of the result, or none when it rejects
  unfoldable pub convert_to_target : ConversionFile → W → Option String × W
  unfolding convert target_path
  convert_to_target f w = convert f.path (target_path f) w
