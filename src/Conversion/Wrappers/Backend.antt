-- ===== src/Conversion/Wrappers/Backend.antt =====
-- packages/conversion-service: a conversion over the wrappers of this directory and the file access, which
-- are what the queue's `Backend` stands for.
use dynamic_conversion_servi.Prelude.{String, Bool, true, false, Option, none, some}
use dynamic_conversion_servi.Prelude.Action.{Result, ok, err}
use dynamic_conversion_servi.Conversion.{Status, Wrapper, ConversionFile, ConversionConfig}
use dynamic_conversion_servi.Conversion.Service.{Backend, ServiceState, wrap_conversion}
use dynamic_conversion_servi.Conversion.Life.{status_of}
use dynamic_conversion_servi.Conversion.FileIo.{FileSystem, delete_file}
use dynamic_conversion_servi.Conversion.Wrappers.Ffmpeg.{FfmpegApi}
use dynamic_conversion_servi.Conversion.Wrappers.Ffmpeg as Ffmpeg
use dynamic_conversion_servi.Conversion.Wrappers.ImageMagick.{GmApi}
use dynamic_conversion_servi.Conversion.Wrappers.ImageMagick as ImageMagick
use dynamic_conversion_servi.Conversion.Wrappers.Unoconv.Process.{
  ProcessApi, Target, target, rejected, awaited, convert_to_target, Conversion,
}

abbrev pub path_in : Target → Option String
path_in (target path) = some path
path_in rejected = none
path_in awaited = none

abbrev pub resolves : {E A : Type 0} → Result E A → Bool
resolves (ok a) = true
resolves (err e) = false

module _ {Codec Encoder Filter W : Type 0} (api : ProcessApi W) (fs : FileSystem W)
    (ffmpeg : FfmpegApi Codec Encoder Filter W) (gm : GmApi W) where
  -- `convert` of ConverterService, with the wrappers of `initializeConversionWrapperMap`
  unfoldable pub convert : Wrapper → ConversionFile → W → Option String × W
  unfolding Ffmpeg.convert_to_target ImageMagick.convert_to_target
  convert Wrapper.ffmpeg f w = Ffmpeg.convert_to_target ffmpeg f none w
  convert Wrapper.imagemagick f w = ImageMagick.convert_to_target gm f w
  convert Wrapper.unoconv f w =
      let (answer, w1) = convert_to_target api fs f w in (path_in answer, w1)

  abbrev pub wrappers : Backend W
  wrappers = record {
    convert_to_target = convert;
    delete_file = λ path w. let (r, w1) = delete_file fs (some path) w in (resolves r, w1);
  }

  -- The status of a file after its conversion.
  abbrev pub status_after : ConversionConfig → ConversionFile → ServiceState W → Option Status
  status_after config f s = status_of f.conversion_id (wrap_conversion wrappers config f s).1.queue
