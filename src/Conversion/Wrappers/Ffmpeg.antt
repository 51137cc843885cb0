-- ===== src/Conversion/Wrappers/Ffmpeg.antt =====
-- packages/conversion-service/src/service/ffmpeg and service/capabilities: `FFmpegWrapper` and
-- `CapabilityService`. The fluent-ffmpeg package and `path.join` are the record `FfmpegApi`; the data of a
-- codec, an encoder and a filter is a type of its own.
use dynamic_conversion_servi.Prelude.{
  String, Bool, true, false, ◌&&◌, ◌||◌, Option, none, some, List, [], ◌∷◌, str_eq,
}
use dynamic_conversion_servi.Prelude.Dict.{Dict}
use dynamic_conversion_servi.Docker.Names.{concat}
use dynamic_conversion_servi.Conversion.{ConversionFile}
use dynamic_conversion_servi.Conversion.Wrappers.{Format, Promised, and_then, promised_both}

-- `IFormatData`
pub record FormatData : Type 0 where
  pub can_demux : Bool
  pub can_mux : Bool
  pub description : String

-- `IFfmpegOptions`, of which both are lists of options
pub record FfmpegOptions : Type 0 where
  pub encoder : Option (List String)
  pub filter : Option (List String)

-- The callbacks of the four lists get an error, none, or the capabilities by name.
pub record FfmpegApi (Codec Encoder Filter W : Type 0) : Type 0 where
  pub available_codecs : W → Option (Dict Codec) × W
  pub available_encoders : W → Option (Dict Encoder) × W
  pub available_filters : W → Option (Dict Filter) × W
  pub available_formats : W → Option (Dict FormatData) × W
  -- `Ffmpeg(input)` with options, saved to a path and run: whether no call throws
  pub run : String → List (List String) → String → W → Bool × W
  pub join : String → String → String
  pub base_path : String

-- `{ ...currentItem, name: key }`
pub record Named (D : Type 0) : Type 0 where
  pub item : D
  pub name : String

module _ {D : Type 0} where
  -- `nameCapability`
  unfoldable pub name_capability : Dict D → List (Named D)
  name_capability [] = []
  name_capability ((key, item) ∷ rest) = record { item = item; name = key } ∷ name_capability rest

  -- `containsCapability`
  unfoldable pub contains_capability : List (Named D) → String → Bool
  contains_capability [] capability = false
  contains_capability (cap ∷ caps) capability =
      str_eq cap.name capability || contains_capability caps capability

  abbrev pub named : Option (Dict D) → Promised (List (Named D))
  named none = Promised.rejected
  named (some dict) = Promised.value (name_capability dict)

-- `getAvailableCodecs`, `getAvailableEncoders`, `getAvailableFilters` and `getAvailableFormats`
module _ {D W : Type 0} where
  unfoldable pub get_available : (W → Option (Dict D) × W) → W → Promised (List (Named D)) × W
  unfolding name_capability
  get_available list w = let (dict, w1) = list w in (named dict, w1)

-- `formats.map(…)`
unfoldable pub ffmpeg_formats : List (Named FormatData) → List Format
ffmpeg_formats [] = []
ffmpeg_formats (f ∷ fs) =
    record { description = f.item.description; extension = f.name } ∷ ffmpeg_formats fs

-- `ffmpegCommand.addOptions(…)` for a list that is given
abbrev added : Option (List String) → List (List String) → List (List String)
added none options = options
added (some more) options = more ∷ options

-- `IFFmpegCapabilities`
pub record Capabilities (Codec Encoder Filter : Type 0) : Type 0 where
  pub codecs : List (Named Codec)
  pub encoders : List (Named Encoder)
  pub filters : List (Named Filter)
  pub formats : List (Named FormatData)

module _ {Codec Encoder Filter W : Type 0} (api : FfmpegApi Codec Encoder Filter W) where
  -- `getAllCapabilities`: the lists are asked for in turn, until one is rejected.
  unfoldable pub get_all_capabilities : W → Promised (Capabilities Codec Encoder Filter)
  unfolding get_available
  get_all_capabilities w =
      let (codecs, w1) = get_available api.available_codecs w in
      let (encoders, w2) = get_available api.available_encoders w1 in
      let (formats, w3) = get_available api.available_formats w2 in
      let (filters, w4) = get_available api.available_filters w3 in
      and_then codecs (λ c. and_then encoders (λ e. and_then formats (λ fo.
        and_then filters (λ fi.
          Promised.value (record { codecs = c; encoders = e; filters = fi; formats = fo })))))

  -- `CapabilityService.supportsConversion`
  abbrev pub contains_both : String → String → List (Named FormatData) → Promised Bool
  contains_both source target formats =
      Promised.value (contains_capability formats source && contains_capability formats target)

  unfoldable pub supports_conversion : String → String → W → Promised Bool × W
  unfolding get_available contains_capability
  supports_conversion source target w =
      let (formats, w1) = get_available api.available_formats w in
      (and_then formats (contains_both source target), w1)

  -- `getSupportedConversionFormats` and `canConvert`
  unfoldable pub get_supported_conversion_formats : W → Promised (List Format) × W
  unfolding get_available ffmpeg_formats
  get_supported_conversion_formats w =
      let (formats, w1) = get_available api.available_formats w in
      (and_then formats (λ fs. Promised.value (ffmpeg_formats fs)), w1)

  unfoldable pub can_convert : String → String → W → Promised Bool × W
  unfolding get_supported_conversion_formats
  can_convert source target w =
      let (formats, w1) = get_supported_conversion_formats w in
      (promised_both source target formats, w1)

  abbrev pub output_file : ConversionFile → String
  output_file f =
      concat (api.join api.base_path "output")
        (concat "/" (concat f.conversion_id (concat "." f.target_format)))

  abbrev pub resolved_after : String → Bool × W → Option String × W
  resolved_after path (true, w) = (some path, w)
  resolved_after path (false, w) = (none, w)

  abbrev options_of : Option FfmpegOptions → List (List String)
  options_of none = []
  options_of (some options) = added options.filter (added options.encoder [])

  -- `convertToTarget`: the path of the result, or none when it rejects. It does not wait for ffmpeg.
  unfoldable pub convert_to_target : ConversionFile → Option FfmpegOptions → W → Option String × W
  convert_to_target f options w =
      resolved_after (output_file f)
        (api.run (api.join api.base_path f.path) (options_of options) (output_file f) w)
