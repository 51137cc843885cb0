-- ===== src/Conversion/Requests.antt =====
-- packages/conversion-service/src/service/conversion/index.ts: `processConversionRequest`,
-- `supportsConversion` and `getConversionQueueStatus`. What a wrapper converts, `uuid` and
-- `writeToFile` are the record `Intake`.
use Prim.Native.Char.{code}
use Prim.Native.String as Text
use dynamic_conversion_servi.Prelude.{
  ℕ, suc, ◌==◌, String, Bool, true, false, ◌||◌, Option, List, [], ◌∷◌, length, str_eq, get_or,
  if◌then◌else◌,
}
use dynamic_conversion_servi.Prelude.Int.{ℤ, pos, negsuc}
use dynamic_conversion_servi.Prelude.Dict.{Dict}
use dynamic_conversion_servi.Docker.Names.{concat}
use dynamic_conversion_servi.Conversion.{
  Status, Wrapper, ConversionFile, LogEntry, QueueState, ConversionConfig,
}
use dynamic_conversion_servi.Conversion.Events.{Machine, submit}

pub record Intake (W : Type 0) : Type 0 where
  pub can_convert : Wrapper → String → String → W → Bool × W
  pub uuid : W → String × W
  pub write_to_file : String → String → W → Bool × W

-- `IConversionRequestBody`
pub record Upload : Type 0 where
  pub file : String
  pub filename : String
  pub original_format : Option String
  pub target_format : String

-- The response, or what is thrown.
pub data Processed : Type 0 where
  processing : String → Processed
  unsupported_conversion_format not_written : Processed

-- `text.replace(/\./, "")`: the first dot
unfoldable pub without_dot : String → String
without_dot Text.[] = Text.[]
without_dot (Text.◌∷◌ c s) =
    let rest = without_dot s in if code c == b'.' then s else Text.◌∷◌ c rest

-- `transformRequestBodyToConversionFile`
abbrev pub conversion_file : String → String → String → ConversionFile
conversion_file id source target = record {
  conversion_id = id;
  path = concat "input/" (concat id (concat "." source));
  retries = 0;
  source_format = source;
  target_format = target;
}

module _ {W : Type 0} (intake : Intake W) (config : ConversionConfig) where
  -- `supportsConversion`: all three wrappers are asked.
  unfoldable pub supports_conversion : String → String → W → Bool × W
  supports_conversion source target w =
      let (by_ffmpeg, w1) = intake.can_convert Wrapper.ffmpeg source target w in
      let (by_unoconv, w2) = intake.can_convert Wrapper.unoconv source target w1 in
      let (by_imagemagick, w3) = intake.can_convert Wrapper.imagemagick source target w2 in
      (by_ffmpeg || by_imagemagick || by_unoconv, w3)

  abbrev pub stored : ConversionFile → Bool → Machine → Processed × Machine
  stored f false m = (not_written, m)
  stored f true m = (processing f.conversion_id, submit config f m)

  -- `processConversionRequest`, with the queue when the file is written
  unfoldable pub process_conversion_request : Upload → Machine → W → (Processed × Machine) × W
  unfolding without_dot supports_conversion
  process_conversion_request upload m w =
      let source = without_dot (get_or upload.original_format "") in
      let target = without_dot upload.target_format in
      let (supported, w1) = supports_conversion source target w in
      let (id, w2) = intake.uuid w1 in
      let f = conversion_file id source target in
      let (resolved, w3) = intake.write_to_file f.path upload.file w2 in
      if supported then (stored f resolved m, w3) else ((unsupported_conversion_format, m), w1)

-- `findIndex`: the position from 0, or -1
abbrev next_index : ℤ → ℤ
next_index (pos n) = pos (suc n)
next_index (negsuc n) = negsuc n

unfoldable pub find_index : String → List ConversionFile → ℤ
find_index id [] = negsuc 0
find_index id (f ∷ fs) =
    let later = find_index id fs in if str_eq f.conversion_id id then pos 0 else next_index later

-- `IConversionInQueue`
pub record InQueue : Type 0 where
  pub entry : LogEntry
  pub conversion_id : String
  pub queue_position : ℤ

abbrev is_waiting : Status → Bool
is_waiting Status.in_queue = true
is_waiting _ = false

unfoldable pub conversions_of : List ConversionFile → Dict LogEntry → List InQueue
unfolding find_index
conversions_of queue [] = []
conversions_of queue ((id, entry) ∷ rest) =
    let later = conversions_of queue rest in
    if is_waiting entry.status
    then record { entry = entry; conversion_id = id; queue_position = find_index id queue } ∷ later
    else later

-- `getConversionQueueStatus`: the waiting conversions, and the length of the queue
unfoldable pub get_conversion_queue_status : QueueState → List InQueue × ℕ
unfolding conversions_of
get_conversion_queue_status q = (conversions_of q.conversion q.conv_log, length q.conversion)
