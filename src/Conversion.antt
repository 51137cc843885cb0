-- ===== src/Conversion.antt =====
-- packages/conversion-service/src: the service that a worker container runs. The types of
-- abstract/converter/interface.ts, enum.ts and service/conversion/enum.ts, and the errors of
-- constants.ts and config/exception.ts that the modelled code throws.
pub mod Queue
pub mod Rules
pub mod Configuration
pub mod Service
pub mod Rounds
pub mod Drain
pub mod Complete
pub mod Settled
pub mod Position
pub mod Events
pub mod Requests
pub mod Answer
pub mod Awaits
pub mod Life
pub mod FileIo
pub mod Api
pub mod Rest
pub mod Wrappers
pub mod Tests
use dynamic_conversion_servi.Prelude.{ℕ, String, Bool, Option, List}
use dynamic_conversion_servi.Prelude.Dict.{Dict}

-- `EConversionStatus`
pub data Status : Type 0 where
  converted erroneous in_queue processing : Status

-- `IConversionFile`
pub record ConversionFile : Type 0 where
  pub conversion_id : String
  pub path : String
  pub retries : ℕ
  pub source_format : String
  pub target_format : String

-- `IConversionStatus`: a file with its status
pub record LogEntry : Type 0 where
  pub file : ConversionFile
  pub status : Status

-- `EConversionWrapper`
pub data Wrapper : Type 0 where
  ffmpeg imagemagick unoconv : Wrapper

-- The errors of choosing a wrapper, by their classes
pub data RuleFault : Type 0 where
  no_available_wrapper invalid_rule_parameter : RuleFault
  unknown_wrapper : String → RuleFault

-- The errors by their classes; `external` stands for what a wrapper rejects with.
pub data ConversionFault : Type 0 where
  max_conversion_tries no_such_conversion_id invalid_path : String → ConversionFault
  conversion_error external : ConversionFault
  rule_fault : RuleFault → ConversionFault

-- The state of `ConversionQueue`
pub record QueueState : Type 0 where
  pub conv_log : Dict LogEntry
  pub conversion : List ConversionFile
  pub currently_converting : Option ConversionFile
  pub is_converting : Bool

-- The configuration that the conversion reads, with the environment that rules are loaded from.
pub record ConversionConfig : Type 0 where
  pub conversion_tries : ℕ
  pub document : List Wrapper
  pub media : List Wrapper
  pub env : String → Option String
  -- `isMediaFile`, by the MIME types of the `mime` package
  pub is_media_file : String → Bool
