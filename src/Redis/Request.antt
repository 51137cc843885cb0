-- ===== src/Redis/Request.antt =====
-- packages/redis/src/interface.ts, and the request types of the conversion client that it uses.
use dynamic_conversion_servi.Prelude.{ℕ, String, Option, List}
use dynamic_conversion_servi.Prelude.Dict.{Dict}
use dynamic_conversion_servi.Docker.{ContainerInfo}

-- `EConversionStatus`. A worker's reply is cast to it unchecked, so any other text may stand there.
pub data ConversionStatus : Type 0 where
  converted erroneous in_queue processing : ConversionStatus
  other : String → ConversionStatus

-- `workerConversionId: string | null`. A worker's reply without a `conversionId` leaves `undefined`.
pub data WorkerConversionId : Type 0 where
  null undefined : WorkerConversionId
  given : String → WorkerConversionId

-- `IConversionRequestBody`; the queued request carries the empty text for the file.
pub record RequestBody : Type 0 where
  pub file : String
  pub filename : String
  pub original_format : Option String
  pub target_format : String

-- `IConversionRequest`
pub record ConversionRequest : Type 0 where
  pub conversion_request_body : RequestBody
  pub conversion_status : ConversionStatus
  pub external_conversion_id : String
  pub worker_conversion_id : WorkerConversionId

-- `IFinishedRequest`, its time in milliseconds
pub record FinishedRequest : Type 0 where
  pub container_id : String
  pub finished_time : ℕ
  pub request : ConversionRequest

-- `IWorkerInfo`
pub record WorkerInfo : Type 0 where
  pub container_info : ContainerInfo
  pub requests : List ConversionRequest
  pub worker_url : String

-- `IWorkers`
abbrev pub Workers : Type 0
Workers = Dict WorkerInfo
