-- ===== src/Redis/Worker/Network.antt =====
-- What `WorkerHandler` reaches outside the process, by packages/redis/src/util.ts: the workers'
-- HTTP interface, the files of a request, and the clock. It is a parameter over a world `W` that
-- each call may read and change. A call that throws, or whose promise rejects, answers `none` or
-- `false`: every caller catches it and only logs it.
use dynamic_conversion_servi.Prelude.{ℕ, String, Bool, Option, List}
use dynamic_conversion_servi.Prelude.Action.{ok, Action}
use dynamic_conversion_servi.Redis.Request.{
  ConversionStatus, WorkerConversionId, FinishedRequest, Workers,
}
use dynamic_conversion_servi.Redis.Worker.{WorkerError, Handler}

-- The fields of the form that is posted to a worker.
pub record ConversionForm : Type 0 where
  pub file_location : String
  pub filename : String
  pub original_format : Option String
  pub target_format : String

pub record Network (W : Type 0) : Type 0 where
  -- `path.extname` and `path.join`
  pub extname : String → String
  pub join : String → String → String
  -- read the input file and post the form; the `conversionId` of the reply
  pub post : String → ConversionForm → W → Option WorkerConversionId × W
  pub status : String → WorkerConversionId → W → Option ConversionStatus × W
  -- download the converted file of a worker to a path
  pub download : String → WorkerConversionId → String → W → Bool × W
  pub delete_file : String → W → Bool × W
  pub now : W → ℕ × W

-- The handler's workers, the world, and the array of finished requests that `fetchFiles` fills.
pub record HandlerState (W : Type 0) : Type 0 where
  pub workers : Workers
  pub finished : List FinishedRequest
  pub world : W

abbrev pub Remote : Type 0 → Type 0 → Type 0
Remote W A = Action (HandlerState W) WorkerError A

module _ {W A : Type 0} where
  -- A method of the handler, on its part of the state.
  abbrev pub local : Handler A → Remote W A
  local m s = let (r, ws) = m s.workers in (r, record s { workers = ws })

  -- A call of the network.
  abbrev pub remote : (W → A × W) → Remote W A
  remote f s = let (a, w) = f s.world in (ok a, record s { world = w })

module _ {W : Type 0} where
  -- `try { … } catch (error) { log }`
  abbrev pub try_log : Remote W (Unit {0}) → Remote W (Unit {0})
  try_log m s = (ok tt, (m s).1)
