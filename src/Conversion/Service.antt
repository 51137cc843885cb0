-- ===== src/Conversion/Service.antt =====
-- packages/conversion-service/src: `wrapConversion` of abstract/converter/service.ts, and
-- `convertFile`, `update` and `addToConversionQueue` of service/conversion/index.ts. A conversion
-- runs as one step; the wrappers' programs and the file system are the record `Backend`.
use dynamic_conversion_servi.Prelude.{
  ℕ, zero, suc, ◌+◌, String, Bool, true, false, Option, none, some, leb, if◌then◌else◌,
}
use dynamic_conversion_servi.Prelude.Action.{
  Result, ok, err, Action, pure, raise, or_raise, modify, raise_if, ◌>>=◌, ◌>>◌,
}
use dynamic_conversion_servi.Conversion.{
  Status, Wrapper, ConversionFile, ConversionFault, RuleFault, QueueState, ConversionConfig,
}
use dynamic_conversion_servi.Conversion.Queue.{
  QueueAction, add_to_queue, change_conv_log_entry, get_next_queue_element,
}
use dynamic_conversion_servi.Conversion.Rules.{determine_converter}

-- A call over a world `W`, which it may read and change.
pub record Backend (W : Type 0) : Type 0 where
  -- `convertToTarget` of a wrapper: the path of the result, or none when it rejects
  pub convert_to_target : Wrapper → ConversionFile → W → Option String × W
  -- `deleteFile`: whether it resolves
  pub delete_file : String → W → Bool × W

pub record ServiceState (W : Type 0) : Type 0 where
  pub queue : QueueState
  pub world : W

abbrev pub Service : Type 0 → Type 0 → Type 0
Service W A = Action (ServiceState W) ConversionFault A

-- The setter of `currentlyConvertingFile`
abbrev pub set_current : Option ConversionFile → QueueState → QueueState
set_current f q = record q { currently_converting = f }

module _ {W A : Type 0} where
  abbrev pub on_queue : QueueAction A → Service W A
  on_queue m s = let (r, q) = m s.queue in (r, record s { queue = q })

  abbrev pub outside : (W → A × W) → Service W A
  outside f s = let (a, w) = f s.world in (ok a, record s { world = w })

  abbrev pub of_rules : Result RuleFault A → Service W A
  of_rules (ok a) = pure a
  of_rules (err e) = raise (ConversionFault.rule_fault e)

  -- `try { … } catch (error) { … }`
  abbrev pub caught :
      (ConversionFault → Service W A)
      → Result ConversionFault A × ServiceState W
      → Result ConversionFault A × ServiceState W
  caught handler (ok a, t) = (ok a, t)
  caught handler (err e, t) = handler e t

  abbrev pub try_catch : Service W A → (ConversionFault → Service W A) → Service W A
  try_catch m handler s = caught handler (m s)

  -- `finally { … }`
  abbrev pub finally : Service W A → (QueueState → QueueState) → Service W A
  finally m last s = let (r, t) = m s in (r, record t { queue = last t.queue })

module _ {W : Type 0} (backend : Backend W) (config : ConversionConfig) where
  -- The `try` block of `wrapConversion`.
  unfoldable pub try_conversion : ConversionFile → Service W ConversionFile
  try_conversion request = do
    raise_if (leb config.conversion_tries request.retries)
        (ConversionFault.max_conversion_tries request.conversion_id)
    converter ← of_rules (determine_converter config request.source_format request.target_format)
    answer ← outside (backend.convert_to_target converter request)
    path ← or_raise answer ConversionFault.external
    on_queue (change_conv_log_entry request.conversion_id Status.converted (some path))
    pure (record request { path = path })

  -- Its `catch` block.
  unfoldable pub catch_conversion : ConversionFile → ConversionFault → Service W ConversionFile
  catch_conversion request (ConversionFault.max_conversion_tries id) =
      raise (ConversionFault.max_conversion_tries id)
  catch_conversion request _ = do
    on_queue (add_to_queue config (record request { retries = request.retries + 1 }))
    raise ConversionFault.conversion_error

  -- `wrapConversion`
  unfoldable pub wrap_conversion : ConversionFile → Service W ConversionFile
  unfolding try_conversion catch_conversion
  wrap_conversion request = try_catch (try_conversion request) (catch_conversion request)

  -- `deleteFile`, whose rejection is thrown
  abbrev pub delete_input : String → Service W (Unit {0})
  delete_input path = do
    deleted ← outside (backend.delete_file path)
    raise_if (if deleted then false else true) (ConversionFault.invalid_path path)

  -- The `catch` block of `convertFile`.
  unfoldable pub catch_file : ConversionFile → ConversionFault → Service W (Unit {0})
  catch_file file (ConversionFault.max_conversion_tries id) = do
    on_queue (change_conv_log_entry file.conversion_id Status.erroneous none)
    delete_input file.path
  catch_file file _ = on_queue (change_conv_log_entry file.conversion_id Status.in_queue none)

  -- Its `try` block.
  unfoldable pub try_file : ConversionFile → Service W (Unit {0})
  unfolding wrap_conversion
  try_file file = do
    wrap_conversion file
    on_queue (modify (set_current none))
    delete_input file.path

  -- `convertFile` for a queue element
  unfoldable pub process_file : ConversionFile → Service W (Unit {0})
  unfolding try_file catch_file
  process_file file = do
    on_queue (modify (λ q. record q { is_converting = true; currently_converting = some file }))
    on_queue (change_conv_log_entry file.conversion_id Status.processing none)
    finally (try_catch (try_file file) (catch_file file))
        (λ q. record q { is_converting = false; currently_converting = none })

  -- `convertFile`, without the `update` that ends it
  unfoldable pub convert_file : Service W (Unit {0})
  unfolding process_file
  convert_file = do
    next ← on_queue get_next_queue_element
    elim next [ none ↦ pure tt | some file ↦ process_file file ]

  -- `update`, with the `update` at the end of every conversion, for `n` conversions
  unfoldable pub update : ℕ → ServiceState W → ServiceState W
  unfolding convert_file
  update zero s = s
  update (suc n) s = if s.queue.is_converting then s else update n (convert_file s).1
