-- ===== src/Conversion/Queue.antt =====
-- packages/conversion-service/src/service/conversion/queue/index.ts: `ConversionQueue`.
use dynamic_conversion_servi.Prelude.{
  ℕ, suc, String, Option, none, some, List, [], ◌∷◌, ◌++◌, str_eq, ltb, if◌then◌else◌,
}
use dynamic_conversion_servi.Prelude.Dict.{lookup, insert}
use dynamic_conversion_servi.Prelude.Action.{
  Action, pure, gets, or_raise, modify, raise_if, ◌>>=◌, ◌>>◌,
}
use dynamic_conversion_servi.Conversion.{
  Status, ConversionFile, LogEntry, ConversionFault, QueueState, ConversionConfig,
}

abbrev pub QueueAction : Type 0 → Type 0
QueueAction A = Action QueueState ConversionFault A

-- `addToConversionQueue`
unfoldable pub add_to_queue : ConversionConfig → ConversionFile → QueueAction String
add_to_queue config request = do
  raise_if (ltb config.conversion_tries request.retries)
      (ConversionFault.max_conversion_tries request.conversion_id)
  modify (λ q. record q {
    conversion = q.conversion ++ request ∷ [];
    conv_log =
        insert request.conversion_id (record { file = request; status = Status.in_queue })
          q.conv_log;
  })
  pure request.conversion_id

-- The new entry: a converted one needs the path of the result, which must not be empty.
abbrev pub changed_entry : String → Status → Option String → LogEntry → Option LogEntry
changed_entry id Status.converted none entry = none
changed_entry id Status.converted (some path) entry =
    if str_eq path ""
    then none
    else some (record entry { file = record entry.file { path = path }; status = Status.converted })
changed_entry id status path entry = some (record entry { status = status })

-- `changeConvLogEntry`
unfoldable pub change_conv_log_entry : String → Status → Option String → QueueAction (Unit {0})
change_conv_log_entry id status path = do
  found ← gets (λ q. lookup id q.conv_log)
  entry ← or_raise found (ConversionFault.no_such_conversion_id id)
  changed ← or_raise (changed_entry id status path entry) (ConversionFault.invalid_path id)
  modify (λ q. record q { conv_log = insert id changed q.conv_log })

-- `getNextQueueElement`
abbrev pub first_of : List ConversionFile → Option ConversionFile
first_of [] = none
first_of (f ∷ fs) = some f

abbrev pub rest_of : List ConversionFile → List ConversionFile
rest_of [] = []
rest_of (f ∷ fs) = fs

unfoldable pub get_next_queue_element : QueueAction (Option ConversionFile)
get_next_queue_element = do
  queue ← gets (λ q. q.conversion)
  modify (λ q. record q { conversion = rest_of q.conversion })
  pure (first_of queue)

-- `findIndex(…) + 1`: the position from 1, and 0 for an id that is not queued
unfoldable pub queue_position : String → List ConversionFile → ℕ
queue_position id [] = 0
queue_position id (f ∷ fs) =
    let later = queue_position id fs in if str_eq f.conversion_id id then 1 else shifted later
  where
    shifted : ℕ → ℕ
    shifted ℕ.zero = 0
    shifted (suc n) = suc (suc n)

-- `IConversionStatus`, with the position of `IConversionInQueue`
pub record StatusResponse : Type 0 where
  pub entry : LogEntry
  pub position : Option ℕ

abbrev pub response : String → LogEntry → QueueState → StatusResponse
response id entry q = record { entry = entry; position = position entry.status }
  where
    position : Status → Option ℕ
    position Status.in_queue = some (queue_position id q.conversion)
    position _ = none

-- `getStatusById`
unfoldable pub get_status_by_id : String → QueueAction StatusResponse
get_status_by_id id = do
  found ← gets (λ q. lookup id q.conv_log)
  entry ← or_raise found (ConversionFault.no_such_conversion_id id)
  gets (response id entry)
