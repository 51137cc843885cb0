-- ===== src/Conversion/Wrappers/Unoconv/Process.antt =====
-- packages/conversion-service/src/service/unoconv: `Unoconv.convert` and `UnoconvWrapper.convertToTarget`, with
-- `executeShellCommand` of util/index.ts. What the spawned process and the timer do comes as a list of
-- events in their order.
use Prim.Native.String as Text
use Prim.Native.String.{len}
use text.Mathlib.Text.{find?}
use dynamic_conversion_servi.Prelude.{
  String, Option, none, some, List, [], ◌∷◌, ◌++◌, is_some, if◌then◌else◌,
}
use dynamic_conversion_servi.Prelude.Action.{Result, ok, err}
use dynamic_conversion_servi.Docker.Names.{concat, is_truthy}
use dynamic_conversion_servi.Conversion.{ConversionFile}
use dynamic_conversion_servi.Conversion.FileIo.{FileSystem, write_to_file}
use dynamic_conversion_servi.Conversion.Wrappers.Unoconv.{Options, add_options, get_binary}

-- Chunks on stdout and stderr, the `exit` event, and the timer of `conversionTime`.
pub data ProcessEvent : Type 0 where
  stdout_data stderr_data : String → ProcessEvent
  exit timer : ProcessEvent

-- The answer to `exec`: the message of its error, and its output.
pub record ShellAnswer : Type 0 where
  pub error : Option String
  pub stdout : String
  pub stderr : String

pub record ProcessApi (W : Type 0) : Type 0 where
  -- the process id as text, and what happens
  pub spawn : String → List String → W → (String × List ProcessEvent) × W
  pub exec : String → W → ShellAnswer × W

-- `Buffer.concat`
abbrev pub joined : List String → String
joined [] = Text.[]
joined (chunk ∷ chunks) = concat chunk (joined chunks)

-- Which of the two promises settles first, and how.
pub data Race : Type 0 where
  converted failed : String → Race
  timed_out pending : Race

abbrev pub on_exit : List String → List String → Race
on_exit stdout [] = converted (joined stdout)
on_exit stdout (chunk ∷ stderr) = failed (joined (chunk ∷ stderr))

unfoldable pub race : List ProcessEvent → List String → List String → Race
race [] stdout stderr = pending
race (ProcessEvent.stdout_data chunk ∷ events) stdout stderr =
    race events (stdout ++ chunk ∷ []) stderr
race (ProcessEvent.stderr_data chunk ∷ events) stdout stderr =
    race events stdout (stderr ++ chunk ∷ [])
race (ProcessEvent.exit ∷ events) stdout stderr = on_exit stdout stderr
race (ProcessEvent.timer ∷ events) stdout stderr = timed_out

-- `executeShellCommand`: the first of its calls settles the promise.
pub data ShellFault : Type 0 where
  command_not_found exec_error : String → ShellFault
  error_output : String → ShellFault

abbrev shell_error : String → ShellFault
shell_error message =
    if is_some (find? "not found" message)
    then ShellFault.command_not_found "Command could not be found."
    else ShellFault.exec_error message

unfoldable pub shell_result : ShellAnswer → Result ShellFault String
shell_result answer = elim answer.error [
  | some message ↦ err (shell_error message)
  | none ↦
      if is_truthy (some answer.stderr)
      then err (ShellFault.error_output answer.stderr)
      else ok answer.stdout
]

-- `err.message`, and the message of the `ConversionError` made of it: a text has no message.
abbrev pub shell_message : Result ShellFault String → String
shell_message (ok _) = "Conversion timeout exceeded!"
shell_message (err (ShellFault.command_not_found message)) = message
shell_message (err (ShellFault.exec_error message)) = message
shell_message (err (ShellFault.error_output text)) = Text.[]

-- `convert` resolves with the output or rejects with a `ConversionError`.
pub data Conversion : Type 0 where
  output conversion_error : String → Conversion
  waiting : Conversion

module _ {W : Type 0} (api : ProcessApi W) where
  unfoldable pub execute_shell_command : String → W → Result ShellFault String × W
  unfolding shell_result
  execute_shell_command command w =
      let (answer, w1) = api.exec command w in (shell_result answer, w1)

  -- The `catch` block: after a timeout the process is killed.
  abbrev pub killed : Result ShellFault String × W → Conversion × W
  killed (r, w) = (conversion_error (shell_message r), w)

  abbrev pub after_race : String → Race → W → Conversion × W
  after_race pid (converted text) w = (output text, w)
  after_race pid (failed message) w = (conversion_error message, w)
  after_race pid timed_out w = killed (execute_shell_command (concat "kill -9 " pid) w)
  after_race pid pending w = (waiting, w)

  abbrev pub raced : (String × List ProcessEvent) × W → Conversion × W
  raced ((pid, events), w) = after_race pid (race events [] []) w

  -- `Unoconv.convert`
  unfoldable pub convert : String → String → Option Options → W → Conversion × W
  unfolding add_options get_binary
  convert filepath output_format options w = raced (
      api.spawn (get_binary options)
        (add_options options ("-f" ∷ output_format ∷ "--stdout" ∷ []) ++ filepath ∷ []) w)

-- The answer of `convertToTarget`: the path of the result, a rejection, or none as yet.
pub data Target : Type 0 where
  target : String → Target
  rejected awaited : Target

module _ {W : Type 0} (api : ProcessApi W) (fs : FileSystem W) where
  abbrev pub of_writing : {A : Type 0} → String → Result A String × W → Target × W
  of_writing path (ok _, w) = (target path, w)
  of_writing path (err _, w) = (rejected, w)

  abbrev pub saved : String → Conversion × W → Target × W
  saved path (output text, w) = of_writing path (write_to_file fs path text w)
  saved path (conversion_error _, w) = (rejected, w)
  saved path (waiting, w) = (awaited, w)

  -- `UnoconvWrapper.convertToTarget`
  unfoldable pub convert_to_target : ConversionFile → W → Target × W
  unfolding convert write_to_file
  convert_to_target f w =
      saved (concat "./output/" (concat f.conversion_id (concat "." f.target_format)))
        (convert api f.path f.target_format none w)
