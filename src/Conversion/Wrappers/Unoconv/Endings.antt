-- ===== src/Conversion/Wrappers/Unoconv/Endings.antt =====
-- packages/conversion-service/src/service/unoconv: when a conversion by unoconv succeeds.
use mathlib.Core.List.{append_assoc, append-nil}
use dynamic_conversion_servi.Prelude.{
  String, Bool, true, false, List, [], ◌∷◌, ◌++◌, ◌≡◌, ◌≢◌, ◌↔◌, refl, ◌∙◌, All,
}
use dynamic_conversion_servi.Docker.Names.{concat}
use dynamic_conversion_servi.Conversion.{ConversionFile}
use dynamic_conversion_servi.Conversion.FileIo.{FileSystem, write_to_file, written}
use dynamic_conversion_servi.Conversion.Wrappers.Unoconv.{get_binary, add_options}
use dynamic_conversion_servi.Conversion.Wrappers.Unoconv.Process.{
  ProcessEvent, ProcessApi, joined, Race, on_exit, race, convert, after_race, Target, target,
  convert_to_target, saved, of_writing,
}

abbrev pub IsData : ProcessEvent → Type 0
IsData e = (e ≢ ProcessEvent.exit) × (e ≢ ProcessEvent.timer)

abbrev pub stdout_of : List ProcessEvent → List String
stdout_of [] = []
stdout_of (ProcessEvent.stdout_data chunk ∷ events) = chunk ∷ stdout_of events
stdout_of (_ ∷ events) = stdout_of events

abbrev pub stderr_of : List ProcessEvent → List String
stderr_of [] = []
stderr_of (ProcessEvent.stderr_data chunk ∷ events) = chunk ∷ stderr_of events
stderr_of (_ ∷ events) = stderr_of events

-- `exit`, or the timer before it
abbrev pub ending : Bool → ProcessEvent
ending true = ProcessEvent.exit
ending false = ProcessEvent.timer

race-append :
    (events rest : List ProcessEvent) (stdout stderr : List String)
    → All IsData events
    → race (events ++ rest) stdout stderr
      ≡ race rest (stdout ++ stdout_of events) (stderr ++ stderr_of events)
unfolding race
race-append [] rest stdout stderr h = rw (append-nil stdout, append-nil stderr) refl
race-append (ProcessEvent.stdout_data chunk ∷ events) rest stdout stderr (h, hs) =
    race-append events rest (stdout ++ chunk ∷ []) stderr hs
    ∙ rw (append_assoc stdout (chunk ∷ []) (stdout_of events)) refl
race-append (ProcessEvent.stderr_data chunk ∷ events) rest stdout stderr (h, hs) =
    race-append events rest stdout (stderr ++ chunk ∷ []) hs
    ∙ rw (append_assoc stderr (chunk ∷ []) (stderr_of events)) refl
race-append (ProcessEvent.exit ∷ events) rest stdout stderr (h, hs) = absurd (h.0 refl)
race-append (ProcessEvent.timer ∷ events) rest stdout stderr (h, hs) = absurd (h.1 refl)

module _ {W : Type 0} (api : ProcessApi W) (fs : FileSystem W) (f : ConversionFile) where
  -- `./output/<id>.<target format>`
  abbrev pub target_path : String
  target_path = concat "./output/" (concat f.conversion_id (concat "." f.target_format))

  abbrev pub call : List String
  call = "-f" ∷ f.target_format ∷ "--stdout" ∷ f.path ∷ []

  module _ (pid : String) (w : W) where
    abbrev answer : Race → Target
    answer r = (saved api fs target_path (after_race api pid r w)).0

    written_iff :
        (r : Bool × W)
        → ((of_writing api fs target_path (written fs target_path r)).0 ≡ target target_path)
          ↔ (r.0 ≡ true)
    written_iff (true, w1) = (λ _. refl, λ _. refl)
    written_iff (false, w1) = (λ h. absurd cc, λ h. absurd cc)

    exit_iff :
        (stdout stderr : List String)
        → (answer (on_exit stdout stderr) ≡ target target_path)
          ↔ ((stderr ≡ []) × ((fs.write_file target_path (joined stdout) w).0 ≡ true))
    unfolding write_to_file
    exit_iff stdout [] =
        let (there, back) = written_iff (fs.write_file target_path (joined stdout) w) in
        (λ h. (refl, there h), λ (_, h). back h)
    exit_iff stdout (chunk ∷ stderr) = (λ h. absurd cc, λ (h, _). absurd cc)

    end_iff :
        (exited : Bool) (rest : List ProcessEvent) (stdout stderr : List String)
        → (answer (race (ending exited ∷ rest) stdout stderr) ≡ target target_path) ↔ (
            (exited ≡ true)
            × (stderr ≡ [])
            × ((fs.write_file target_path (joined stdout) w).0 ≡ true))
    unfolding race
    end_iff true rest stdout stderr =
        let (there, back) = exit_iff stdout stderr in
        (λ h. let (a, b) = there h in (refl, a, b), λ (_, a, b). back (a, b))
    end_iff false rest stdout stderr = (λ h. absurd cc, λ (h, _, _). absurd cc)

  -- A conversion by unoconv gives the path of its result exactly if the process exits before the timer,
  -- nothing came on stderr until then, and what came on stdout until then was written to that path.
  pub convert_to_target_iff :
      (pid : String) (before rest : List ProcessEvent) (exited : Bool) (w w1 : W)
      → api.spawn "unoconv" call w ≡ ((pid, before ++ ending exited ∷ rest), w1)
      → All IsData before
      → ((convert_to_target api fs f w).0 ≡ target target_path) ↔ (
          (exited ≡ true)
          × (stderr_of before ≡ [])
          × ((fs.write_file target_path (joined (stdout_of before)) w1).0 ≡ true))
  unfolding convert_to_target convert get_binary add_options
  convert_to_target_iff pid before rest exited w w1 spawned h =
      rw (spawned, race-append before (ending exited ∷ rest) [] [] h)
        (end_iff pid w1 exited rest (stdout_of before) (stderr_of before))
