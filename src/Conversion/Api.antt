-- ===== src/Conversion/Api.antt =====
-- packages/conversion-service/src/service/api/index.ts: `Api`, the parts that decide something: the answers
-- of its two handlers for errors and unknown addresses, the path of ffmpeg and the directories. The
-- handlers for errors of packages/redis/src/api/rest/index.ts are the same.
use dynamic_conversion_servi.Prelude.{ℕ, String, Option, none, some, List, [], ◌∷◌, if◌then◌else◌}
use dynamic_conversion_servi.Docker.Names.{is_truthy}
use dynamic_conversion_servi.Conversion.{Wrapper}
use dynamic_conversion_servi.Conversion.Configuration.{WrapperInfo, WrapperConfig, same_wrapper}
use dynamic_conversion_servi.Conversion.FileIo.{
  FileSystem, FileFault, create_directory_if_not_present,
}
use dynamic_conversion_servi.Prelude.Action.{Result, ok, err}

-- What a handler throws, or that none took the request.
pub data Raised : Type 0 where
  validate_error error other_value : Raised
  unhandled : Raised

-- The status and the message; none is `next()` with the value, which Express answers itself.
unfoldable pub error_answer : Raised → Option (ℕ × String)
error_answer validate_error = some (422, "Validation Failed")
error_answer error = some (500, "Internal Server Error")
error_answer other_value = none
error_answer unhandled = some (404, "Not Found")

-- `availableWrappers.filter(…)?.[0]?.path`
unfoldable pub wrapper_path : Wrapper → List WrapperInfo → Option String
wrapper_path wrapper [] = none
wrapper_path wrapper (info ∷ infos) =
    let later = wrapper_path wrapper infos in
    if same_wrapper info.binary wrapper then some info.path else later

-- `setWrapperPath`: the path that ffmpeg is given, if any
abbrev given : Wrapper → String → Option String
given Wrapper.ffmpeg path = some path
given _ path = none

abbrev given_path : Wrapper → Option String → Option String
given_path wrapper none = none
given_path wrapper (some path) = if is_truthy (some path) then given wrapper path else none

unfoldable pub set_wrapper_path : Wrapper → WrapperConfig → Option String
unfolding wrapper_path
set_wrapper_path wrapper config =
    given_path wrapper (wrapper_path wrapper config.available_wrappers)

module _ {W : Type 0} (fs : FileSystem W) (join : String → String → String) where
  -- `createApplicationDirectiories`: the promises are started in order; the first rejection is printed.
  abbrev all_made :
      Result FileFault String → Result FileFault (List String) → Result FileFault (List String)
  all_made (err e) rest = err e
  all_made (ok a) (err e) = err e
  all_made (ok a) (ok rest) = ok (a ∷ rest)

  unfoldable pub create_application_directories :
      String → List String → W → Result FileFault (List String) × W
  unfolding create_directory_if_not_present
  create_application_directories base_path [] w = (ok [], w)
  create_application_directories base_path (directory ∷ directories) w =
      let (made, w1) = create_directory_if_not_present fs (join base_path directory) w in
      let (rest, w2) = create_application_directories base_path directories w1 in
      (all_made made rest, w2)
