-- ===== src/Conversion/FileIo.antt =====
-- packages/conversion-service/src/service/file-io/index.ts. The functions of `fs` and `path.resolve` are the
-- record `FileSystem`; a call that may throw or whose callback may get an error says whether it did.
pub mod Folder
pub mod Tests
use dynamic_conversion_servi.Prelude.{
  ℕ, zero, suc, String, Bool, true, false, ◌&&◌, Option, none, some, List, [], ◌∷◌, str_eq,
  if◌then◌else◌,
}
use dynamic_conversion_servi.Prelude.Action.{Result, ok, err}
use dynamic_conversion_servi.Docker.Names.{concat, is_truthy}

pub record FileSystem (W : Type 0) : Type 0 where
  pub exists : String → W → Bool
  pub stat_is_directory : String → W → Bool
  pub stat_is_file : String → W → Bool
  pub read_directory : String → W → List String
  pub read_file : String → W → String
  -- `unlink` and `unlinkSync`, `rmdirSync`, `mkdir` and `writeFile`: whether there was no error
  pub unlink : String → W → Bool × W
  pub remove_directory : String → W → Bool × W
  pub make_directory : String → W → Bool × W
  pub write_file : String → String → W → Bool × W
  -- `resolve(basePath, path)`
  pub resolve_path : String → String

-- What is thrown or rejected with.
pub data FileFault : Type 0 where
  no_path_provided path_does_not_exist no_such_file not_a_directory : FileFault
  system_error no_reason : FileFault

module _ {W : Type 0} (fs : FileSystem W) where
  -- The promise is resolved before the callback of `unlink` can reject it.
  abbrev pub unlinked : Bool × W → Result FileFault (Unit {0}) × W
  unlinked (_, w) = (ok tt, w)

  -- `deleteFile`
  abbrev pub delete_existing : String → W → Result FileFault (Unit {0}) × W
  delete_existing path w =
      if fs.exists path w then unlinked (fs.unlink path w) else (err path_does_not_exist, w)

  unfoldable pub delete_file : Option String → W → Result FileFault (Unit {0}) × W
  delete_file none w = (err no_path_provided, w)
  delete_file (some path) w =
      if is_truthy (some path) then delete_existing path w else (err no_path_provided, w)

  abbrev pub written : String → Bool × W → Result FileFault String × W
  written path (true, w) = (ok (concat "Created File in " (concat path ".")), w)
  written path (false, w) = (err system_error, w)

  -- `writeToFile`
  unfoldable pub write_to_file : String → String → W → Result FileFault String × W
  write_to_file path content w = written path (fs.write_file path content w)

  -- `createDirectoryIfNotPresent`: for "" the rejection comes first and `mkdir` is still called; else the
  -- promise is resolved before the callback of `mkdir` runs.
  abbrev made : String → Bool × W → Result FileFault String × W
  made path (_, w) = (if str_eq path "" then err no_reason else ok "Created", w)

  abbrev present : String → Result FileFault String
  present path =
      if str_eq path ""
      then err no_reason
      else ok (concat "Dir '" (concat path "' already exists."))

  unfoldable pub create_directory_if_not_present : String → W → Result FileFault String × W
  create_directory_if_not_present path w =
      if fs.exists path w then (present path, w) else made path (fs.make_directory path w)

  -- `isDirectory` and `isFile`
  unfoldable pub is_directory : String → W → Bool
  is_directory path w = fs.exists path w && fs.stat_is_directory path w

  unfoldable pub is_file : String → W → Bool
  is_file path w = fs.exists path w && fs.stat_is_file path w

  -- `readFromFileSync`
  unfoldable pub read_from_file_sync : String → W → Result FileFault String
  unfolding is_file
  read_from_file_sync path w =
      if is_file (fs.resolve_path path) w
      then ok (fs.read_file (fs.resolve_path path) w)
      else err no_such_file

  -- `deleteFolderRecursive`, with fuel for the depth of the directories; none when it is spent
  abbrev pub after_call :
      (W → Option (Result FileFault (Unit {0})) × W)
      → Option (Result FileFault (Unit {0})) × W
      → Option (Result FileFault (Unit {0})) × W
  after_call next (some (ok _), w) = next w
  after_call next (r, w) = (r, w)

  abbrev pub of_system : Bool × W → Option (Result FileFault (Unit {0})) × W
  of_system (true, w) = (some (ok tt), w)
  of_system (false, w) = (some (err system_error), w)

  -- One entry of the directory.
  abbrev pub delete_entry :
      (String → W → Option (Result FileFault (Unit {0})) × W)
      → String
      → W
      → Option (Result FileFault (Unit {0})) × W
  delete_entry recursive path w =
      if is_directory path w then recursive path w else of_system (fs.unlink path w)

  abbrev pub delete_entries :
      (String → W → Option (Result FileFault (Unit {0})) × W)
      → String
      → List String
      → W
      → Option (Result FileFault (Unit {0})) × W
  delete_entries recursive path [] w = of_system (fs.remove_directory path w)
  delete_entries recursive path (file ∷ files) w =
      after_call (delete_entries recursive path files)
        (delete_entry recursive (concat path (concat "/" file)) w)

  unfoldable pub delete_folder_recursive : ℕ → String → W → Option (Result FileFault (Unit {0})) × W
  unfolding is_directory
  delete_folder_recursive zero path w = (none, w)
  delete_folder_recursive (suc fuel) path w =
      if is_directory path w
      then delete_entries (delete_folder_recursive fuel) path (fs.read_directory path w) w
      else (some (err not_a_directory), w)
