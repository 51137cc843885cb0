-- ===== src/Conversion/FileIo/Tests.antt =====
-- A file system with one folder that holds a file and an empty folder.
use dynamic_conversion_servi.Prelude.{
  ℕ, String, Bool, true, ◌||◌, none, some, List, [], ◌∷◌, ◌≡◌, ◌≢◌, refl, arith, str_eq, sym,
  eq_iff, Bool-cases, inl, inr, All, ◌<◌, if◌then◌else◌,
}
use mathlib.Core.Path.{subst}
use dynamic_conversion_servi.Docker.Names.{concat}
use dynamic_conversion_servi.Prelude.Action.{ok}
use dynamic_conversion_servi.Conversion.FileIo.{FileSystem, delete_folder_recursive, is_directory}
use dynamic_conversion_servi.Conversion.FileIo.Folder.{IsDeep, delete_folder_recursive_ends}

abbrev is_folder : String → Bool
is_folder path = str_eq path "out" || str_eq path "out/old"

abbrev names_in : String → List String
names_in path = if str_eq path "out" then "a.pdf" ∷ "old" ∷ [] else []

-- The world is what was removed, the last first.
abbrev removals : FileSystem (List String)
removals = record {
  exists = λ path w. true;
  stat_is_directory = λ path w. is_folder path;
  stat_is_file = λ path w. true;
  read_directory = λ path w. names_in path;
  read_file = λ path w. "";
  unlink = λ path w. (true, path ∷ w);
  remove_directory = λ path w. (true, path ∷ w);
  make_directory = λ path w. (true, w);
  write_file = λ path text w. (true, w);
  resolve_path = λ path. path;
}

abbrev levels : String → ℕ
levels path = if str_eq path "out" then 1 else 0

-- What a folder holds is removed before it.
removed_in_order :
    delete_folder_recursive removals 2 "out" []
    ≡ (some (ok tt), "out" ∷ "out/old" ∷ "out/a.pdf" ∷ [])
unfolding delete_folder_recursive
removed_in_order = refl

-- Only the one folder holds anything.
abbrev DeepAt : String → Type 0
DeepAt path =
    All
      (λ file.
        List String
        → is_folder (concat path (concat "/" file)) ≡ true
        → levels (concat path (concat "/" file)) < levels path)
      (names_in path)

out-DeepAt : DeepAt "out"
out-DeepAt = (λ v h. omega arith, (λ v h. omega arith, tt))

levels-IsDeep : IsDeep removals levels
unfolding is_directory
levels-IsDeep path w = elim (Bool-cases (str_eq path "out")) [
  | inl same ↦ subst DeepAt (sym ((eq_iff path "out").0 same)) out-DeepAt
  | inr other_path ↦ rw other_path tt
]

delete_folder_recursive_ends_example : (delete_folder_recursive removals 2 "out" []).0 ≢ none
delete_folder_recursive_ends_example =
    delete_folder_recursive_ends removals levels levels-IsDeep 2 "out" [] (omega arith)
