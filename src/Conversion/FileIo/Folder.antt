-- ===== src/Conversion/FileIo/Folder.antt =====
-- packages/conversion-service/src/service/file-io/index.ts: `deleteFolderRecursive` comes to an end.
use dynamic_conversion_servi.Prelude.{
  ℕ, zero, suc, ◌<◌, String, Bool, true, false, Option, none, some, List, [], ◌∷◌, ◌≡◌, ◌≢◌, refl,
  arith, All, Bool-cases, inl, inr,
}
use dynamic_conversion_servi.Prelude.Action.{Result, ok, err}
use dynamic_conversion_servi.Docker.Names.{concat}
use dynamic_conversion_servi.Conversion.FileIo.{
  FileSystem, FileFault, is_directory, after_call, of_system, delete_entry, delete_entries,
  delete_folder_recursive,
}

module _ {W : Type 0} (fs : FileSystem W) where
  -- Directories have a depth: what is a directory in a directory has a smaller one.
  abbrev pub IsDeep : (String → ℕ) → Type 0
  IsDeep depth =
      (path : String) (w : W)
      → All
          (λ file.
            (v : W)
            → is_directory fs (concat path (concat "/" file)) v ≡ true
            → depth (concat path (concat "/" file)) < depth path)
          (fs.read_directory path w)

  abbrev pub Outcome : Type 0
  Outcome = Option (Result FileFault (Unit {0})) × W

  abbrev Ends : Outcome → Type 0
  Ends r = r.0 ≢ none

  of_system-Ends : (r : Bool × W) → Ends (of_system fs r)
  of_system-Ends (true, w) = cc
  of_system-Ends (false, w) = cc

  after_call-Ends :
      (next : W → Outcome) (r : Outcome)
      → Ends r
      → ((w : W) → Ends (next w))
      → Ends (after_call fs next r)
  after_call-Ends next (none, w) h k = absurd (h refl)
  after_call-Ends next (some (ok a), w) h k = k w
  after_call-Ends next (some (err e), w) h k = h

  module _ (recursive : String → W → Outcome) (path : String) where
    abbrev EndsAt : String → Type 0
    EndsAt file =
        (v : W)
        → is_directory fs (concat path (concat "/" file)) v ≡ true
        → Ends (recursive (concat path (concat "/" file)) v)

    entry-Ends :
        (file : String) (w : W)
        → EndsAt file
        → Ends (delete_entry fs recursive (concat path (concat "/" file)) w)
    entry-Ends file w h = by_kind (is_directory fs (concat path (concat "/" file)) w) refl
      where
        by_kind :
            (b : Bool)
            → is_directory fs (concat path (concat "/" file)) w ≡ b
            → Ends (delete_entry fs recursive (concat path (concat "/" file)) w)
        by_kind true e = rw e (h w e)
        by_kind false e = rw e (of_system-Ends (fs.unlink (concat path (concat "/" file)) w))

    entries-Ends :
        (files : List String) (w : W)
        → All EndsAt files
        → Ends (delete_entries fs recursive path files w)
    entries-Ends [] w h = of_system-Ends (fs.remove_directory path w)
    entries-Ends (file ∷ files) w (h, hs) =
        after_call-Ends (delete_entries fs recursive path files)
          (delete_entry fs recursive (concat path (concat "/" file)) w) (entry-Ends file w h)
          λ v. entries-Ends files v hs

  All-follows :
      {P Q : String → Type 0} (xs : List String) → ((x : String) → P x → Q x) → All P xs → All Q xs
  All-follows [] k h = tt
  All-follows (x ∷ xs) k (h, hs) = (k x h, All-follows xs k hs)

  -- Where directories have a depth, deleteFolderRecursive ends within more calls than the depth of its
  -- folder, whatever the calls of the file system answer.
  pub delete_folder_recursive_ends :
      (depth : String → ℕ)
      → IsDeep depth
      → (fuel : ℕ) (path : String) (w : W) → depth path < fuel
      → (delete_folder_recursive fs fuel path w).0 ≢ none
  unfolding delete_folder_recursive
  delete_folder_recursive_ends depth deep zero path w h = absurd (omega arith)
  delete_folder_recursive_ends depth deep (suc fuel) path w h =
      elim (Bool-cases (is_directory fs path w)) [
        | inl folder ↦ rw folder (
            entries-Ends (delete_folder_recursive fs fuel) path (fs.read_directory path w) w (
              All-follows (fs.read_directory path w)
                (λ file smaller v inner.
                  delete_folder_recursive_ends depth deep fuel (concat path (concat "/" file)) v
                    (below h (smaller v inner)))
                (deep path w)))
        | inr other_kind ↦ rw other_kind cc
      ]
    where
      below : {a b : ℕ} → b < suc fuel → a < b → a < fuel
      below p q = omega arith
