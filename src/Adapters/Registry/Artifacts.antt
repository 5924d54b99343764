-- ===== src/Adapters/Registry/Artifacts.antt =====
-- crates/colui-adapters/src/registry/format.rs: the copies of the registry's file that a restore
-- keeps, by their names.
use colui.Prelude.{
  ℕ, ◌-◌, Bool, true, false, ◌&&◌, List, [], ◌∷◌, ◌++◌, Option, none, some, ok, err, if◌then◌else◌,
  length, take, filter, ltb, ◌==◌, nat_eq, list_eq, option_eq,
}
use colui.Prelude.Map.{Map}
use colui.Domain.Text.{Text, Uuids, bytes}
use colui.Domain.FilePath.{FilePath, push, parent_absolute, file_name_absolute}
use colui.Domain.AppError.{AppError}
use colui.Adapters.Registry.Disk.{IoError, Disk, Step, create_new, remove_file, file_call, keep}
use colui.Adapters.Registry.Frames.{pure_step, then_do, or_io}
use colui.Adapters.Registry.Writes.{io_error, write_error, write_synced}
use colui.Adapters.Registry.Lock.{RegistryConfig}

-- The order of `OsString`s: that of their bytes, one after the other.
unfoldable pub text_le : Text → Text → Bool
text_le [] b = true
text_le (x ∷ xs) [] = false
text_le (x ∷ xs) (y ∷ ys) = let rest = text_le xs ys in if ltb x y then true else x == y && rest

unfoldable pub insert_sorted : FilePath → List FilePath → List FilePath
unfolding text_le
insert_sorted p [] = p ∷ []
insert_sorted p (q ∷ qs) =
    let rest = insert_sorted p qs in
    if text_le (file_name_absolute p) (file_name_absolute q) then p ∷ q ∷ qs else q ∷ rest

-- `sort_by_key` by the file's name
unfoldable pub sort_by_name : List FilePath → List FilePath
unfolding insert_sorted
sort_by_name [] = []
sort_by_name (p ∷ ps) = insert_sorted p (sort_by_name ps)

abbrev pub has_prefix : Text → Text → Bool
has_prefix [] b = true
has_prefix (x ∷ xs) [] = false
has_prefix (x ∷ xs) (y ∷ ys) = x == y && has_prefix xs ys

abbrev pub is_artifact_of : FilePath → FilePath → Bool
is_artifact_of parent p =
    parent_absolute p == some parent
    && has_prefix (bytes "registry.pre-restore.") (file_name_absolute p)

abbrev pub paths : Map FilePath Text → List FilePath
paths [] = []
paths ((p, content) ∷ rest) = p ∷ paths rest

-- The entries of the directory that `prune_artifacts` keeps and sorts.
unfoldable pub artifacts_of : FilePath → Disk → List FilePath
unfolding sort_by_name
artifacts_of parent d = sort_by_name (filter (is_artifact_of parent) (paths d.files))

unfoldable pub read_artifacts : FilePath → Step IoError (List FilePath)
unfolding artifacts_of
read_artifacts parent = file_call keep (λ d. (ok (artifacts_of parent d), d))

module _ ⦃u : Uuids⦄ where
  unfoldable pub remove_each : List FilePath → Step AppError (Unit {0})
  remove_each [] = pure_step (ok tt)
  remove_each (p ∷ ps) =
      then_do (or_io (remove_file p) (io_error "prune_registry_artifacts")) (λ _. remove_each ps)

  abbrev pub too_many : List FilePath → List FilePath
  too_many artifacts = take (length artifacts - 3) artifacts

  abbrev prune_below : Option FilePath → Step AppError (Unit {0})
  prune_below none =
      pure_step (err (write_error "prune_registry_artifacts" "registry path has no parent"))
  prune_below (some parent) =
      then_do (or_io (read_artifacts parent) (io_error "prune_registry_artifacts"))
        (λ artifacts. remove_each (too_many artifacts))

  unfoldable pub prune_artifacts : RegistryConfig → Step AppError (Unit {0})
  unfolding remove_each
  prune_artifacts config = prune_below (parent_absolute config.canonical_path)

  abbrev artifact_path : FilePath → Text → ℕ → FilePath
  artifact_path parent stamp uuid =
      push parent
        (bytes "registry.pre-restore." ++ stamp ++ bytes "." ++ u.to_text uuid ++ bytes ".json")

  abbrev preserve_below : Option FilePath → Text → ℕ → Text → Step AppError FilePath
  preserve_below none stamp uuid content =
      pure_step (err (write_error "preserve_registry" "registry path has no parent"))
  preserve_below (some parent) stamp uuid content =
      then_do
        (write_synced (create_new (artifact_path parent stamp uuid))
          (artifact_path parent stamp uuid) content "preserve_registry" "fsync_preserved_registry")
        (λ _. pure_step (ok (artifact_path parent stamp uuid)))

  -- `preserve_canonical`, at a time that is printed as `stamp`, with the UUID that is drawn
  unfoldable pub preserve_canonical : RegistryConfig → Text → ℕ → Text → Step AppError FilePath
  preserve_canonical config stamp uuid content =
      preserve_below (parent_absolute config.canonical_path) stamp uuid content
