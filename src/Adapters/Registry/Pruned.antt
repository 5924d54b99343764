-- ===== src/Adapters/Registry/Pruned.antt =====
-- What `prune_artifacts` of crates/colui-adapters/src/registry/format.rs keeps of a directory.
use colui.Prelude.{
  length-drop, ◌-◌, ◌≤◌, ◌<◌, ◌≡◌, ◌⊎◌, refl, sym, ap, ◌∙◌, Bool, true, false, ◌&&◌, List, [], ◌∷◌,
  none, some, ok, any, filter, length, take, is_some, arith, ◌==◌, list_eq, nat_eq, option_eq,
  eqb_iff, inl, inr, Bool-cases,
}
use colui.Prelude.Map.{lookup}
use colui.Domain.Text.{Text, Uuids, bytes}
use colui.Domain.FilePath.{FilePath, parent_absolute, file_name_absolute}
use colui.Adapters.Registry.Disk.{Disk}
use colui.Adapters.Registry.Lock.{RegistryConfig}
use colui.Adapters.Registry.Artifacts.{
  text_le, has_prefix, is_artifact_of, paths, artifacts_of, prune_artifacts,
}
use colui.Adapters.Registry.Waits.{prune_artifacts-keeps_three}
use colui.Adapters.Registry.Sorted.{
  name, above, sort_by_name-sorted, count-sort_by_name, count-later, all-sort_filter, any-all,
  count-left, taken-many,
}

-- The names of the copies that restores keep of the registry's file.
abbrev pub copy_prefix : Text
copy_prefix = bytes "registry.pre-restore."

abbrev pub is_copy : FilePath → FilePath → Bool
is_copy parent p =
    parent_absolute p == some parent
    && take (length copy_prefix) (file_name_absolute p) == copy_prefix

has_prefix-take : (a b : Text) → has_prefix a b ≡ (take (length a) b == a)
has_prefix-take [] b = refl
has_prefix-take (x ∷ xs) [] = refl
has_prefix-take (x ∷ xs) (y ∷ ys) = ground (arith, has_prefix-take xs ys, eqb_iff x y, eqb_iff y x)

is_artifact_of-copy : (parent p : FilePath) → is_artifact_of parent p ≡ is_copy parent p
is_artifact_of-copy parent p =
    ap (λ b. parent_absolute p == some parent && b) (has_prefix-take copy_prefix (name p))

count-copies :
    (f : FilePath → Bool) (parent : FilePath) (ps : List FilePath)
    → length (filter f (filter (is_artifact_of parent) ps))
      ≡ length (filter (λ p. is_copy parent p && f p) ps)
count-copies f parent [] = refl
count-copies f parent (p ∷ ps) = elim (Bool-cases (is_copy parent p)) [
  | inl e ↦
      let e' : is_artifact_of parent p ≡ true = is_artifact_of-copy parent p ∙ e in
      rw (e, e') (ground (arith, count-copies f parent ps))
  | inr e ↦
      let e' : is_artifact_of parent p ≡ false = is_artifact_of-copy parent p ∙ e in
      rw (e, e') (count-copies f parent ps)
]

module _ ⦃u : Uuids⦄ where
  -- When pruning succeeds, a file is removed only if it is one of the copies that restores have kept
  -- of the registry's file, by its directory and the beginning of its name, and more than three of
  -- those copies, itself counted, have names that are not before its own. At most three of the copies
  -- are then left. Condition: the registry's file is in a directory.
  pub prune_artifacts-keeps_last :
      (config : RegistryConfig) (parent q : FilePath) (d : Disk)
      → parent_absolute config.canonical_path ≡ some parent
      → (prune_artifacts config d).0 ≡ ok tt
      → (let after = (prune_artifacts config d).1 in
          ((lookup q after.files ≡ lookup q d.files)
            ⊎ ((lookup q after.files ≡ none)
                × (is_copy parent q ≡ true)
                × (3
                    < length (
                        filter
                          (λ p.
                            is_copy parent p
                            && text_le (file_name_absolute q) (file_name_absolute p))
                          (paths d.files)))))
          × (length
                (filter (λ p. is_copy parent p && is_some (lookup p after.files)) (paths d.files))
              ≤ 3))
  unfolding artifacts_of
  prune_artifacts-keeps_last config parent q d at_parent h =
      let after = (prune_artifacts config d).1 in
      let artifacts = artifacts_of parent d in
      let n = length artifacts - 3 in
      let found = filter (is_artifact_of parent) (paths d.files) in
      let (at_q, few) = prune_artifacts-keeps_three config parent q d at_parent h in
      let left =
        count-left (λ p. is_some (lookup p after.files)) n artifacts
          (λ p t.
            let (at_p, _) = prune_artifacts-keeps_three config parent p d at_parent h in
            let gone : lookup p after.files ≡ none = at_p ∙ rw t refl in rw gone refl) in
      let counted =
        count-sort_by_name (λ p. is_some (lookup p after.files)) found
        ∙ count-copies (λ p. is_some (lookup p after.files)) parent (paths d.files) in
      (
        elim (Bool-cases (any (λ p. p == q) (take n artifacts))) [
          | inr e ↦ inl (at_q ∙ rw e refl)
          | inl e ↦
              let later = count-later q n artifacts (sort_by_name-sorted found) e in
              let among =
                count-sort_by_name (above q) found
                ∙ count-copies (above q) parent (paths d.files) in
              let one =
                any-all (is_artifact_of parent) q n artifacts
                  (all-sort_filter (is_artifact_of parent) (paths d.files)) e in
              inr (
                at_q ∙ rw e refl,
                sym (is_artifact_of-copy parent q) ∙ one,
                omega (arith, later, among, length-drop n artifacts, taken-many q n artifacts e),
              )
        ],
        omega (arith, left, counted, few),
      )
