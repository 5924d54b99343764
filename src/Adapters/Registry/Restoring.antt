-- ===== src/Adapters/Registry/Restoring.antt =====
-- Restoring the registry (crates/colui-adapters/src/registry/format.rs), from the backup's file to
-- the registry's.
use colui.Prelude.{
  ℕ, ◌≡◌, refl, ◌∙◌, sym, ap, subst, false, List, [], ◌∷◌, Option, none, some, ok, any, all, find,
  arith, checked_add_u64, nat_eq, list_eq, ◌==◌, Result-cases, Option-cases, inl, inr,
}
use colui.Prelude.Map.{lookup}
use colui.Domain.Text.{Text, Uuids}
use colui.Domain.FilePath.{FilePath, parent_absolute}
use colui.Domain.AppError.{ProfileId}
use colui.Domain.Profile.{ProjectProfile}
use colui.App.Profiles.Mutations.{RegistrySnapshot, has_id}
use colui.App.Profiles.Lists.{is_unique}
use colui.App.Profiles.Validity.{WellFormed, is_valid}
use colui.Adapters.Registry.Disk.{Disk, read}
use colui.Adapters.Registry.Frames.{then_do-ok, pure_step, or_io, read-Leaves}
use colui.Adapters.Registry.Writes.{temp_of}
use colui.Adapters.Registry.Format.{Serde, ReadsBack, decode}
use colui.Adapters.Registry.RoundTrip.{decode-WellFormed}
use colui.Adapters.Registry.Lock.{RegistryConfig, LockAttempts, lock}
use colui.Adapters.Registry.Stored.{stored, read-ok, read-missing}
use colui.Adapters.Registry.Mutated.{write_changed-ok, lock-Leaves}
use colui.Adapters.Registry.Waits.{succeeded}
use colui.Adapters.Registry.Recovery.{
  max, advance_profiles, restored_of, revision_of, profiles_of, authority_revision,
  restore_backup_attempt, replace_registry, backup_path, drop_artifact, replace_or_drop, decoded,
  read_optional, preserve,
}

module _ ⦃u : Uuids⦄ (s : Serde) (config : RegistryConfig) where
  -- Restored profiles have the ids and the drafts of the backup's.
  advance_profiles-same :
      (canonical : Option RegistrySnapshot) (ps qs : List ProjectProfile)
      → advance_profiles s config canonical ps ≡ ok qs
      → (all is_valid qs ≡ all is_valid ps)
        × (((id : ProfileId) → any (has_id id) qs ≡ any (has_id id) ps)
            × (is_unique qs ≡ is_unique ps))
  unfolding advance_profiles is_unique
  advance_profiles-same canonical [] qs h =
      let e : [] ≡ qs = ground arith in rw (sym e) (refl, (λ id. refl, refl))
  advance_profiles-same canonical (p ∷ ps) qs h =
      let m =
        max (revision_of s config (find (has_id p.id) (profiles_of s config canonical)))
          p.revision in
      elim (Option-cases (checked_add_u64 m 1)) [
        | inl e ↦ cc (rw e at h)
        | inr (r, e) ↦ elim (Result-cases (advance_profiles s config canonical ps)) [
          | inr (a, g) ↦ cc (rw (e, g) at h)
          | inl (more, g) ↦
              let same : record p { revision = r } ∷ more ≡ qs =
                let h' = rw (e, g) at h in ground arith in
              let (valid, (ids, unique)) = advance_profiles-same canonical ps more g in
              rw (sym same) (rw valid refl, (λ id. rw (ids id) refl, rw (ids p.id, unique) refl))
        ]
      ]

  restored_of-WellFormed :
      (canonical : Option RegistrySnapshot) (backup restored : RegistrySnapshot)
      → WellFormed backup
      → restored_of s config canonical backup ≡ ok restored
      → WellFormed restored
  unfolding restored_of
  restored_of-WellFormed canonical backup restored (unique, valid) h =
      elim (Option-cases (checked_add_u64 (authority_revision s config canonical backup) 1)) [
        | inl e ↦ cc (rw e at h)
        | inr (r, e) ↦ elim (Result-cases (advance_profiles s config canonical backup.profiles)) [
          | inr (a, g) ↦ cc (rw (e, g) at h)
          | inl (qs, g) ↦
              let same : record { registry_revision = r; profiles = qs } ≡ restored =
                let h' = rw (e, g) at h in ground arith in
              let (valid', (_, unique')) = advance_profiles-same canonical backup.profiles qs g in
              rw (sym same) (unique' ∙ unique, valid' ∙ valid)
        ]
      ]

  read_optional-ok :
      (d : Disk) (canonical : Option Text)
      → (read_optional s config d).0 ≡ ok canonical
      → canonical ≡ lookup config.canonical_path d.files
  unfolding read_optional
  read_optional-ok d canonical h = elim (Result-cases (read config.canonical_path d).0) [
    | inl (c, e) ↦ ground (arith, read-ok config.canonical_path d c e)
    | inr (e, f) ↦ ground (arith, read-missing config.canonical_path d e f)
  ]

  replace_or_drop-ok :
      (uuid : ℕ) (restored t : RegistrySnapshot) (artifact : Option FilePath) (d : Disk)
      → (replace_or_drop s config uuid restored artifact d).0 ≡ ok t
      → replace_or_drop s config uuid restored artifact d
        ≡ replace_registry s config uuid restored d
  replace_or_drop-ok uuid restored t none d h = refl
  replace_or_drop-ok uuid restored t (some p) d h =
      elim (Result-cases (replace_registry s config uuid restored d).0) [
        | inl (a, e) ↦
            let after = (replace_registry s config uuid restored d).1 in
            ap (λ r. drop_artifact s config (some p) (r, after)) e ∙ ap (λ r. (r, after)) (sym e)
        | inr (a, e) ↦ cc (rw e at h)
      ]

module _ ⦃u : Uuids⦄ (s : Serde) (config : RegistryConfig) (reads : ReadsBack s) (uuid : ℕ)
    (parent : FilePath) (at_parent : parent_absolute config.canonical_path ≡ some parent)
    (temp_apart : (temp_of parent uuid == config.canonical_path) ≡ false) where
  replace_registry-ok :
      (restored t : RegistrySnapshot) (d : Disk)
      → WellFormed restored
      → (replace_registry s config uuid restored d).0 ≡ ok t
      → (t ≡ restored)
        × (stored s config (replace_registry s config uuid restored d).1 ≡ ok restored)
  unfolding replace_registry
  replace_registry-ok = write_changed-ok s config reads uuid parent at_parent temp_apart _

  -- A restore that succeeds was made of the backup's file, which held a registry, and leaves in the
  -- registry's file what it returns: the backup's registry, advanced past the registry that was
  -- there if it could be read. Conditions: serde_json reads back what it prints, the lock's file and
  -- the temporary file are not the registry's file, and the latter is in a directory.
  pub restore-stores :
      (attempts : LockAttempts) (stamp : Text) (artifact_uuid : ℕ) (d : Disk) (t : RegistrySnapshot)
      → (config.lock_path == config.canonical_path) ≡ false
      → (restore_backup_attempt s config attempts stamp artifact_uuid uuid d).0 ≡ ok t
      → (initial : Text) × ((backup : RegistrySnapshot) × ((lookup (backup_path config) d.files
              ≡ some initial)
            × ((decode s initial ≡ ok backup)
                × ((restored_of s config
                        (decoded s config (lookup config.canonical_path d.files))
                        backup
                      ≡ ok t)
                    × (stored s config
                          (restore_backup_attempt s config attempts stamp artifact_uuid uuid d).1
                        ≡ ok t)))))
  unfolding restore_backup_attempt pure_step or_io
  restore-stores attempts stamp artifact_uuid d t lock_apart h =
      let (initial, (i, e1)) = then_do-ok _ _ d t h in
      let d1 = (read (backup_path config) d).1 in
      let (backup, (b, e2)) = then_do-ok _ _ d1 t (rw e1 at h) in
      let (_, (locked, e3)) = then_do-ok (lock config attempts) _ d1 t (rw (e1, e2) at h) in
      let d2 = (lock config attempts d1).1 in
      let (again, (j, e4)) = then_do-ok _ _ d2 t (rw (e1, e2, e3) at h) in
      let d3 = (read (backup_path config) d2).1 in
      let (_, (same, e5)) = then_do-ok _ _ d3 t (rw (e1, e2, e3, e4) at h) in
      let (canonical, (k, e6)) = then_do-ok _ _ d3 t (rw (e1, e2, e3, e4, e5) at h) in
      let read_canonical = read_optional s config d3 in
      let d4 = read_canonical.1 in
      let (restored, (made, e7)) = then_do-ok _ _ d4 t (rw (e1, e2, e3, e4, e5, e6) at h) in
      let kept = preserve s config stamp artifact_uuid canonical d4 in
      let (artifact, (p, e8)) = then_do-ok _ _ d4 t (rw (e1, e2, e3, e4, e5, e6, e7) at h) in
      let d5 = kept.1 in
      let last = rw (e1, e2, e3, e4, e5, e6, e7, e8) at h in
      let e9 = replace_or_drop-ok s config uuid restored t artifact d5 last in
      let w =
        restored_of-WellFormed s config (decoded s config canonical) backup restored
          (decode-WellFormed s initial backup b) made in
      let (returned, there) = replace_registry-ok restored t d5 w (rw e9 at last) in
      let q = config.canonical_path in
      let unmoved : lookup q d3.files ≡ lookup q d.files =
        read-Leaves q (backup_path config) d2
        ∙ (lock-Leaves q config attempts lock_apart d1 ∙ read-Leaves q (backup_path config) d) in
      let from_disk : restored_of s config (decoded s config (lookup q d.files)) backup ≡ ok t =
        subst (λ c. restored_of s config (decoded s config c) backup ≡ ok t)
          (read_optional-ok s config d3 canonical k ∙ unmoved) (made ∙ ap ok (sym returned)) in
      (
        initial,
        (
          backup,
          (
            read-ok (backup_path config) d initial
                (succeeded (read (backup_path config)) _ d initial i),
            (
              b,
              (from_disk, rw (e1, e2, e3, e4, e5, e6, e7, e8, e9) (there ∙ ap ok (sym returned))),
            ),
          ),
        ),
      )
