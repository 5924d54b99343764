-- ===== src/Adapters/Registry/Restored.antt =====
-- What a restore of crates/colui-adapters/src/registry/format.rs gives back, and who may write
-- after it.
use colui.Prelude.{
  ℕ, ◌<◌, ◌≡◌, ◌⊎◌, refl, ◌∙◌, sym, ap, false, List, [], ◌∷◌, Option, none, some, ok, is_ok, find,
  arith, checked_add_u64, nat_eq, ◌==◌, Result-cases, Option-cases, Bool-cases, inl, inr,
}
use colui.Domain.Text.{Uuids}
use colui.Domain.AppError.{ProfileId}
use colui.Domain.Profile.{ProjectProfile}
use colui.App.Profiles.Mutations.{
  RegistrySnapshot, ProfilePatch, has_id, update_mutation, remove_mutation,
}
use colui.Adapters.Registry.Format.{Serde}
use colui.Adapters.Registry.Lock.{RegistryConfig}
use colui.Adapters.Registry.Recovery.{
  max, advance_profiles, restored_of, profiles_of, revision_of, authority_revision,
}
use colui.App.Profiles.Lists.{find-any}

checked_max : (a b r : ℕ) → checked_add_u64 (max a b) 1 ≡ some r → (a < r) × (b < r)
checked_max a b r h = ground arith

module _ ⦃u : Uuids⦄ (s : Serde) (config : RegistryConfig) where
  -- The revision that a profile has in the registry, 0 if it has none.
  abbrev pub present_revision : Option RegistrySnapshot → ProfileId → ℕ
  present_revision canonical id =
      revision_of s config (find (has_id id) (profiles_of s config canonical))

  -- A profile as it is restored of the backup's.
  abbrev pub Advances : Option RegistrySnapshot → ProjectProfile → ProjectProfile → Type 0
  Advances canonical old new =
      (new ≡ record old { revision = new.revision })
      × ((old.revision < new.revision) × (present_revision canonical old.id < new.revision))

  advance_profiles-Advances :
      (canonical : Option RegistrySnapshot) (id : ProfileId) (ps qs : List ProjectProfile)
      (new : ProjectProfile)
      → advance_profiles s config canonical ps ≡ ok qs
      → find (has_id id) qs ≡ some new
      → (old : ProjectProfile) × ((find (has_id id) ps ≡ some old) × Advances canonical old new)
  unfolding advance_profiles
  advance_profiles-Advances canonical id [] qs new h f =
      let none_found : [] ≡ qs = ground arith in cc (rw (sym none_found) at f)
  advance_profiles-Advances canonical id (p ∷ ps) qs new h f =
      let m = max (present_revision canonical p.id) p.revision in
      elim (Option-cases (checked_add_u64 m 1)) [
        | inl e ↦ cc (rw e at h)
        | inr (r, e) ↦ elim (Result-cases (advance_profiles s config canonical ps)) [
          | inr (a, g) ↦ cc (rw (e, g) at h)
          | inl (more, g) ↦
              let qs_eq : record p { revision = r } ∷ more ≡ qs =
                let h' = rw (e, g) at h in ground arith in
              let f' : find (has_id id) (record p { revision = r } ∷ more) ≡ some new =
                ap (find (has_id id)) qs_eq ∙ f in
              elim (Bool-cases (p.id == id)) [
                | inl same ↦
                    let head : record p { revision = r } ≡ new =
                      let f2 = rw same at f' in ground arith in
                    let (present, own) =
                      checked_max (present_revision canonical p.id) p.revision r e in
                    rw same (p, (refl, rw (sym head) (refl, (own, present))))
                | inr differs ↦
                    rw differs
                      (advance_profiles-Advances canonical id ps more new g (rw differs at f'))
              ]
        ]
      ]

  authority_above :
      (canonical : Option RegistrySnapshot) (backup : RegistrySnapshot) (r : ℕ)
      → checked_add_u64 (authority_revision s config canonical backup) 1 ≡ some r
      → (backup.registry_revision < r) × (authority_revision s config canonical backup < r)
  authority_above none backup r h = ground arith
  authority_above (some canonical) backup r h = ground arith

  -- A registry that is restored is at a revision above the backup's and the present registry's, and
  -- each of its profiles is the backup's but for a revision above the one in the backup and the one
  -- in the registry.
  pub restored_of-Advances :
      (canonical : Option RegistrySnapshot) (backup restored : RegistrySnapshot)
      → restored_of s config canonical backup ≡ ok restored
      → ((backup.registry_revision < restored.registry_revision)
          × (authority_revision s config canonical backup < restored.registry_revision))
        × ((id : ProfileId) (new : ProjectProfile)
            → find (has_id id) restored.profiles ≡ some new
            → (old : ProjectProfile) × ((find (has_id id) backup.profiles ≡ some old)
                × Advances canonical old new))
  unfolding restored_of
  restored_of-Advances canonical backup restored h =
      elim (Option-cases (checked_add_u64 (authority_revision s config canonical backup) 1)) [
        | inl e ↦ cc (rw e at h)
        | inr (r, e) ↦ elim (Result-cases (advance_profiles s config canonical backup.profiles)) [
          | inr (a, g) ↦ cc (rw (e, g) at h)
          | inl (qs, g) ↦
              let same : record { registry_revision = r; profiles = qs } ≡ restored =
                let h' = rw (e, g) at h in ground arith in
              rw (sym same) (
                authority_above canonical backup r e,
                λ id new f. advance_profiles-Advances canonical id backup.profiles qs new g f,
              )
        ]
      ]

  -- What a restore makes refuses an update and a removal at a revision of the profile that was seen
  -- before, in the backup or in the registry's file as the restore read it. A file that is missing or
  -- cannot be decoded gives no profiles: then only the backup's revisions are surely refused.
  pub restored_of-refuses_stale :
      (canonical : Option RegistrySnapshot) (backup restored : RegistrySnapshot)
      (seen : ProjectProfile) (patch : ProfilePatch)
      → restored_of s config canonical backup ≡ ok restored
      → (find (has_id seen.id) (profiles_of s config canonical) ≡ some seen)
        ⊎ (find (has_id seen.id) backup.profiles ≡ some seen)
      → (is_ok (update_mutation seen.id seen.revision patch restored) ≡ false)
        × (is_ok (remove_mutation seen.id seen.revision restored) ≡ false)
  unfolding update_mutation remove_mutation
  restored_of-refuses_stale canonical backup restored seen patch h saw =
      elim (Option-cases (find (has_id seen.id) restored.profiles)) [
        | inl e ↦ rw e (refl, refl)
        | inr (new, e) ↦
            let (old, (f, (as_old, (above_old, above_present)))) =
              (restored_of-Advances canonical backup restored h).1 seen.id new e in
            let (_, old_id) = find-any seen.id old backup.profiles f in
            let present : present_revision canonical old.id ≡ present_revision canonical seen.id =
              ap (present_revision canonical) old_id in
            let differs : (new.revision == seen.revision) ≡ false = elim saw [
              | inl in_registry ↦
                  let p : present_revision canonical seen.id ≡ seen.revision =
                    rw in_registry refl in
                  ground arith
              | inr in_backup ↦ ground arith
            ] in
            rw (e, differs) (refl, refl)
      ]
