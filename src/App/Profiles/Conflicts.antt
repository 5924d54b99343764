-- ===== src/App/Profiles/Conflicts.antt =====
-- Revisions keep two writers from losing an update (crates/colui-app/src/profiles.rs).
use colui.Prelude.{
  ℕ, ◌≡◌, true, some, ok, err, find, arith, Option-cases, Result-cases, nat_eq, eqb_iff, inl, inr,
}
use colui.Domain.Text.{Uuids}
use colui.Domain.AppError.{ProfileId, app_error, profile_revision_conflict}
use colui.App.Profiles.Mutations.{
  RegistrySnapshot, ProfilePatch, update_mutation, remove_mutation, updated_profile, has_id,
  not_found,
}
use colui.App.Profiles.Lists.{is_unique, find-replace_first, find-remove_first, find-any}
use colui.App.Profiles.Validity.{updated_profile-ok}

module _ ⦃u : Uuids⦄ (id : ProfileId) (expected : ℕ) (s t : RegistrySnapshot) where
  -- After an update, a second update or a removal that expects the revision before it is refused
  -- with a revision conflict, whatever its patch.
  pub stale_write_refused :
      (patch late : ProfilePatch)
      → update_mutation id expected patch s ≡ ok t
      → (update_mutation id expected late t
          ≡ err (
              app_error profile_revision_conflict "update_profile"
                (some id)
                "profile revision conflict"))
        × (remove_mutation id expected t
            ≡ err (
                app_error profile_revision_conflict "remove_profile"
                  (some id)
                  "profile revision conflict"))
  unfolding update_mutation remove_mutation
  stale_write_refused patch late h = elim (Option-cases (find (has_id id) s.profiles)) [
    | inl e ↦ ground arith
    | inr (c, e) ↦ elim (Result-cases (updated_profile id patch c)) [
      | inl (a, f) ↦ ground (
        arith,
        updated_profile-ok id patch c a f,
        find-replace_first id id a s.profiles,
        find-any id c s.profiles e,
        eqb_iff id id,
        eqb_iff a.revision expected,
        eqb_iff c.revision expected,
      )
      | inr (a, f) ↦ ground arith
    ]
  ]

  -- On a registry with one profile of each id, an update or a removal right after the removal of its
  -- profile is refused: the profile is not found.
  pub removed_not_found :
      (later : ℕ) (late : ProfilePatch)
      → is_unique s.profiles ≡ true
      → remove_mutation id expected s ≡ ok t
      → (update_mutation id later late t ≡ err (not_found "update_profile" id))
        × (remove_mutation id later t ≡ err (not_found "remove_profile" id))
  unfolding update_mutation remove_mutation
  removed_not_found later late w h =
      ground (arith, find-remove_first id id s.profiles w, eqb_iff id id)
