-- ===== src/App/Profiles/Validity.antt =====
-- The registry stays well-formed (crates/colui-app/src/profiles.rs).
use colui.Prelude.{
  ℕ, ◌≡◌, Bool, true, Result, ok, is_ok, and_then, all, find, arith, Option-cases, Result-cases,
  nat_eq, inl, inr, ◌+◌,
}
use colui.Domain.Text.{Uuids}
use colui.Domain.AppError.{AppError, ProfileId}
use colui.Domain.Profile.{
  ProfileDraft, ProjectProfile, from_draft, validate_draft, profile_of_draft,
}
use colui.App.Profiles.Mutations.{
  RegistrySnapshot, ProfilePatch, create_mutation, update_mutation, remove_mutation,
  updated_profile, patched_draft, has_id,
}
use colui.App.Profiles.Lists.{
  is_unique, is_unique-append, is_unique-replace_first, is_unique-remove_first, all-append,
  all-replace_first, all-remove_first,
}

-- The draft that a profile was made of.
abbrev pub draft_of : ProjectProfile → ProfileDraft
draft_of p = record {
  display_name = p.display_name;
  compose_project_name = p.compose_project_name;
  working_directory = p.working_directory;
  compose_files = p.compose_files;
  environment_files = p.environment_files;
  registration_origin = p.registration_origin;
}

-- The changes that the operations make.
pub data Mutation : Type 0 where
  create : ProfileId → ProfileDraft → Mutation
  update : ProfileId → ℕ → ProfilePatch → Mutation
  remove : ProfileId → ℕ → Mutation

module _ ⦃u : Uuids⦄ where
  abbrev pub is_valid : ProjectProfile → Bool
  is_valid p = is_ok (validate_draft (draft_of p))

  -- One profile of each id, and all of them pass validation.
  abbrev pub WellFormed : RegistrySnapshot → Type 0
  WellFormed s = (is_unique s.profiles ≡ true) × (all is_valid s.profiles ≡ true)

  unfoldable pub apply_mutation : Mutation → RegistrySnapshot → Result AppError RegistrySnapshot
  apply_mutation (create id draft) s = and_then (from_draft id draft) (λ p. create_mutation p s)
  apply_mutation (update id expected patch) s = update_mutation id expected patch s
  apply_mutation (remove id expected) s = remove_mutation id expected s

  pub from_draft-ok :
      (id : ProfileId) (draft : ProfileDraft) (p : ProjectProfile)
      → from_draft id draft ≡ ok p
      → (p ≡ profile_of_draft id draft) × (is_ok (validate_draft draft) ≡ true)
  unfolding from_draft
  from_draft-ok id draft p h = elim (Result-cases (validate_draft draft)) [
    | inl (a, e) ↦ ground arith
    | inr (a, e) ↦ ground arith
  ]

  pub updated_profile-ok :
      (id : ProfileId) (patch : ProfilePatch) (current p : ProjectProfile)
      → updated_profile id patch current ≡ ok p
      → (p ≡ record (profile_of_draft id (patched_draft current patch)) {
        revision = current.revision + 1;
      })
        × (is_ok (validate_draft (patched_draft current patch)) ≡ true)
  unfolding updated_profile
  updated_profile-ok id patch current p h =
      elim (Result-cases (from_draft id (patched_draft current patch))) [
        | inl (a, e) ↦ ground (arith, from_draft-ok id (patched_draft current patch) a e)
        | inr (a, e) ↦ ground arith
      ]

  -- Every change that succeeds keeps the ids apart and every profile valid.
  pub apply_mutation-WellFormed :
      (m : Mutation) (s t : RegistrySnapshot)
      → WellFormed s
      → apply_mutation m s ≡ ok t
      → WellFormed t
  unfolding apply_mutation create_mutation update_mutation remove_mutation
  apply_mutation-WellFormed (create id draft) s t (w, v) h =
      elim (Result-cases (from_draft id draft)) [
        | inl (a, e) ↦ ground (
          arith,
          from_draft-ok id draft a e,
          is_unique-append a s.profiles w,
          all-append is_valid a s.profiles v,
        )
        | inr (a, e) ↦ ground arith
      ]
  apply_mutation-WellFormed (update id expected patch) s t (w, v) h =
      elim (Option-cases (find (has_id id) s.profiles)) [
        | inl e ↦ ground arith
        | inr (c, e) ↦ elim (Result-cases (updated_profile id patch c)) [
          | inl (a, f) ↦ ground (
            arith,
            updated_profile-ok id patch c a f,
            is_unique-replace_first id a s.profiles,
            all-replace_first is_valid id a s.profiles v,
          )
          | inr (a, f) ↦ ground arith
        ]
      ]
  apply_mutation-WellFormed (remove id expected) s t (w, v) h =
      ground
        (arith, is_unique-remove_first id s.profiles w, all-remove_first is_valid id s.profiles v)
