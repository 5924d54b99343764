-- ===== src/App/Profiles/Lookup.antt =====
-- The registry as a map from ids to profiles (crates/colui-app/src/profiles.rs).
use colui.Prelude.{
  ℕ, ◌≡◌, Bool, true, false, ◌&&◌, Option, none, some, ok, is_ok, find, arith, Option-cases,
  Result-cases, nat_eq, eqb_iff, ◌==◌, inl, inr, ltb, ◌+◌, u64_max, if◌then◌else◌, is_none,
}
use colui.Domain.Text.{Uuids}
use colui.Domain.AppError.{ProfileId}
use colui.Domain.Profile.{
  ProfileDraft, ProjectProfile, from_draft, validate_draft, profile_of_draft,
}
use colui.App.Profiles.Mutations.{
  RegistrySnapshot, ProfilePatch, create_mutation, update_mutation, remove_mutation,
  updated_profile, patched_draft, has_id,
}
use colui.App.Profiles.Lists.{
  is_unique, find-append, find-replace_first, find-remove_first, find-any, any-find,
}
use colui.App.Profiles.Validity.{
  Mutation, create, update, remove, apply_mutation, from_draft-ok, updated_profile-ok,
}

-- What callers of the registry know of it.
abbrev pub View : Type 0
View = ProfileId → Option ProjectProfile

abbrev pub view : RegistrySnapshot → View
view s id = find (has_id id) s.profiles

-- A change of the map at one id.
abbrev set : ProfileId → Option ProjectProfile → View → View
set id o v j = if j == id then o else v j

abbrev patched : ProfileId → ProfilePatch → Option ProjectProfile → Option ProjectProfile
patched id patch none = none
patched id patch (some c) =
    some (record (profile_of_draft id (patched_draft c patch)) { revision = c.revision + 1 })

abbrev pub effect : Mutation → View → View
effect (create id draft) v = set id (some (profile_of_draft id draft)) v
effect (update id expected patch) v = set id (patched id patch (v id)) v
effect (remove id expected) v = set id none v

module _ ⦃u : Uuids⦄ where
  abbrev passes : ProfileDraft → Bool
  passes draft = is_ok (validate_draft draft)

  abbrev has_revision : ℕ → Option ProjectProfile → Bool
  has_revision expected none = false
  has_revision expected (some c) = c.revision == expected

  abbrev patch_passes : ProfilePatch → Option ProjectProfile → Bool
  patch_passes patch none = false
  patch_passes patch (some c) = passes (patched_draft c patch) && ltb c.revision u64_max

  -- When a change is allowed.
  abbrev pub allows : Mutation → View → Bool
  allows (create id draft) v = passes draft && is_none (v id)
  allows (update id expected patch) v = has_revision expected (v id) && patch_passes patch (v id)
  allows (remove id expected) v = has_revision expected (v id)

  -- Create, update and remove are exactly these changes of the map: on a registry with one profile
  -- of each id, a change that succeeds sets the one id it names, to the draft's profile, to the
  -- patched profile at the next revision, or to nothing, and advances the registry's revision by one.
  pub apply_mutation-view :
      (m : Mutation) (s t : RegistrySnapshot)
      → is_unique s.profiles ≡ true
      → apply_mutation m s ≡ ok t
      → ((j : ProfileId) → view t j ≡ effect m (view s) j)
        × (t.registry_revision ≡ s.registry_revision + 1)
  unfolding apply_mutation create_mutation update_mutation remove_mutation
  apply_mutation-view (create id draft) s t w h = elim (Result-cases (from_draft id draft)) [
    | inl (a, e) ↦ (
      λ j. ground (
        arith,
        from_draft-ok id draft a e,
        find-append j s.profiles a,
        eqb_iff id j,
        eqb_iff j id,
      ),
      ground arith,
    )
    | inr (a, e) ↦ ground arith
  ]
  apply_mutation-view (update id expected patch) s t w h =
      elim (Option-cases (find (has_id id) s.profiles)) [
        | inl e ↦ ground arith
        | inr (c, e) ↦ elim (Result-cases (updated_profile id patch c)) [
          | inl (a, f) ↦ (
            λ j. ground (
              arith,
              updated_profile-ok id patch c a f,
              find-replace_first id j a s.profiles,
              find-any id c s.profiles e,
            ),
            ground arith,
          )
          | inr (a, f) ↦ ground arith
        ]
      ]
  apply_mutation-view (remove id expected) s t w h =
      (λ j. ground (arith, find-remove_first id j s.profiles w), ground arith)

  -- A change succeeds exactly when it is allowed and the registry's revision can advance.
  pub apply_mutation-allows :
      (m : Mutation) (s : RegistrySnapshot)
      → is_ok (apply_mutation m s) ≡ (allows m (view s) && ltb s.registry_revision u64_max)
  unfolding apply_mutation create_mutation update_mutation remove_mutation updated_profile
      from_draft
  apply_mutation-allows (create id draft) s = ground (arith, any-find id s.profiles)
  apply_mutation-allows (update id expected patch) s = ground arith
  apply_mutation-allows (remove id expected) s = ground arith
