-- ===== src/App/Status/Ambiguity.antt =====
-- When an association is ambiguous (crates/colui-app/src/status.rs), without the context's maps.
use colui.Prelude.{
  ◌≡◌, Bool, true, false, not, ◌&&◌, ◌||◌, Option, none, some, find, ◌==◌, nat_eq, list_eq, arith,
  Option-cases, inl, inr,
}
use colui.Prelude.Map.{lookup}
use colui.Domain.Inventory.{RuntimeInventory}
use colui.Domain.Profile.{ProjectProfile}
use colui.App.Profiles.Mutations.{RegistrySnapshot, has_id}
use colui.App.Profiles.Lists.{is_unique}
use colui.App.Status.Association.{
  AssociationTuple, tuple_eq, profile_tuple, empty_context, count_profiles, new_context,
  is_ambiguous, count_of, RuntimeAssociationContext,
}
use colui.App.Status.Counts.{
  profiles_with, groups_with, groups_named, count_profiles-counts, count_profiles-observations,
  count_groups-profiles, count_groups-counts, count_profiles-tuples,
}

-- One profile has the tuple, and at most one group has it, which then is the only one of its name.
abbrev pub is_clear : RegistrySnapshot → RuntimeInventory → Option AssociationTuple → Bool
is_clear registry inventory none = false
is_clear registry inventory (some t) =
    let groups = inventory.compose_observation_groups in
    (profiles_with t registry.profiles == 1)
    && (groups_with t groups == 0 || (groups_with t groups == 1 && groups_named t.0 groups == 1))

module _ (registry : RegistrySnapshot) (inventory : RuntimeInventory) where
  abbrev context : RuntimeAssociationContext
  context = new_context registry inventory

  pub new_context-counts :
      (t : AssociationTuple)
      → (count_of t context.profile_counts ≡ profiles_with t registry.profiles)
        × (count_of t context.observation_counts
            ≡ groups_with t inventory.compose_observation_groups)
        × (count_of t.0 context.observation_name_counts
            ≡ groups_named t.0 inventory.compose_observation_groups)
  unfolding new_context lookup
  new_context-counts t =
      let profiles = count_profiles empty_context registry.profiles in
      let groups = inventory.compose_observation_groups in
      let (tuples, names) = count_groups-counts profiles groups t t.0 in
      let (kept, _) = count_groups-profiles profiles groups in
      let (same, same_names) = count_profiles-observations empty_context registry.profiles in
      (
        ground (arith, kept, count_profiles-counts empty_context registry.profiles t),
        ground (arith, tuples, same),
        ground (arith, names, same_names),
      )

  pub new_context-tuples :
      (profile : ProjectProfile)
      → is_unique registry.profiles ≡ true
      → find (has_id profile.id) registry.profiles ≡ some profile
      → lookup profile.id context.profile_tuples ≡ some (profile_tuple profile)
  unfolding new_context
  new_context-tuples profile u e =
      let profiles = count_profiles empty_context registry.profiles in
      let (_, kept) = count_groups-profiles profiles inventory.compose_observation_groups in
      ground (arith, kept, count_profiles-tuples empty_context registry.profiles profile.id u)

  -- On a registry with one profile of each id, a registered profile is ambiguous exactly when it has
  -- no tuple, or another profile has it too, or two groups have it, or one has it that shares its
  -- project's name with another group.
  pub is_ambiguous-is_clear :
      (profile : ProjectProfile)
      → is_unique registry.profiles ≡ true
      → find (has_id profile.id) registry.profiles ≡ some profile
      → is_ambiguous context profile ≡ not (is_clear registry inventory (profile_tuple profile))
  unfolding is_ambiguous
  is_ambiguous-is_clear profile u e = elim (Option-cases (profile_tuple profile)) [
    | inl f ↦ ground (arith, new_context-tuples profile u e)
    | inr (t, f) ↦ ground (arith, new_context-tuples profile u e, new_context-counts t)
  ]
