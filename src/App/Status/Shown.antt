-- ===== src/App/Status/Shown.antt =====
-- What the status of a project shows (crates/colui-app/src/status.rs).
use colui.Prelude.{
  any, not, none, if◌then◌else◌, ◌≤◌, ◌≡◌, refl, Bool, true, false, ◌&&◌, List, [], ◌∷◌, ◌++◌,
  Option, some, all, filter, find, length, take, ◌==◌, nat_eq, list_eq, option_eq, arith,
  Option-cases, inl, inr, length-filter-le, u32_max,
}
use colui.Domain.Inventory.{
  RuntimeInventory, ContainerInstance, ProjectDefinition, RuntimePresence, present, RuntimeActivity,
  all_running, absent, mixed, none_running, Issue,
}
use colui.Domain.Profile.{ProjectProfile}
use colui.App.Profiles.Mutations.{RegistrySnapshot, has_id}
use colui.App.Profiles.Lists.{is_unique}
use colui.App.Status.Association.{AssociationTuple, tuple_eq, profile_tuple}
use colui.App.Status.Counts.{profiles_with}
use colui.App.Status.Ambiguity.{
  is_clear, is_ambiguous-is_clear, new_context-counts, new_context-tuples,
}
use colui.App.Status.Projection.{
  is_running, runtime_state, project_status, project_status_from_associations,
  project_status_from_registry_inventory_and_definition, ambiguous_association,
  profile_association_is_unique, has_tuple,
}

abbrev pub is_present : RuntimePresence → Bool
is_present present = true
is_present _ = false

abbrev pub is_nonempty : List ContainerInstance → Bool
is_nonempty [] = false
is_nonempty (c ∷ cs) = true

-- What the names of the presences and the activities say of a project's containers.
abbrev pub presence_of : Bool → List ContainerInstance → RuntimePresence
presence_of has_snapshot containers =
    if not has_snapshot
    then RuntimePresence.unavailable
    else if is_nonempty containers
    then present
    else absent

abbrev pub activity_of : List ContainerInstance → RuntimeActivity
activity_of containers =
    if all is_running containers
    then all_running
    else if any is_running containers
    then mixed
    else none_running

abbrev pub issues_of : Option ProjectDefinition → List Issue
issues_of none = []
issues_of (some definition) = definition.issues

filter-any :
    (f : ContainerInstance → Bool) (cs : List ContainerInstance)
    → (length (filter f cs) == 0) ≡ not (any f cs)
filter-any f [] = ground arith
filter-any f (c ∷ cs) = ground (arith, filter-any f cs)

filter-all :
    (f : ContainerInstance → Bool) (cs : List ContainerInstance)
    → (length (filter f cs) == length cs) ≡ all f cs
filter-all f [] = ground arith
filter-all f (c ∷ cs) = ground (arith, filter-all f cs, length-filter-le f cs)

-- Of up to 2^32 - 1 containers, the status counts all of them and those that run. Its presence is
-- unavailable without a snapshot, else absent without a container, else present; it has an activity
-- exactly when it is present: all running if every container runs, mixed if only some do, and none
-- running if none does.
pub project_status-shows :
    (profile : ProjectProfile) (inventory : RuntimeInventory) (containers : List ContainerInstance)
    → length containers ≤ u32_max
    → (let shown = (project_status profile inventory containers).runtime in
        (shown.presence ≡ presence_of inventory.has_snapshot containers)
        × (shown.activity ≡ (
            if inventory.has_snapshot && is_nonempty containers
            then some (activity_of containers)
            else none))
        × (shown.container_count ≡ length containers)
        × (shown.running_container_count ≡ length (filter is_running containers)))
unfolding project_status runtime_state
project_status-shows profile inventory [] small = ground arith
project_status-shows profile inventory (c ∷ cs) small = ground (
  arith,
  filter-all is_running (c ∷ cs),
  filter-any is_running (c ∷ cs),
  length-filter-le is_running (c ∷ cs),
)

module _ (registry : RegistrySnapshot) (inventory : RuntimeInventory)
    (profile : ProjectProfile) where
  -- On a registry with one profile of each id, a registered profile whose association is not clear
  -- shows no container, is not present, and carries the issue of an ambiguous association after
  -- those of its definition, if there is one.
  pub ambiguous_shows_nothing :
      (definition : Option ProjectDefinition)
      → is_unique registry.profiles ≡ true
      → find (has_id profile.id) registry.profiles ≡ some profile
      → is_clear registry inventory (profile_tuple profile) ≡ false
      → (let status =
            project_status_from_registry_inventory_and_definition profile registry inventory
              definition in
          (status.runtime.container_count ≡ 0)
          × (is_present status.runtime.presence ≡ false)
          × (status.issues ≡ issues_of definition ++ (ambiguous_association ∷ [])))
  unfolding project_status_from_registry_inventory_and_definition project_status_from_associations
      project_status runtime_state
  ambiguous_shows_nothing none u e f = elim (Option-cases (profile_tuple profile)) [
    | inl g ↦ ground (
      arith,
      is_ambiguous-is_clear registry inventory profile u e,
      new_context-tuples registry inventory profile u e,
    )
    | inr (t, g) ↦ ground (
      arith,
      is_ambiguous-is_clear registry inventory profile u e,
      new_context-tuples registry inventory profile u e,
      new_context-counts registry inventory t,
    )
  ]
  ambiguous_shows_nothing (some definition) u e f = elim (Option-cases (profile_tuple profile)) [
    | inl g ↦ ground (
      arith,
      is_ambiguous-is_clear registry inventory profile u e,
      new_context-tuples registry inventory profile u e,
    )
    | inr (t, g) ↦ ground (
      arith,
      is_ambiguous-is_clear registry inventory profile u e,
      new_context-tuples registry inventory profile u e,
      new_context-counts registry inventory t,
    )
  ]

length-filter-has_tuple :
    (t : AssociationTuple) (ps : List ProjectProfile)
    → length (filter (has_tuple t) ps) ≡ profiles_with t ps
unfolding profiles_with
length-filter-has_tuple t [] = refl
length-filter-has_tuple t (p ∷ ps) = ground (arith, length-filter-has_tuple t ps)

length-take-two : (ps : List ProjectProfile) → (length (take 2 ps) == 1) ≡ (length ps == 1)
length-take-two [] = ground arith
length-take-two (p ∷ []) = ground arith
length-take-two (p ∷ q ∷ ps) = ground arith

-- The guard of the registry alone holds of a profile with a tuple exactly when one profile of the
-- registry has that tuple.
pub profile_association_is_unique-count :
    (profile : ProjectProfile) (registry : RegistrySnapshot) (t : AssociationTuple)
    → profile_tuple profile ≡ some t
    → profile_association_is_unique profile registry ≡ (profiles_with t registry.profiles == 1)
unfolding profile_association_is_unique
profile_association_is_unique-count profile registry t e = ground (
  arith,
  length-filter-has_tuple t registry.profiles,
  length-take-two (filter (has_tuple t) registry.profiles),
)
