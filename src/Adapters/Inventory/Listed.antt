-- ===== src/Adapters/Inventory/Listed.antt =====
-- The inventory lists what was observed (crates/colui-adapters/src/inventory.rs).
use colui.Prelude.{
  ℕ, ◌≡◌, refl, ◌∙◌, sym, ap, Bool, false, not, ◌&&◌, ◌||◌, List, [], ◌∷◌, ◌++◌, map, Option, none,
  some, any, arith, ◌==◌, nat_eq, list_eq, list_test_iff, is_none, filter, eq_self, Option-cases,
  inl, inr,
}
use colui.Domain.Text.{Text}
use colui.Domain.Order.{
  any-update_entry, list_cmp, triple_order, list_order, nat_order, option_order,
}
use colui.Domain.Inventory.{
  ContainerId, ContainerInstance, ContainerObservation, ComposeContainerMetadata,
  ComposeObservationGroup, ProjectRuntimeSnapshot, Timestamp,
}
use colui.Domain.Runtime.{SessionContext}
use colui.Adapters.Inventory.Normalize.{
  GroupTuple, group_eq, Collected, tuple_of, add_to_project, add_observation, add_all, collect,
  normalize, insert_id, sort_ids, to_group, snapshot_part, push_container, push_id, place_id,
  nothing_collected,
}
use Prim.Native.Nat.{Ordering}
use mathlib.Core.List.{append_assoc, append-nil}

any-append :
    {A : Type 0} (p : A → Bool) (xs ys : List A) → any p (xs ++ ys) ≡ (any p xs || any p ys)
any-append p [] ys = refl
any-append p (x ∷ xs) ys = ground (arith, any-append p xs ys)

module _ (name : Text) (id : ContainerId) where
  abbrev in_project : Text × ProjectRuntimeSnapshot → Bool
  in_project (k, p) = k == name && any (λ c. c.id == id) p.containers

  -- Whether a project's snapshot has the name and lists the container.
  abbrev pub lists : ProjectRuntimeSnapshot → Bool
  lists p = p.compose_project_name == name && any (λ c. c.id == id) p.containers

  abbrev of_project : Option ComposeContainerMetadata → ContainerInstance → Bool
  of_project none c = false
  of_project (some m) c = m.project == name && c.id == id

  -- Whether the container was observed in the project.
  abbrev pub observed_in_project : ContainerObservation → Bool
  observed_in_project o = of_project o.compose o.container

  add_to_project-in_project :
      (m : Option ComposeContainerMetadata) (c : ContainerInstance) (s : Collected)
      → any in_project (add_to_project m c s).projects
        ≡ (of_project m c || any in_project s.projects)
  add_to_project-in_project none c s = refl
  add_to_project-in_project (some m) c s =
      any-update_entry in_project (of_project (some m) c) m.project (push_container m c) s.projects
        (ground arith) (λ w. ground (arith, any-append (λ x. x.id == id) w.containers (c ∷ [])))

  add_all-in_project :
      (os : List ContainerObservation) (s : Collected)
      → any in_project (add_all os s).projects
        ≡ (any in_project s.projects || any observed_in_project os)
  unfolding add_all add_observation
  add_all-in_project [] s = ground arith
  add_all-in_project (o ∷ os) s = ground (
    arith,
    add_all-in_project os (add_observation o s),
    add_to_project-in_project o.compose o.container s,
  )

-- Every snapshot has the name that it is stored under.
abbrev misnamed : Text × ProjectRuntimeSnapshot → Bool
misnamed (k, p) = not (p.compose_project_name == k)

add_to_project-named :
    (m : Option ComposeContainerMetadata) (c : ContainerInstance) (s : Collected)
    → any misnamed s.projects ≡ false
    → any misnamed (add_to_project m c s).projects ≡ false
add_to_project-named none c s h = h
add_to_project-named (some m) c s h =
    any-update_entry misnamed false m.project (push_container m c) s.projects
      (ap not (eq_self m.project)) (λ w. refl)
    ∙ h

add_all-named :
    (os : List ContainerObservation) (s : Collected)
    → any misnamed s.projects ≡ false
    → any misnamed (add_all os s).projects ≡ false
unfolding add_all add_observation
add_all-named [] s h = h
add_all-named (o ∷ os) s h =
    add_all-named os (add_observation o s) (add_to_project-named o.compose o.container s h)

any-snapshot_part :
    (name : Text) (id : ContainerId) (ps : List (Text × ProjectRuntimeSnapshot))
    → any misnamed ps ≡ false
    → any (lists name id) (map snapshot_part ps) ≡ any (in_project name id) ps
any-snapshot_part name id [] h = refl
any-snapshot_part name id ((k, p) ∷ ps) h = ground (
  arith,
  any-snapshot_part name id ps,
  list_test_iff p.compose_project_name k,
  list_test_iff k name,
  list_test_iff p.compose_project_name name,
)

module _ (tuple : GroupTuple) (id : ContainerId) where
  abbrev in_group : GroupTuple × List ContainerId → Bool
  in_group (k, ids) = k == tuple && any (λ j. j == id) ids

  abbrev of_group : Option ComposeContainerMetadata → ContainerInstance → Bool
  of_group none c = false
  of_group (some m) c = tuple_of m == tuple && c.id == id

  -- Whether the container was observed with the normalised name, directory and files.
  abbrev pub observed_in_group : ContainerObservation → Bool
  observed_in_group o = of_group o.compose o.container

  -- Whether a group has the name, the directory and the files, and the container.
  abbrev pub groups : ComposeObservationGroup → Bool
  groups g =
      (g.compose_project_name, (g.working_directory, g.config_files)) == tuple
      && any (λ j. j == id) g.container_ids

  add_to_project-in_group :
      (m : Option ComposeContainerMetadata) (c : ContainerInstance) (s : Collected)
      → any in_group (add_to_project m c s).groups ≡ (of_group m c || any in_group s.groups)
  add_to_project-in_group none c s = refl
  add_to_project-in_group (some m) c s =
      any-update_entry in_group (of_group (some m) c) (tuple_of m) (push_id c.id) s.groups
        (ground arith) (λ w. ground (arith, any-append (λ j. j == id) w (c.id ∷ [])))

  add_all-in_group :
      (os : List ContainerObservation) (s : Collected)
      → any in_group (add_all os s).groups ≡ (any in_group s.groups || any observed_in_group os)
  unfolding add_all add_observation
  add_all-in_group [] s = ground arith
  add_all-in_group (o ∷ os) s = ground (
    arith,
    add_all-in_group os (add_observation o s),
    add_to_project-in_group o.compose o.container s,
  )

  place_id-any :
      (order : Ordering) (i j : ContainerId) (ids rest : List ContainerId)
      → any (λ k. k == id) rest ≡ (i == id || any (λ k. k == id) ids)
      → any (λ k. k == id) (place_id order i j ids rest)
        ≡ (i == id || (j == id || any (λ k. k == id) ids))
  place_id-any Ordering.gt i j ids rest h = ground arith
  place_id-any _ i j ids rest h = refl

  insert_id-any :
      (i : ContainerId) (ids : List ContainerId)
      → any (λ j. j == id) (insert_id i ids) ≡ (i == id || any (λ j. j == id) ids)
  unfolding insert_id
  insert_id-any i [] = refl
  insert_id-any i (j ∷ ids) =
      place_id-any (list_cmp i j) i j ids (insert_id i ids) (insert_id-any i ids)

  sort_ids-any :
      (ids : List ContainerId) → any (λ j. j == id) (sort_ids ids) ≡ any (λ j. j == id) ids
  unfolding sort_ids
  sort_ids-any [] = refl
  sort_ids-any (i ∷ ids) = ground (arith, sort_ids-any ids, insert_id-any i (sort_ids ids))

  any-to_group :
      (gs : List (GroupTuple × List ContainerId)) → any groups (map to_group gs) ≡ any in_group gs
  any-to_group [] = refl
  any-to_group (((n, (d, fs)), ids) ∷ gs) = ground (arith, any-to_group gs, sort_ids-any ids)

-- The containers as they were observed, and those of no project.
add_all-containers :
    (os : List ContainerObservation) (s : Collected)
    → (add_all os s).containers ≡ s.containers ++ map (λ o. o.container) os
unfolding add_all add_observation
add_all-containers [] s = sym (append-nil s.containers)
add_all-containers (o ∷ os) s = elim (Option-cases o.compose) [
  | inl e ↦ rw e (
      add_all-containers os (add_to_project none o.container s)
      ∙ append_assoc s.containers (o.container ∷ []) _)
  | inr (m, e) ↦ rw e (
      add_all-containers os (add_to_project (some m) o.container s)
      ∙ append_assoc s.containers (o.container ∷ []) _)
]

abbrev pub standalone_of : List ContainerObservation → List ContainerInstance
standalone_of os = map (λ o. o.container) (filter (λ o. is_none o.compose) os)

add_all-standalone :
    (os : List ContainerObservation) (s : Collected)
    → (add_all os s).standalone ≡ s.standalone ++ standalone_of os
unfolding add_all add_observation
add_all-standalone [] s = sym (append-nil s.standalone)
add_all-standalone (o ∷ os) s = elim (Option-cases o.compose) [
  | inl e ↦ rw e (
      add_all-standalone os (add_to_project none o.container s)
      ∙ append_assoc s.standalone (o.container ∷ []) _)
  | inr (m, e) ↦ rw e (add_all-standalone os (add_to_project (some m) o.container s))
]

-- The inventory lists the containers that were observed, in their order, and as standalone those
-- that were observed without a project. It lists a container in a project exactly when it was
-- observed with that project's name, and in an observation group exactly when it was observed with
-- that name, directory and those files, as they are normalised.
pub normalize-lists :
    (generation : ℕ) (now : Timestamp) (captured : SessionContext) (os : List ContainerObservation)
    → ((normalize generation now captured os).containers ≡ map (λ o. o.container) os)
      × (((normalize generation now captured os).standalone_containers ≡ standalone_of os)
          × (((name : Text) (id : ContainerId)
                → any (lists name id) (normalize generation now captured os).project_snapshots
                  ≡ any (observed_in_project name id) os)
              × ((tuple : GroupTuple) (id : ContainerId)
                  → any
                      (groups tuple id)
                      (normalize generation now captured os).compose_observation_groups
                    ≡ any (observed_in_group tuple id) os)))
unfolding normalize collect
normalize-lists generation now captured os = (
  add_all-containers os nothing_collected,
  (
    add_all-standalone os nothing_collected,
    (
      λ name id.
          any-snapshot_part name id (add_all os nothing_collected).projects
            (add_all-named os nothing_collected refl)
          ∙ add_all-in_project name id os nothing_collected,
      λ tuple id.
          any-to_group tuple id (add_all os nothing_collected).groups
          ∙ add_all-in_group tuple id os nothing_collected,
    ),
  ),
)
