-- ===== src/App/Status/Counts.antt =====
-- What the maps of the association context count (crates/colui-app/src/status.rs).
use colui.Prelude.{
  ℕ, ◌+◌, ◌≡◌, refl, true, List, [], ◌∷◌, Option, none, some, find, if◌then◌else◌, ◌==◌, EqTest,
  nat_eq, list_eq, option_eq, eqb_iff, arith,
}
use colui.Prelude.Map.{Map, lookup, lookup-insert}
use colui.Domain.Text.{Text}
use colui.Domain.AppError.{ProfileId}
use colui.Domain.Inventory.{ComposeObservationGroup}
use colui.Domain.Profile.{ProjectProfile}
use colui.App.Profiles.Mutations.{has_id}
use colui.App.Profiles.Lists.{is_unique, find-not_any}
use colui.App.Status.Association.{
  AssociationTuple, tuple_eq, RuntimeAssociationContext, profile_tuple, group_tuple, with_profile,
  with_group, count_profiles, count_groups, count_of, add_one, add_one_if,
}

-- How many profiles and groups of a list have a tuple, and how many groups have a name.
unfoldable pub profiles_with : AssociationTuple → List ProjectProfile → ℕ
profiles_with t [] = 0
profiles_with t (p ∷ ps) = (if profile_tuple p == some t then 1 else 0) + profiles_with t ps

unfoldable pub groups_with : AssociationTuple → List ComposeObservationGroup → ℕ
groups_with t [] = 0
groups_with t (g ∷ gs) = (if group_tuple g == some t then 1 else 0) + groups_with t gs

unfoldable pub groups_named : Text → List ComposeObservationGroup → ℕ
groups_named name [] = 0
groups_named name (g ∷ gs) =
    (if g.compose_project_name == name then 1 else 0) + groups_named name gs

module _ {K : Type 0} ⦃e : EqTest K⦄ where
  count_of-add_one :
      (key other : K) (counts : Map K ℕ)
      → count_of other (add_one key counts)
        ≡ (if key == other then 1 else 0) + count_of other counts
  count_of-add_one key other counts =
      ground (arith, lookup-insert key other (count_of key counts + 1) counts, e.test_iff key other)

  count_of-add_one_if :
      (key : Option K) (other : K) (counts : Map K ℕ)
      → count_of other (add_one_if key counts)
        ≡ (if key == some other then 1 else 0) + count_of other counts
  count_of-add_one_if none other counts = ground arith
  count_of-add_one_if (some key) other counts = count_of-add_one key other counts

pub count_profiles-counts :
    (c : RuntimeAssociationContext) (ps : List ProjectProfile) (t : AssociationTuple)
    → count_of t (count_profiles c ps).profile_counts
      ≡ count_of t c.profile_counts + profiles_with t ps
unfolding count_profiles profiles_with
count_profiles-counts c [] t = omega arith
count_profiles-counts c (p ∷ ps) t = ground (
  arith,
  count_profiles-counts (with_profile c p) ps t,
  count_of-add_one_if (profile_tuple p) t c.profile_counts,
)

-- The profiles' loop leaves the groups' counts, and the groups' loop the profiles' maps.
pub count_profiles-observations :
    (c : RuntimeAssociationContext) (ps : List ProjectProfile)
    → ((count_profiles c ps).observation_counts ≡ c.observation_counts)
      × ((count_profiles c ps).observation_name_counts ≡ c.observation_name_counts)
unfolding count_profiles
count_profiles-observations c [] = (refl, refl)
count_profiles-observations c (p ∷ ps) = count_profiles-observations (with_profile c p) ps

pub count_groups-profiles :
    (c : RuntimeAssociationContext) (gs : List ComposeObservationGroup)
    → ((count_groups c gs).profile_counts ≡ c.profile_counts)
      × ((count_groups c gs).profile_tuples ≡ c.profile_tuples)
unfolding count_groups
count_groups-profiles c [] = (refl, refl)
count_groups-profiles c (g ∷ gs) = count_groups-profiles (with_group c g) gs

pub count_groups-counts :
    (c : RuntimeAssociationContext) (gs : List ComposeObservationGroup) (t : AssociationTuple)
    (name : Text)
    → (count_of t (count_groups c gs).observation_counts
        ≡ count_of t c.observation_counts + groups_with t gs)
      × (count_of name (count_groups c gs).observation_name_counts
          ≡ count_of name c.observation_name_counts + groups_named name gs)
unfolding count_groups groups_with groups_named
count_groups-counts c [] t name = (omega arith, omega arith)
count_groups-counts c (g ∷ gs) t name =
    let (tuples, names) = count_groups-counts (with_group c g) gs t name in
    (
      ground (arith, tuples, count_of-add_one_if (group_tuple g) t c.observation_counts),
      ground (arith, names, count_of-add_one g.compose_project_name name c.observation_name_counts),
    )

-- With one profile of each id, the map of tuples has that of every profile.
abbrev tuple_entry :
    Option ProjectProfile → Option (Option AssociationTuple) → Option (Option AssociationTuple)
tuple_entry none old = old
tuple_entry (some p) old = some (profile_tuple p)

pub count_profiles-tuples :
    (c : RuntimeAssociationContext) (ps : List ProjectProfile) (id : ProfileId)
    → is_unique ps ≡ true
    → lookup id (count_profiles c ps).profile_tuples
      ≡ tuple_entry (find (has_id id) ps) (lookup id c.profile_tuples)
unfolding count_profiles is_unique
count_profiles-tuples c [] id u = refl
count_profiles-tuples c (p ∷ ps) id u = ground (
  arith,
  count_profiles-tuples (with_profile c p) ps id,
  lookup-insert p.id id (profile_tuple p) c.profile_tuples,
  find-not_any p.id ps,
  eqb_iff p.id id,
)
