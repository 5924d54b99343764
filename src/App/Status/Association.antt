-- ===== src/App/Status/Association.antt =====
-- Which observed group of containers belongs to which profile (crates/colui-app/src/status.rs).
use colui.Prelude.{
  ℕ, ◌+◌, ◌≡◌, ◌↔◌, Bool, true, not, ◌&&◌, ◌||◌, List, [], ◌∷◌, ◌++◌, Option, none, some, any,
  if◌then◌else◌, ◌==◌, EqTest, nat_eq, list_eq, list_test_iff, unwrap_or, ltb, arith,
}
use colui.Prelude.Map.{Map, lookup, insert}
use colui.Domain.Text.{Text}
use colui.Domain.AppError.{ProfileId}
use colui.Domain.FilePath.{
  FilePath, Component, root_dir, cur_dir, parent_dir, normal, is_absolute, components, push,
  pop_absolute, to_str,
}
use colui.Domain.Inventory.{RuntimeInventory, ComposeObservationGroup}
use colui.Domain.Profile.{ProjectProfile}
use colui.App.Profiles.Mutations.{RegistrySnapshot}

-- The project's name, its working directory, and its Compose files.
abbrev pub AssociationTuple : Type 0
AssociationTuple = Text × (Text × List Text)

abbrev pub tuple_test : AssociationTuple → AssociationTuple → Bool
tuple_test (a, (b, c)) (x, (y, z)) = a == x && b == y && c == z

pub tuple_test_iff : (t v : AssociationTuple) → (tuple_test t v ≡ true) ↔ (t ≡ v)
tuple_test_iff (a, (b, c)) (x, (y, z)) =
    ground (arith, list_test_iff a x, list_test_iff b y, list_test_iff c z)

instance abbrev pub tuple_eq : EqTest AssociationTuple
tuple_eq = record { test = tuple_test; test_iff = tuple_test_iff }

abbrev push_component : FilePath → Component → FilePath
push_component normalized root_dir = push normalized (b'/' ∷ [])
push_component normalized cur_dir = normalized
push_component normalized parent_dir = pop_absolute normalized
push_component normalized (normal value) = push normalized value

abbrev push_components : FilePath → List Component → FilePath
push_components normalized [] = normalized
push_components normalized (c ∷ cs) = push_components (push_component normalized c) cs

unfoldable pub normalize_absolute_path : FilePath → Option Text
normalize_absolute_path path =
    if is_absolute path then to_str (push_components [] (components path)) else none

abbrev add_config_file : List Text → Text → List Text
add_config_file files file = if any (λ f. f == file) files then files else files ++ (file ∷ [])

-- The loop over the Compose files.
unfoldable pub collect_config_files : Text → List Text → List FilePath → Option (List Text)
collect_config_files working_directory files [] = some files
collect_config_files working_directory files (compose_file ∷ rest) =
    elim (normalize_absolute_path
      (if is_absolute compose_file then compose_file else push working_directory compose_file)) [
        | none ↦ none
        | some normalized ↦
            collect_config_files working_directory (add_config_file files normalized) rest
      ]

unfoldable pub profile_tuple : ProjectProfile → Option AssociationTuple
profile_tuple profile = elim (normalize_absolute_path profile.working_directory) [
  | none ↦ none
  | some working_directory ↦
      elim (collect_config_files working_directory [] profile.compose_files) [
        | none ↦ none
        | some files ↦ some (profile.compose_project_name, (working_directory, files))
      ]
]

pub record RuntimeAssociationContext : Type 0 where
  pub profile_counts : Map AssociationTuple ℕ
  pub profile_tuples : Map ProfileId (Option AssociationTuple)
  pub observation_counts : Map AssociationTuple ℕ
  pub observation_name_counts : Map Text ℕ

-- `*counts.entry(key).or_insert(0) += 1`
abbrev pub add_one : {K : Type 0} ⦃e : EqTest K⦄ → K → Map K ℕ → Map K ℕ
add_one key counts = insert key (unwrap_or (lookup key counts) 0 + 1) counts

abbrev pub add_one_if : {K : Type 0} ⦃e : EqTest K⦄ → Option K → Map K ℕ → Map K ℕ
add_one_if none counts = counts
add_one_if (some key) counts = add_one key counts

abbrev pub empty_context : RuntimeAssociationContext
empty_context = record {
  profile_counts = [];
  profile_tuples = [];
  observation_counts = [];
  observation_name_counts = [];
}

-- One round of the loop over the profiles.
abbrev pub with_profile : RuntimeAssociationContext → ProjectProfile → RuntimeAssociationContext
with_profile c profile = record c {
  profile_counts = add_one_if (profile_tuple profile) c.profile_counts;
  profile_tuples = insert profile.id (profile_tuple profile) c.profile_tuples;
}

unfoldable pub count_profiles :
    RuntimeAssociationContext → List ProjectProfile → RuntimeAssociationContext
count_profiles c [] = c
count_profiles c (profile ∷ rest) = count_profiles (with_profile c profile) rest

abbrev pub group_tuple : ComposeObservationGroup → Option AssociationTuple
group_tuple group = elim group.working_directory [
  | none ↦ none
  | some working_directory ↦
      some (group.compose_project_name, (working_directory, group.config_files))
]

-- One round of the loop over the groups.
abbrev pub with_group :
    RuntimeAssociationContext → ComposeObservationGroup → RuntimeAssociationContext
with_group c group = record c {
  observation_name_counts = add_one group.compose_project_name c.observation_name_counts;
  observation_counts = add_one_if (group_tuple group) c.observation_counts;
}

unfoldable pub count_groups :
    RuntimeAssociationContext → List ComposeObservationGroup → RuntimeAssociationContext
count_groups c [] = c
count_groups c (group ∷ rest) = count_groups (with_group c group) rest

-- `RuntimeAssociationContext::new`
unfoldable pub new_context : RegistrySnapshot → RuntimeInventory → RuntimeAssociationContext
new_context registry inventory =
    count_groups (count_profiles empty_context registry.profiles)
      inventory.compose_observation_groups

-- `RuntimeAssociationContext::profile_tuple`
abbrev pub known_tuple : RuntimeAssociationContext → ProjectProfile → Option AssociationTuple
known_tuple c profile = unwrap_or (lookup profile.id c.profile_tuples) none

abbrev pub count_of : {K : Type 0} ⦃e : EqTest K⦄ → K → Map K ℕ → ℕ
count_of key counts = unwrap_or (lookup key counts) 0

abbrev tuple_is_ambiguous : RuntimeAssociationContext → AssociationTuple → Bool
tuple_is_ambiguous c tuple =
    let observations = count_of tuple c.observation_counts in
    not (count_of tuple c.profile_counts == 1)
    || ltb 1 observations
    || (observations == 1 && not (count_of tuple.0 c.observation_name_counts == 1))

-- `RuntimeAssociationContext::is_ambiguous`
unfoldable pub is_ambiguous : RuntimeAssociationContext → ProjectProfile → Bool
is_ambiguous c profile = elim (known_tuple c profile) [
  | none ↦ true
  | some tuple ↦ tuple_is_ambiguous c tuple
]
