-- ===== src/App/Profiles/Tests.antt =====
-- The mutations of crates/colui-app/src/profiles.rs on a registry with one profile.
use colui.Prelude.{◌≡◌, ◌+◌, ◌&&◌, refl, [], ◌∷◌, none, some, err, is_ok, nat_eq, ltb, u64_max}
use colui.Domain.Text.{Uuids, bytes}
use colui.Domain.AppError.{ProfileId, app_error, profile_revision_conflict}
use colui.Domain.FilePath.{components}
use colui.Domain.Profile.{
  ProfileDraft, ProjectProfile, manual, profile_of_draft, from_draft, validate_draft, has_duplicate,
}
use colui.App.Profiles.Mutations.{
  RegistrySnapshot, ProfilePatch, update_mutation, remove_mutation, updated_profile, replace_first,
}
use colui.App.Profiles.Lists.{is_unique}
use colui.App.Profiles.Validity.{
  create, update, WellFormed, apply_mutation, apply_mutation-WellFormed,
}
use colui.App.Profiles.Lookup.{view, effect, allows, apply_mutation-view, apply_mutation-allows}
use colui.App.Profiles.Conflicts.{stale_write_refused}

instance abbrev test_uuids : Uuids
test_uuids = record { to_text = λ n. n ∷ []; parse_str = λ t. none }

abbrev draft : ProfileDraft
draft = record {
  display_name = bytes "web";
  compose_project_name = bytes "web";
  working_directory = bytes "/srv/web";
  compose_files = bytes "/srv/web/compose.yaml" ∷ [];
  environment_files = bytes "/srv/web/.env" ∷ [];
  registration_origin = manual;
}

abbrev web : ProjectProfile
web = profile_of_draft 5 draft

abbrev renamed : ProfilePatch
renamed = record {
  display_name = some (bytes "shop");
  compose_project_name = none;
  working_directory = none;
  compose_files = none;
  environment_files = none;
}

abbrev one_profile : RegistrySnapshot
one_profile = record { registry_revision = 3; profiles = web ∷ [] }

abbrev after_update : RegistrySnapshot
after_update = record {
  registry_revision = 4;
  profiles = record web { display_name = bytes "shop"; revision = 2 } ∷ [];
}

abbrev after_removal : RegistrySnapshot
after_removal = record { registry_revision = 4; profiles = [] }

apply_mutation-WellFormed_example : WellFormed after_update
unfolding apply_mutation update_mutation updated_profile from_draft validate_draft has_duplicate
    components replace_first is_unique
apply_mutation-WellFormed_example =
    apply_mutation-WellFormed (update 5 1 renamed) one_profile after_update (refl, refl) refl

apply_mutation-view_example :
    ((j : ProfileId) → view after_update j ≡ effect (update 5 1 renamed) (view one_profile) j)
    × (4 ≡ 3 + 1)
unfolding apply_mutation update_mutation updated_profile from_draft validate_draft has_duplicate
    components replace_first is_unique
apply_mutation-view_example =
    apply_mutation-view (update 5 1 renamed) one_profile after_update refl refl

apply_mutation-allows_example :
    is_ok (apply_mutation (create 5 draft) one_profile)
    ≡ (allows (create 5 draft) (view one_profile) && ltb 3 u64_max)
apply_mutation-allows_example = apply_mutation-allows (create 5 draft) one_profile

stale_write_refused_example :
    (update_mutation 5 1 renamed after_update
      ≡ err (
          app_error profile_revision_conflict "update_profile"
            (some 5)
            "profile revision conflict"))
    × (remove_mutation 5 1 after_update
        ≡ err (
            app_error profile_revision_conflict "remove_profile"
              (some 5)
              "profile revision conflict"))
unfolding update_mutation updated_profile from_draft validate_draft has_duplicate components
    replace_first
stale_write_refused_example = stale_write_refused 5 1 one_profile after_update renamed renamed refl
