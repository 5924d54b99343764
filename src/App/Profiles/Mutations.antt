-- ===== src/App/Profiles/Mutations.antt =====
-- crates/colui-app/src/profiles.rs: the changes that the operations make to a snapshot of the
-- registry.
use colui.Prelude.{
  ℕ, Bool, true, false, List, [], ◌∷◌, ◌++◌, Option, none, some, String, Result, ok, err, and_then,
  ok_or, any, find, if◌then◌else◌, unwrap_or, checked_add_u64, ◌==◌, nat_eq,
}
use colui.Domain.Text.{Uuids}
use colui.Domain.FilePath.{FilePath}
use colui.Domain.AppError.{
  AppError, ProfileId, app_error, registry_write_failed, profile_revision_conflict,
  profile_not_found,
}
use colui.Domain.Inventory.{Issue}
use colui.Domain.Identity.{DisplayName, ComposeProjectName, next}
use colui.Domain.Profile.{ProfileDraft, ProjectProfile, from_draft, validate_draft}

pub record RegistrySnapshot : Type 0 where
  pub registry_revision : ℕ
  pub profiles : List ProjectProfile

pub record ProfilePatch : Type 0 where
  pub display_name : Option DisplayName
  pub compose_project_name : Option ComposeProjectName
  pub working_directory : Option FilePath
  pub compose_files : Option (List FilePath)
  pub environment_files : Option (List FilePath)

pub record ProfileValidation : Type 0 where
  pub valid : Bool
  pub issues : List Issue

abbrev pub has_id : ProfileId → ProjectProfile → Bool
has_id id p = p.id == id

-- `profiles[position] = updated` and `profiles.remove(position)`, where `position` is that of the
-- first profile with the id.
unfoldable pub replace_first :
    ProfileId → ProjectProfile → List ProjectProfile → List ProjectProfile
replace_first id updated [] = []
replace_first id updated (p ∷ ps) =
    if p.id == id then updated ∷ ps else p ∷ replace_first id updated ps

unfoldable pub remove_first : ProfileId → List ProjectProfile → List ProjectProfile
remove_first id [] = []
remove_first id (p ∷ ps) = if p.id == id then ps else p ∷ remove_first id ps

-- The draft that a patch makes of a profile.
abbrev pub patched_draft : ProjectProfile → ProfilePatch → ProfileDraft
patched_draft current patch = record {
  display_name = unwrap_or patch.display_name current.display_name;
  compose_project_name = unwrap_or patch.compose_project_name current.compose_project_name;
  working_directory = unwrap_or patch.working_directory current.working_directory;
  compose_files = unwrap_or patch.compose_files current.compose_files;
  environment_files = unwrap_or patch.environment_files current.environment_files;
  registration_origin = current.registration_origin;
}

module _ ⦃u : Uuids⦄ where
  abbrev inspected : Result AppError (Unit {0}) → ProfileValidation
  inspected (ok done) = record { valid = true; issues = [] }
  inspected (err e) = record {
    valid = false;
    issues = record { field = none; message = e.message } ∷ [];
  }

  -- `InspectProfileDraft::execute`
  unfoldable pub inspect_draft : ProfileDraft → ProfileValidation
  inspect_draft draft = inspected (validate_draft draft)

  abbrev pub not_found : String → ProfileId → AppError
  not_found operation id = app_error profile_not_found operation (some id) "profile not found"

  abbrev pub require_revision : String → ProjectProfile → ℕ → Result AppError (Unit {0})
  require_revision operation profile expected_revision =
      if profile.revision == expected_revision
      then ok tt
      else err (
          app_error profile_revision_conflict operation (some profile.id)
            "profile revision conflict")

  -- The snapshot with new profiles, at the registry's next revision.
  abbrev advance :
      String → RegistrySnapshot → List ProjectProfile → Result AppError RegistrySnapshot
  advance operation s profiles =
      and_then
        (ok_or (checked_add_u64 s.registry_revision 1)
          (app_error registry_write_failed operation none "registry revision exhausted"))
        (λ r. ok (record { registry_revision = r; profiles = profiles }))

  -- The mutation of `CreateProfile::execute`
  unfoldable pub create_mutation :
      ProjectProfile → RegistrySnapshot → Result AppError RegistrySnapshot
  create_mutation profile s =
      if any (has_id profile.id) s.profiles
      then err (
          app_error registry_write_failed "create_profile" (some profile.id)
            "generated profile ID already exists")
      else advance "create_profile" s (s.profiles ++ (profile ∷ []))

  -- The profile that an update writes.
  unfoldable pub updated_profile :
      ProfileId → ProfilePatch → ProjectProfile → Result AppError ProjectProfile
  updated_profile id patch current =
      and_then (from_draft id (patched_draft current patch))
        (λ updated. and_then (next current.revision) (λ r. ok (record updated { revision = r })))

  -- The mutation of `UpdateProfile::execute`
  unfoldable pub update_mutation :
      ProfileId → ℕ → ProfilePatch → RegistrySnapshot → Result AppError RegistrySnapshot
  update_mutation id expected_revision patch s =
      and_then (ok_or (find (has_id id) s.profiles) (not_found "update_profile" id)) (λ current.
        and_then (require_revision "update_profile" current expected_revision) (λ _.
          and_then (updated_profile id patch current)
            (λ updated. advance "update_profile" s (replace_first id updated s.profiles))))

  -- The mutation of `RemoveProfile::execute`
  unfoldable pub remove_mutation :
      ProfileId → ℕ → RegistrySnapshot → Result AppError RegistrySnapshot
  remove_mutation id expected_revision s =
      and_then (ok_or (find (has_id id) s.profiles) (not_found "remove_profile" id)) (λ current.
        and_then (require_revision "remove_profile" current expected_revision)
          (λ _. advance "remove_profile" s (remove_first id s.profiles)))

  -- The search of `GetProfile::execute`, with which the other operations end as well
  unfoldable pub get_profile :
      String → ProfileId → RegistrySnapshot → Result AppError ProjectProfile
  get_profile operation id s = ok_or (find (has_id id) s.profiles) (not_found operation id)
