-- ===== src/Domain/Profile/Defs.antt =====
-- crates/colui-domain/src/profile.rs: drafts, profiles, and the validation of a draft.
use colui.Prelude.{
  Bool, true, false, ◌||◌, List, [], ◌∷◌, ◌++◌, none, Result, ok, err, and_then, any, if◌then◌else◌,
}
use colui.Domain.Text.{Uuids}
use colui.Domain.FilePath.{FilePath, path_eq}
use colui.Domain.AppError.{AppError, ProfileId, app_error, profile_invalid}
use colui.Domain.Identity.{DisplayName, ComposeProjectName, Revision, initial, next}

pub data RegistrationOrigin : Type 0 where
  manual discovered migrated : RegistrationOrigin

pub record ProfileDraft : Type 0 where
  pub display_name : DisplayName
  pub compose_project_name : ComposeProjectName
  pub working_directory : FilePath
  pub compose_files : List FilePath
  pub environment_files : List FilePath
  pub registration_origin : RegistrationOrigin

pub record ProjectProfile : Type 0 where
  pub id : ProfileId
  pub revision : Revision
  pub display_name : DisplayName
  pub compose_project_name : ComposeProjectName
  pub working_directory : FilePath
  pub compose_files : List FilePath
  pub environment_files : List FilePath
  pub registration_origin : RegistrationOrigin

-- `iter.any(|path| !paths.insert(path))`: whether a path is inserted into the set a second time.
unfoldable pub has_duplicate : List FilePath → List FilePath → Bool
has_duplicate paths [] = false
has_duplicate paths (p ∷ ps) = any (path_eq p) paths || has_duplicate (p ∷ paths) ps

abbrev pub is_empty : List FilePath → Bool
is_empty [] = true
is_empty (p ∷ ps) = false

abbrev pub profile_of_draft : ProfileId → ProfileDraft → ProjectProfile
profile_of_draft id draft = record {
  id = id;
  revision = initial;
  display_name = draft.display_name;
  compose_project_name = draft.compose_project_name;
  working_directory = draft.working_directory;
  compose_files = draft.compose_files;
  environment_files = draft.environment_files;
  registration_origin = draft.registration_origin;
}

module _ ⦃u : Uuids⦄ where
  unfoldable pub validate_draft : ProfileDraft → Result AppError (Unit {0})
  validate_draft draft =
      if is_empty draft.compose_files
      then err (
          app_error profile_invalid "validate_profile" none
            "profile requires at least one Compose file")
      else if has_duplicate [] (draft.compose_files ++ draft.environment_files)
      then err (app_error profile_invalid "validate_profile" none "profile paths must be unique")
      else ok tt

  -- `ProjectProfile::from_draft`
  unfoldable pub from_draft : ProfileId → ProfileDraft → Result AppError ProjectProfile
  from_draft id draft = and_then (validate_draft draft) (λ _. ok (profile_of_draft id draft))

  -- `ProjectProfile::with_display_name`
  unfoldable pub with_display_name : ProjectProfile → DisplayName → Result AppError ProjectProfile
  with_display_name p name =
      and_then (next p.revision) (λ r. ok (record p { display_name = name; revision = r }))
