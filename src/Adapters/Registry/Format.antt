-- ===== src/Adapters/Registry/Format.antt =====
-- crates/colui-adapters/src/registry/format.rs: the registry's file format, its validation, and the
-- equality of snapshots. `serde_json` and `sha2` are parameters.
use colui.Prelude.{
  ℕ, ◌≡◌, Bool, not, ◌&&◌, List, [], ◌∷◌, map, none, some, String, Result, ok, err, and_then, any,
  if◌then◌else◌, ◌==◌, nat_eq, list_eq,
}
use colui.Domain.Text.{Text, Uuids}
use colui.Domain.FilePath.{FilePath}
use colui.Domain.AppError.{AppError, ProfileId, app_error, with_details, registry_corrupt}
use colui.Domain.Identity.{DisplayName, ComposeProjectName, Revision}
use colui.Domain.Profile.{ProjectProfile, RegistrationOrigin, validate_draft}
use colui.Domain.Profile.Equality.{profiles_eq}
use colui.App.Profiles.Mutations.{RegistrySnapshot}
use colui.App.Profiles.Validity.{draft_of}
use colui.App.Recovery.Restore.{RegistrySnapshotIdentity}
use colui.Adapters.Registry.Writes.{write_error}

pub record RegistryProfile : Type 0 where
  pub id : ProfileId
  pub revision : Revision
  pub display_name : DisplayName
  pub compose_project_name : ComposeProjectName
  pub working_directory : FilePath
  pub compose_files : List FilePath
  pub environment_files : List FilePath
  pub registration_origin : RegistrationOrigin

pub record RegistryFile : Type 0 where
  pub schema_version : ℕ
  pub registry_revision : ℕ
  pub profiles : List RegistryProfile

-- `impl From<&ProjectProfile> for RegistryProfile`
abbrev pub to_registry : ProjectProfile → RegistryProfile
to_registry p = record {
  id = p.id;
  revision = p.revision;
  display_name = p.display_name;
  compose_project_name = p.compose_project_name;
  working_directory = p.working_directory;
  compose_files = p.compose_files;
  environment_files = p.environment_files;
  registration_origin = p.registration_origin;
}

-- `impl From<RegistryProfile> for ProjectProfile`
abbrev pub from_registry : RegistryProfile → ProjectProfile
from_registry p = record {
  id = p.id;
  revision = p.revision;
  display_name = p.display_name;
  compose_project_name = p.compose_project_name;
  working_directory = p.working_directory;
  compose_files = p.compose_files;
  environment_files = p.environment_files;
  registration_origin = p.registration_origin;
}

-- The crates `serde_json` and `sha2`: a file's text is read and printed, and a text has a digest in
-- hexadecimal.
pub record Serde : Type 0 where
  pub from_slice : Text → Result String RegistryFile
  pub to_vec_pretty : RegistryFile → Result String Text
  pub digest : Text → Text

-- What `serde_json` prints it reads back.
abbrev pub ReadsBack : Serde → Type 0
ReadsBack s = (f : RegistryFile) (b : Text) → s.to_vec_pretty f ≡ ok b → s.from_slice b ≡ ok f

module _ ⦃u : Uuids⦄ where
  -- The profiles of `validate_snapshot`'s loop, with the ids seen before.
  unfoldable pub validate_profiles :
      List ProfileId → List ProjectProfile → Result AppError (Unit {0})
  validate_profiles ids [] = ok tt
  validate_profiles ids (p ∷ ps) =
      let rest = validate_profiles (p.id ∷ ids) ps in
      if any (λ id. id == p.id) ids
      then err (
          app_error registry_corrupt "validate_registry" (some p.id)
            "registry contains duplicate profile ID")
      else and_then (validate_draft (draft_of p)) (λ _. rest)

  unfoldable pub validate_snapshot : RegistrySnapshot → Result AppError (Unit {0})
  unfolding validate_profiles
  validate_snapshot snapshot = validate_profiles [] snapshot.profiles

  abbrev pub corrupt_with : String → AppError
  corrupt_with details =
      with_details (app_error registry_corrupt "load_registry" none "registry is corrupt") details

  abbrev pub snapshot_of : RegistryFile → RegistrySnapshot
  snapshot_of file = record {
    registry_revision = file.registry_revision;
    profiles = map from_registry file.profiles;
  }

  abbrev pub decode_file : Result String RegistryFile → Result AppError RegistrySnapshot
  decode_file (err e) = err (corrupt_with e)
  decode_file (ok file) =
      if not (file.schema_version == 2)
      then err (app_error registry_corrupt "load_registry" none "unsupported registry schema")
      else and_then (validate_snapshot (snapshot_of file)) (λ _. ok (snapshot_of file))

  unfoldable pub decode : Serde → Text → Result AppError RegistrySnapshot
  decode s content = decode_file (s.from_slice content)

  abbrev pub file_of : RegistrySnapshot → RegistryFile
  file_of snapshot = record {
    schema_version = 2;
    registry_revision = snapshot.registry_revision;
    profiles = map to_registry snapshot.profiles;
  }

  abbrev serialized : Result String Text → Result AppError Text
  serialized (ok content) = ok content
  serialized (err e) = err (write_error "serialize_registry" e)

  unfoldable pub encode : Serde → RegistrySnapshot → Result AppError Text
  encode s snapshot = serialized (s.to_vec_pretty (file_of snapshot))

abbrev pub identity : Serde → RegistrySnapshot → Text → RegistrySnapshotIdentity
identity s snapshot content = record {
  registry_revision = snapshot.registry_revision;
  canonical_content_sha256 = s.digest content;
}

unfoldable pub snapshot_eq : RegistrySnapshot → RegistrySnapshot → Bool
unfolding profiles_eq
snapshot_eq s t = s.registry_revision == t.registry_revision && profiles_eq s.profiles t.profiles
