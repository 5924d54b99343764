-- ===== src/App/Profiles/Operations.antt =====
-- The operations of crates/colui-app/src/profiles.rs, on the services that they are given.
use colui.Prelude.{ℕ, List, Result, ok, err, and_then}
use colui.Domain.Text.{Uuids}
use colui.Domain.AppError.{AppError, ProfileId}
use colui.Domain.Profile.{ProfileDraft, ProjectProfile, from_draft}
use colui.App.Profiles.Mutations.{
  RegistrySnapshot, ProfilePatch, create_mutation, update_mutation, remove_mutation, get_profile,
}
use colui.App.Profiles.Services.{Services}

module _ {W : Type 0} (services : Services W) ⦃u : Uuids⦄ where
  abbrev pub mapped :
      {A B : Type 0} → (A → Result AppError B) → Result AppError A × W → Result AppError B × W
  mapped f (r, w) = (and_then r f, w)

  abbrev pub dropped : {A : Type 0} → Result AppError A × W → Result AppError A × W
  dropped (r, w) = (r, services.drop_mutation w)

  -- A mutation under the guard that is dropped at the end, and what is returned of the snapshot.
  abbrev pub guarded :
      {A : Type 0}
      → (RegistrySnapshot → Result AppError RegistrySnapshot)
      → (RegistrySnapshot → Result AppError A)
      → Result AppError (Unit {0}) × W
      → Result AppError A × W
  guarded f finish (err e, w) = (err e, w)
  guarded f finish (ok entered, w) = dropped (mapped finish (services.mutate f w))

  abbrev create_draft :
      ProfileId → Result AppError ProjectProfile → W → Result AppError ProjectProfile × W
  create_draft id (err e) w = (err e, w)
  create_draft id (ok profile) w =
      guarded (create_mutation profile) (get_profile "create_profile" id)
        (services.acquire_mutation w)

  abbrev create_with : ProfileDraft → ProfileId × W → Result AppError ProjectProfile × W
  create_with draft (id, w) = create_draft id (from_draft id draft) w

  -- `CreateProfile::execute`
  unfoldable pub create_profile : ProfileDraft → W → Result AppError ProjectProfile × W
  create_profile draft w = create_with draft (services.generate w)

  -- `UpdateProfile::execute`
  unfoldable pub update_profile :
      ProfileId → ℕ → ProfilePatch → W → Result AppError ProjectProfile × W
  update_profile id expected_revision patch w =
      guarded (update_mutation id expected_revision patch) (get_profile "update_profile" id)
        (services.acquire_mutation w)

  -- `RemoveProfile::execute`
  unfoldable pub remove_profile : ProfileId → ℕ → W → Result AppError (Unit {0}) × W
  remove_profile id expected_revision w =
      guarded (remove_mutation id expected_revision) (λ _. ok tt) (services.acquire_mutation w)

  -- `GetProfile::execute`
  unfoldable pub get_stored_profile : ProfileId → W → Result AppError ProjectProfile × W
  get_stored_profile id w = mapped (get_profile "get_profile" id) (services.load w)

  -- `ListProfiles::execute`
  unfoldable pub list_profiles : W → Result AppError (List ProjectProfile) × W
  list_profiles w = mapped (λ s. ok s.profiles) (services.load w)
