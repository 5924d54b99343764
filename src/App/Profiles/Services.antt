-- ===== src/App/Profiles/Services.antt =====
-- What the operations of crates/colui-app/src/profiles.rs use: the traits `ProfileStore`,
-- `IdGenerator` and `OperationLockManager`, on the state `W` of all that stands behind them.
use colui.Prelude.{◌≡◌, ◌⊎◌, true, Result, ok}
use colui.Domain.AppError.{AppError, ProfileId}
use colui.Domain.Profile.Equality.{profiles_eq}
use colui.App.Profiles.Mutations.{RegistrySnapshot}

pub record Services (W : Type 0) : Type 0 where
  pub generate : W → ProfileId × W
  pub acquire_mutation : W → Result AppError (Unit {0}) × W
  pub drop_mutation : W → W
  pub load : W → Result AppError RegistrySnapshot × W
  pub mutate :
      (RegistrySnapshot → Result AppError RegistrySnapshot)
      → W
      → Result AppError RegistrySnapshot × W

-- What a store promises: `stored` is the snapshot that it keeps, a mutation that succeeds is
-- returned with the profiles that the mutation made, at a registry revision of the store's own, and
-- what is returned is stored, unless its profiles equal those before as Rust compares them, when the
-- store may stay as it is. The other calls leave the snapshot as it is.
pub record StoreLaws {W : Type 0} (s : Services W) : Type 0 where
  pub stored : W → RegistrySnapshot
  pub mutate_ok :
      (f : RegistrySnapshot → Result AppError RegistrySnapshot) (w : W) (t : RegistrySnapshot)
      → (s.mutate f w).0 ≡ ok t
      → (made : RegistrySnapshot) × ((f (stored w) ≡ ok made)
          × ((made.profiles ≡ t.profiles)
              × ((stored (s.mutate f w).1 ≡ t)
                  ⊎ ((profiles_eq made.profiles (stored w).profiles ≡ true)
                      × (stored (s.mutate f w).1 ≡ stored w)))))
  pub generate_stored : (w : W) → stored (s.generate w).1 ≡ stored w
  pub acquire_stored : (w : W) → stored (s.acquire_mutation w).1 ≡ stored w
  pub drop_stored : (w : W) → stored (s.drop_mutation w) ≡ stored w
  pub load_ok : (w : W) (t : RegistrySnapshot) → (s.load w).0 ≡ ok t → t ≡ stored w
