-- ===== src/Adapters/Registry/ProfileStore.antt =====
-- `JsonProfileRegistry` (crates/colui-adapters/src/registry/format.rs) as the `ProfileStore` of the
-- operations of crates/colui-app/src/profiles.rs. Its ids and its mutation guard are taken as given.
use colui.Prelude.{
  ℕ, ◌≡◌, refl, sym, ap, ◌∙◌, false, Result, ok, err, inl, inr, ◌==◌, list_eq, nat_eq, some,
}
use colui.Domain.Text.{Uuids}
use colui.Domain.FilePath.{FilePath, parent_absolute}
use colui.Domain.AppError.{AppError, ProfileId}
use colui.App.Profiles.Mutations.{RegistrySnapshot}
use colui.App.Profiles.Services.{Services, StoreLaws}
use colui.Adapters.Registry.Disk.{Disk}
use colui.Adapters.Registry.Writes.{temp_of}
use colui.Adapters.Registry.Format.{Serde, ReadsBack}
use colui.Adapters.Registry.Lock.{RegistryConfig, LockAttempts}
use colui.Adapters.Registry.Store.{load_bytes, mutate, empty_snapshot}
use colui.Adapters.Registry.Stored.{stored, load_bytes-ok}
use colui.Adapters.Registry.Mutated.{mutate-Stores}

abbrev pub snapshot_or_empty : Result AppError RegistrySnapshot → RegistrySnapshot
snapshot_or_empty (ok t) = t
snapshot_or_empty (err e) = empty_snapshot

module _ ⦃u : Uuids⦄ (s : Serde) (config : RegistryConfig) (uuid : ℕ) (attempts : LockAttempts)
    (generated : ProfileId) where
  abbrev pub registry_services : Services Disk
  registry_services = record {
    generate = λ d. (generated, d);
    acquire_mutation = λ d. (ok tt, d);
    drop_mutation = λ d. d;
    load = load_bytes s config;
    mutate = mutate s config attempts uuid;
  }

  -- What the registry's file holds; a file that cannot be decoded holds nothing.
  abbrev pub kept_snapshot : Disk → RegistrySnapshot
  kept_snapshot d = snapshot_or_empty (stored s config d)

  pub kept_snapshot-ok :
      (d : Disk) (t : RegistrySnapshot) → stored s config d ≡ ok t → kept_snapshot d ≡ t
  kept_snapshot-ok d t h = ap snapshot_or_empty h

  -- The registry keeps the laws of a store. Conditions: serde_json reads back what it prints, the
  -- lock's file and the temporary file are not the registry's file, and the latter is in a directory.
  unfoldable pub registry_laws :
      ReadsBack s
      → (parent : FilePath) → parent_absolute config.canonical_path ≡ some parent
      → (temp_of parent uuid == config.canonical_path) ≡ false
      → (config.lock_path == config.canonical_path) ≡ false
      → StoreLaws registry_services
  registry_laws reads parent at_parent temp_apart lock_apart = record {
    stored = kept_snapshot;
    mutate_ok = λ f d t h.
        let (before, (made, (there, (changed, (well, (alike, keeps)))))) =
          mutate-Stores s config reads uuid parent at_parent temp_apart attempts f d t lock_apart
            h in
        let same : before ≡ kept_snapshot d = sym (kept_snapshot-ok d before there) in
        (
          made,
          (
            ap f (sym same) ∙ changed,
            (
              alike,
              elim keeps [
                | inl (differs, (next, now)) ↦
                    inl (kept_snapshot-ok (mutate s config attempts uuid f d).1 t now)
                | inr (equal, (next, now)) ↦ inr (
                  rw (sym same) equal,
                  kept_snapshot-ok (mutate s config attempts uuid f d).1 before now ∙ same,
                )
              ],
            ),
          ),
        );
    generate_stored = λ d. refl;
    acquire_stored = λ d. refl;
    drop_stored = λ d. refl;
    load_ok = λ d t h. sym (kept_snapshot-ok d t (load_bytes-ok s config d t h));
  }
