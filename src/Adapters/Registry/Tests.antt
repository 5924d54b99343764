-- ===== src/Adapters/Registry/Tests.antt =====
-- The registry's file (crates/colui-adapters/src/registry/format.rs) on a disk of a few files. The
-- format of these tests prints registries of at most one profile with names and paths of one byte.
use colui.Prelude.{
  ◌⊎◌, ℕ, ◌<◌, get_elem?, ◌≡◌, refl, ◌∙◌, ap, sym, List, [], ◌∷◌, ◌++◌, none, some, Result, ok, err,
  and_then, arith, inl, String, true, false, ◌-◌, ◌≤◌, list_eq, nat_eq, is_ok,
}
use colui.Prelude.Map.{lookup, insert, remove}
use colui.Domain.Text.{Text, Uuids, bytes}
use colui.Domain.FilePath.{FilePath, push, components, parent_absolute, with_extension_absolute}
use colui.Domain.Profile.{ProjectProfile, manual, RegistrationOrigin}
use colui.Domain.AppError.{AppError}
use colui.App.Profiles.Mutations.{RegistrySnapshot, ProfilePatch, update_mutation, remove_mutation}
use colui.App.Profiles.Lists.{is_unique}
use colui.App.Profiles.Validity.{WellFormed}
use colui.Domain.Profile.{has_duplicate, validate_draft}
use colui.Adapters.Registry.Disk.{
  Disk, file_call, touch, read, open_or_create, create_new, write_all, rename, remove_file,
}
use colui.Adapters.Registry.Frames.{then_do, pure_step, or_io}
use colui.Adapters.Registry.Writes.{atomic_write, or_clean_up, write_synced, replace_synced}
use colui.Adapters.Registry.Atomicity.{Replaces, atomic_write-Replaces}
use colui.Domain.Profile.Equality.{profiles_eq, profile_eq}
use colui.Adapters.Registry.Format.{
  Serde, ReadsBack, RegistryFile, RegistryProfile, decode, encode, validate_snapshot,
  validate_profiles, snapshot_eq,
}
use colui.Adapters.Registry.RoundTrip.{decode-encode}
use colui.Adapters.Registry.Lock.{
  RegistryConfig, LockAttempts, min, acquires, blocked, in_directory, lock, lock_loop, is_locked,
}
use colui.Adapters.Registry.Store.{load_bytes, mutate, RegistryHistory}
use colui.Adapters.Registry.Stored.{stored}
use colui.Adapters.Registry.Mutated.{Stores, mutate-Stores}
use colui.Adapters.Registry.Artifacts.{
  prune_artifacts, artifacts_of, remove_each, read_artifacts, sort_by_name, insert_sorted, text_le,
  preserve_canonical,
}
use colui.Adapters.Registry.Recovery.{
  restored_of, advance_profiles, restore_backup_attempt, read_optional, replace_registry, decoded,
  backup_path,
}
use colui.Adapters.Registry.ProfileStore.{registry_services, registry_laws}
use colui.App.Profiles.Services.{Services, StoreLaws}
use colui.App.Profiles.Operations.{create_profile, update_profile, remove_profile}
use colui.App.Profiles.Outcomes.{create_profile-ok, update_profile-ok, remove_profile-ok}
use colui.App.Profiles.Lookup.{view, effect}
use colui.App.Profiles.Validity.{Mutation, create, update, draft_of}
use colui.App.Profiles.Lists.{is_unique}
use colui.App.Profiles.Mutations.{
  create_mutation, updated_profile, replace_first, remove_first, get_profile,
}
use colui.Domain.Profile.{profile_of_draft, from_draft}
use colui.Domain.AppError.{ProfileId}
use colui.Adapters.Registry.Waits.{lock_loop-waits, tries_from, planned, HeldAt}
use colui.Adapters.Registry.Pruned.{is_copy, prune_artifacts-keeps_last}
use colui.Adapters.Registry.Restored.{restored_of-refuses_stale}
use colui.Adapters.Registry.Restoring.{restore-stores}

instance abbrev test_uuids : Uuids
test_uuids = record { to_text = λ n. n ∷ []; parse_str = λ t. none }

abbrev single : {A : Type 0} → List A → Result String A
single [] = err "not one"
single (x ∷ []) = ok x
single (x ∷ y ∷ ys) = err "not one"

abbrev no_files : List FilePath → Result String (Unit {0})
no_files [] = ok tt
no_files (p ∷ ps) = err "not none"

abbrev is_manual : RegistrationOrigin → Result String (Unit {0})
is_manual RegistrationOrigin.manual = ok tt
is_manual _ = err "not manual"

abbrev print_profile : RegistryProfile → Result String Text
print_profile p = and_then (single p.display_name) (λ d.
    and_then (single p.compose_project_name) (λ n. and_then (single p.working_directory) (λ w.
      and_then (single p.compose_files) (λ f. and_then (single f) (λ c.
        and_then (no_files p.environment_files) (λ _.
          and_then (is_manual p.registration_origin)
            (λ _. ok (p.id ∷ p.revision ∷ d ∷ n ∷ w ∷ c ∷ []))))))))

abbrev print_profiles : List RegistryProfile → Result String Text
print_profiles [] = ok []
print_profiles (p ∷ []) = print_profile p
print_profiles (p ∷ q ∷ qs) = err "too many"

abbrev read_file : Text → Result String RegistryFile
read_file (v ∷ r ∷ []) = ok (record { schema_version = v; registry_revision = r; profiles = [] })
read_file (v ∷ r ∷ i ∷ k ∷ d ∷ n ∷ w ∷ c ∷ []) = ok (record {
  schema_version = v;
  registry_revision = r;
  profiles =
      record {
        id = i;
        revision = k;
        display_name = d ∷ [];
        compose_project_name = n ∷ [];
        working_directory = w ∷ [];
        compose_files = (c ∷ []) ∷ [];
        environment_files = [];
        registration_origin = manual;
      }
      ∷ [];
})
read_file _ = err "no registry"

abbrev test_serde : Serde
test_serde = record {
  from_slice = read_file;
  to_vec_pretty = λ f.
      and_then (print_profiles f.profiles) (λ t. ok (f.schema_version ∷ f.registry_revision ∷ t));
  digest = λ t. t;
}

and_then-ok :
    {A B : Type 0} (r : Result String A) (f : A → Result String B) (b : B)
    → and_then r f ≡ ok b
    → (a : A) × ((r ≡ ok a) × (f a ≡ ok b))
and_then-ok (ok a) f b h = (a, (refl, h))
and_then-ok (err e) f b h = cc

single-ok : {A : Type 0} (xs : List A) (x : A) → single xs ≡ ok x → xs ≡ x ∷ []
single-ok [] x h = cc
single-ok (y ∷ []) x h = ground arith
single-ok (y ∷ z ∷ zs) x h = cc

no_files-ok : (ps : List FilePath) → no_files ps ≡ ok tt → ps ≡ []
no_files-ok [] h = refl
no_files-ok (p ∷ ps) h = cc

is_manual-ok : (o : RegistrationOrigin) → is_manual o ≡ ok tt → o ≡ manual
is_manual-ok RegistrationOrigin.manual h = refl
is_manual-ok _ h = cc

read_file-one :
    (v r : ℕ) (p : RegistryProfile) (d n w c : ℕ)
    → p.display_name ≡ d ∷ []
    → p.compose_project_name ≡ n ∷ []
    → p.working_directory ≡ w ∷ []
    → p.compose_files ≡ (c ∷ []) ∷ []
    → p.environment_files ≡ []
    → p.registration_origin ≡ manual
    → read_file (v ∷ r ∷ p.id ∷ p.revision ∷ d ∷ n ∷ w ∷ c ∷ [])
      ≡ ok (record { schema_version = v; registry_revision = r; profiles = p ∷ [] })
read_file-one v r p d n w c e1 e2 e3 e4 e5 e6 = ground arith

print_profile-ok :
    (v r : ℕ) (p : RegistryProfile) (t : Text)
    → print_profile p ≡ ok t
    → read_file (v ∷ r ∷ t)
      ≡ ok (record { schema_version = v; registry_revision = r; profiles = p ∷ [] })
print_profile-ok v r p t h =
    let (d, (e1, h1)) = and_then-ok (single p.display_name) _ t h in
    let (n, (e2, h2)) = and_then-ok (single p.compose_project_name) _ t h1 in
    let (w, (e3, h3)) = and_then-ok (single p.working_directory) _ t h2 in
    let (f, (e4, h4)) = and_then-ok (single p.compose_files) _ t h3 in
    let (c, (e5, h5)) = and_then-ok (single f) _ t h4 in
    let (_, (e6, h6)) = and_then-ok (no_files p.environment_files) _ t h5 in
    let (_, (e7, h7)) = and_then-ok (is_manual p.registration_origin) _ t h6 in
    let whole : p.id ∷ p.revision ∷ d ∷ n ∷ w ∷ c ∷ [] ≡ t = ground arith in
    ap (λ x. read_file (v ∷ r ∷ x)) (sym whole)
    ∙ read_file-one v r p d n w c (single-ok p.display_name d e1)
        (single-ok p.compose_project_name n e2) (single-ok p.working_directory w e3)
        (single-ok p.compose_files f e4 ∙ ap (λ x. x ∷ []) (single-ok f c e5))
        (no_files-ok p.environment_files e6) (is_manual-ok p.registration_origin e7)

print_profiles-ok :
    (v r : ℕ) (ps : List RegistryProfile) (t : Text)
    → print_profiles ps ≡ ok t
    → read_file (v ∷ r ∷ t)
      ≡ ok (record { schema_version = v; registry_revision = r; profiles = ps })
print_profiles-ok v r [] t h = let e : [] ≡ t = ground arith in rw (sym e) refl
print_profiles-ok v r (p ∷ []) t h = print_profile-ok v r p t h
print_profiles-ok v r (p ∷ q ∷ qs) t h = cc

test_serde-ReadsBack : ReadsBack test_serde
test_serde-ReadsBack f b h =
    let (t, (e, k)) = and_then-ok (print_profiles f.profiles) _ b h in
    let whole : f.schema_version ∷ f.registry_revision ∷ t ≡ b = ground arith in
    rw (sym whole) (print_profiles-ok f.schema_version f.registry_revision f.profiles t e)

abbrev config : RegistryConfig
config = record {
  canonical_path = bytes "/data/registry.json";
  lock_path = bytes "/data/registry.lock";
  lock_timeout = 5000;
}

in_directory_files : in_directory (bytes "/data") ≡ config
unfolding in_directory push
in_directory_files = refl

abbrev web : ProjectProfile
web = record {
  id = 7;
  revision = 1;
  display_name = b'w' ∷ [];
  compose_project_name = b'w' ∷ [];
  working_directory = bytes "/";
  compose_files = (b'c' ∷ []) ∷ [];
  environment_files = [];
  registration_origin = manual;
}

abbrev one_profile : RegistrySnapshot
one_profile = record { registry_revision = 3; profiles = web ∷ [] }

abbrev web_text : ℕ → ℕ → Text
web_text r k = 2 ∷ r ∷ 7 ∷ k ∷ b'w' ∷ b'w' ∷ b'/' ∷ b'c' ∷ []

-- A disk without a registry, one with a registry and its backup, and one with four copies.
abbrev empty_disk : Disk
empty_disk = record { files = []; faults = [] }

abbrev copy : Text → FilePath
copy name = bytes "/data/registry.pre-restore." ++ name

abbrev full_disk : Disk
full_disk = record {
  files =
      (bytes "/data/registry.json", web_text 9 5)
      ∷ (bytes "/data/registry.json.bak", web_text 3 1)
      ∷ (copy (bytes "4"), [])
      ∷ (copy (bytes "2"), [])
      ∷ (copy (bytes "1"), [])
      ∷ (copy (bytes "3"), [])
      ∷ [];
  faults = [];
}

abbrev history : RegistryHistory
history = record {
  last_operation_at = none;
  last_failure_at = none;
  latest_failure = none;
  last_recovery_result = none;
}

abbrev no_patch : ProfilePatch
no_patch = record {
  display_name = none;
  compose_project_name = none;
  working_directory = none;
  compose_files = none;
  environment_files = none;
}

-- The registry with one profile, made of an empty one.
abbrev add_web : RegistrySnapshot → Result AppError RegistrySnapshot
add_web s = ok one_profile

atomic_write-Replaces_example :
    Replaces
      (bytes "/data/registry.json")
      (web_text 3 1)
      (atomic_write 1 (bytes "/data/registry.json") (web_text 3 1))
unfolding parent_absolute push
atomic_write-Replaces_example =
    atomic_write-Replaces 1 (bytes "/data/registry.json") (web_text 3 1) (bytes "/data") refl refl

decode-encode_example : decode test_serde (web_text 3 1) ≡ ok one_profile
unfolding encode is_unique has_duplicate validate_draft components
decode-encode_example =
    decode-encode test_serde one_profile (web_text 3 1) test_serde-ReadsBack (refl, refl) refl

mutate-Stores_example :
    (before : RegistrySnapshot) × ((made : RegistrySnapshot) × ((stored test_serde config empty_disk
          ≡ ok before)
        × ((add_web before ≡ ok made)
            × (WellFormed made
                × Stores test_serde config before made
                    (record one_profile { registry_revision = 1 })
                    (mutate test_serde config acquires 1 add_web empty_disk).1))))
unfolding parent_absolute push mutate lock lock_loop then_do pure_step or_io touch read
    open_or_create load_bytes file_call encode decode validate_snapshot validate_profiles
    validate_draft has_duplicate components profiles_eq profile_eq atomic_write or_clean_up
    write_synced replace_synced create_new write_all rename remove_file snapshot_eq lookup insert
    remove
mutate-Stores_example =
    mutate-Stores test_serde config test_serde-ReadsBack 1 (bytes "/data") refl refl acquires
      add_web empty_disk (record one_profile { registry_revision = 1 }) refl refl

-- The lock is held three times, then at the timeout.
abbrev held_on : LockAttempts
held_on = blocked 0 0 (blocked 6 6 (blocked 4998 4998 (blocked 5000 5001 acquires)))

lock_loop-waits_example :
    ((k slept : ℕ)
      → get_elem? (5 ∷ 10 ∷ 2 ∷ []) k ≡ some slept
      → (elapsed : ℕ) × (later : ℕ) × HeldAt (tries_from k held_on) elapsed later
        × (elapsed < 5000)
        × (slept ≡ min (planned k) (5000 - later)))
    × ((5000 ≤ 5000) × ((lock_loop 5000 5 held_on).0 ≡ err is_locked))
unfolding lock_loop
lock_loop-waits_example = lock_loop-waits 5000 held_on

prune_artifacts-keeps_last_example :
    ((lookup (copy (bytes "1")) (prune_artifacts config full_disk).1.files ≡ some [])
      ⊎ ((lookup (copy (bytes "1")) (prune_artifacts config full_disk).1.files ≡ none)
          × (is_copy (bytes "/data") (copy (bytes "1")) ≡ true)
          × (3 < 4)))
    × (3 ≤ 3)
unfolding parent_absolute prune_artifacts remove_each then_do pure_step or_io read_artifacts
    artifacts_of sort_by_name insert_sorted text_le file_call remove_file lookup remove
prune_artifacts-keeps_last_example =
    prune_artifacts-keeps_last config (bytes "/data") (copy (bytes "1")) full_disk refl refl

abbrev in_registry : RegistrySnapshot
in_registry = record { registry_revision = 9; profiles = record web { revision = 5 } ∷ [] }

abbrev restored : RegistrySnapshot
restored = record { registry_revision = 10; profiles = record web { revision = 6 } ∷ [] }

restored_of-refuses_stale_example :
    (is_ok (update_mutation 7 5 no_patch restored) ≡ false)
    × (is_ok (remove_mutation 7 5 restored) ≡ false)
unfolding restored_of advance_profiles
restored_of-refuses_stale_example =
    restored_of-refuses_stale test_serde config (some in_registry) one_profile restored
      (record web { revision = 5 }) no_patch refl (inl refl)

restore-stores_example :
    (initial : Text) × ((backup : RegistrySnapshot) × ((lookup (backup_path config) full_disk.files
          ≡ some initial)
        × ((decode test_serde initial ≡ ok backup)
            × ((restored_of test_serde config
                    (decoded test_serde config (lookup config.canonical_path full_disk.files))
                    backup
                  ≡ ok restored)
                × (stored test_serde config
                      (restore_backup_attempt test_serde config acquires
                        (bytes "now")
                        2
                        1
                        full_disk).1
                    ≡ ok restored)))))
unfolding parent_absolute push lock lock_loop then_do pure_step or_io touch read open_or_create
    load_bytes file_call encode decode validate_snapshot validate_profiles validate_draft
    has_duplicate components profiles_eq profile_eq atomic_write or_clean_up write_synced
    replace_synced create_new write_all rename remove_file snapshot_eq lookup insert remove
    restore_backup_attempt read_optional replace_registry restored_of advance_profiles
    with_extension_absolute preserve_canonical
restore-stores_example =
    restore-stores test_serde config test_serde-ReadsBack 1 (bytes "/data") refl refl acquires
      (bytes "now") 2 full_disk restored refl refl

-- The operations on profiles, on the registry's file; the id 7 is generated.
abbrev registry : Services Disk
registry = registry_services test_serde config 1 acquires 7

laws : StoreLaws registry
unfolding parent_absolute push
laws =
    registry_laws test_serde config 1 acquires 7 test_serde-ReadsBack (bytes "/data") refl refl refl

abbrev renamed : ProfilePatch
renamed = record no_patch { display_name = some (b's' ∷ []) }

create_profile-ok_example :
    (web ≡ profile_of_draft 7 (draft_of web))
    × ((j : ProfileId)
        → view (laws.stored (create_profile registry (draft_of web) empty_disk).1) j
          ≡ effect (create 7 (draft_of web)) (view (laws.stored empty_disk)) j)
unfolding laws registry_laws create_profile update_profile remove_profile create_mutation
    update_mutation remove_mutation updated_profile replace_first remove_first get_profile
    from_draft is_unique parent_absolute push mutate lock lock_loop then_do pure_step or_io touch
    read open_or_create load_bytes file_call encode decode validate_snapshot validate_profiles
    validate_draft has_duplicate components profiles_eq profile_eq atomic_write or_clean_up
    write_synced replace_synced create_new write_all rename remove_file snapshot_eq lookup insert
    remove
create_profile-ok_example = create_profile-ok registry laws (draft_of web) empty_disk web refl refl

update_profile-ok_example :
    (view (laws.stored (update_profile registry 7 5 renamed full_disk).1) 7
      ≡ some (record web { display_name = b's' ∷ []; revision = 6 }))
    × ((j : ProfileId)
        → view (laws.stored (update_profile registry 7 5 renamed full_disk).1) j
          ≡ effect (update 7 5 renamed) (view (laws.stored full_disk)) j)
unfolding laws registry_laws create_profile update_profile remove_profile create_mutation
    update_mutation remove_mutation updated_profile replace_first remove_first get_profile
    from_draft is_unique parent_absolute push mutate lock lock_loop then_do pure_step or_io touch
    read open_or_create load_bytes file_call encode decode validate_snapshot validate_profiles
    validate_draft has_duplicate components profiles_eq profile_eq atomic_write or_clean_up
    write_synced replace_synced create_new write_all rename remove_file snapshot_eq lookup insert
    remove
update_profile-ok_example =
    update_profile-ok registry laws 7 5 renamed full_disk
      (record web { display_name = b's' ∷ []; revision = 6 }) refl refl

remove_profile-ok_example :
    view (laws.stored (remove_profile registry 7 5 full_disk).1) 7
    ≡ effect (Mutation.remove 7 5) (view (laws.stored full_disk)) 7
unfolding laws registry_laws create_profile update_profile remove_profile create_mutation
    update_mutation remove_mutation updated_profile replace_first remove_first get_profile
    from_draft is_unique parent_absolute push mutate lock lock_loop then_do pure_step or_io touch
    read open_or_create load_bytes file_call encode decode validate_snapshot validate_profiles
    validate_draft has_duplicate components profiles_eq profile_eq atomic_write or_clean_up
    write_synced replace_synced create_new write_all rename remove_file snapshot_eq lookup insert
    remove
remove_profile-ok_example = remove_profile-ok registry laws 7 5 full_disk refl refl 7
