-- ===== src/Adapters/Definitions/Access.antt =====
-- `access` of crates/colui-adapters/src/definitions.rs: its sections, with what happens between them.
use colui.Prelude.{
  String, [], ◌⊎◌, ℕ, ◌≡◌, refl, Bool, true, false, not, ◌&&◌, ◌||◌, List, Option, none, some,
  Result, ok, err, find, if◌then◌else◌, Option-cases, Result-cases, Bool-cases, inl, inr, nat_eq,
  is_ok, is_some,
}
use colui.Prelude.Map.{lookup}
use colui.Domain.Text.{Uuids}
use colui.Domain.AppError.{
  AppError, ProfileId, app_error, definition_failed, operation_conflict, profile_not_found,
}
use colui.Domain.Inventory.{Timestamp, ProjectDefinition, DefinitionState}
use colui.Domain.Profile.{ProjectProfile}
use colui.App.Profiles.Mutations.{RegistrySnapshot, has_id}
use colui.App.Recovery.Restore.{RegistrySnapshotIdentity}
use colui.App.Operations.{DefinitionBusy}
use colui.Adapters.Definitions.Cache.{
  CacheState, CachedDefinition, DefinitionProjection, retained, to_projection, note_registry,
  is_fresh, epoch_of, end_load, Loaded,
}
use colui.Adapters.Definitions.Invalidation.{Change, apply_all}

-- What the lock manager, the registry, the clock and the runtime answer to one call, and what other
-- calls do between its sections.
pub record Answers : Type 0 where
  pub busy : Option DefinitionBusy
  pub canonical : Result AppError (RegistrySnapshot × Option RegistrySnapshotIdentity)
  pub before_lookup : List Change
  pub before_load : List Change
  pub during_load : List Change
  pub result : Result AppError Loaded
  pub completed_mono : ℕ
  pub now : Timestamp

module _ ⦃u : Uuids⦄ where
  abbrev pub definition_busy_error : ProfileId → DefinitionBusy → AppError
  definition_busy_error id DefinitionBusy.lifecycle_pending =
      app_error operation_conflict "definition" (some id) "lifecycle operation has priority"
  definition_busy_error id DefinitionBusy.definition_active =
      app_error operation_conflict "definition" (some id) "definition load already active"

  abbrev pub compose_config_error : ProfileId → AppError
  compose_config_error id =
      app_error definition_failed "definition" (some id) "compose config failed"

  abbrev load_profile :
      ProfileId
      → ProjectProfile
      → Answers
      → CacheState
      → Result AppError DefinitionProjection × CacheState
  load_profile id profile a s =
      let ended =
        end_load id (epoch_of id s) profile.revision a.now a.completed_mono a.result
          (apply_all a.during_load s) in
      (ok ended.0, ended.1)

  abbrev use_fresh :
      ProfileId
      → Bool
      → ℕ
      → ProjectProfile
      → Answers
      → Option CachedDefinition
      → CacheState
      → Result AppError DefinitionProjection × CacheState
  use_fresh id force start profile a none s = load_profile id profile a (apply_all a.before_load s)
  use_fresh id force start profile a (some entry) s =
      if not force && is_fresh profile.revision start (some entry)
      then (ok (to_projection id entry), s)
      else load_profile id profile a (apply_all a.before_load s)

  abbrev with_profile :
      ProfileId
      → Bool
      → ℕ
      → Answers
      → Option RegistrySnapshotIdentity
      → Option ProjectProfile
      → CacheState
      → Result AppError DefinitionProjection × CacheState
  with_profile id force start a identity none s =
      (err (app_error profile_not_found "definition" (some id) "profile not found"), s)
  with_profile id force start a identity (some profile) s =
      let noted = apply_all a.before_lookup (note_registry id profile.revision identity s) in
      use_fresh id force start profile a (lookup id noted.entries) noted

  abbrev with_registry :
      ProfileId
      → Bool
      → ℕ
      → Answers
      → Result AppError (RegistrySnapshot × Option RegistrySnapshotIdentity)
      → CacheState
      → Result AppError DefinitionProjection × CacheState
  with_registry id force start a (err e) s = (err e, s)
  with_registry id force start a (ok (registry, identity)) s =
      with_profile id force start a identity (find (has_id id) registry.profiles) s

  abbrev with_guard :
      ProfileId
      → Bool
      → ℕ
      → Answers
      → Option DefinitionBusy
      → CacheState
      → Result AppError DefinitionProjection × CacheState
  with_guard id force start a (some busy) s =
      (ok (retained id (lookup id s.entries) (some (definition_busy_error id busy))), s)
  with_guard id force start a none s = with_registry id force start a a.canonical s

  -- `access`, begun at a monotonic time
  unfoldable pub access :
      ProfileId
      → Bool
      → ℕ
      → Answers
      → CacheState
      → Result AppError DefinitionProjection × CacheState
  unfolding apply_all
  access id force start a s = with_guard id force start a a.busy s

  abbrev pub registered :
      ProfileId → Result AppError (RegistrySnapshot × Option RegistrySnapshotIdentity) → Bool
  registered id (err e) = false
  registered id (ok (registry, identity)) = is_some (find (has_id id) registry.profiles)

  use_fresh-ok :
      (id : ProfileId) (force : Bool) (start : ℕ) (profile : ProjectProfile) (a : Answers)
      (entry : Option CachedDefinition) (s : CacheState)
      → is_ok (use_fresh id force start profile a entry s).0 ≡ true
  use_fresh-ok id force start profile a none s = refl
  use_fresh-ok id force start profile a (some entry) s =
      elim (Bool-cases (not force && is_fresh profile.revision start (some entry))) [
        | inl e ↦ rw e refl
        | inr e ↦ rw e refl
      ]

  abbrev pub busy_message : DefinitionBusy → String
  busy_message DefinitionBusy.lifecycle_pending = "lifecycle operation has priority"
  busy_message DefinitionBusy.definition_active = "definition load already active"

  -- What is known of a definition that cannot be looked at: what is cached, as stale.
  abbrev pub known_stale : ProfileId → Option CachedDefinition → ProjectDefinition
  known_stale id none = record {
    profile_id = id;
    definition_revision = [];
    loaded_at = [];
    state = DefinitionState.unchecked;
    services = [];
    issues = [];
  }
  known_stale id (some entry) = record {
    profile_id = id;
    definition_revision = entry.definition_revision;
    loaded_at = entry.loaded_at;
    state = DefinitionState.stale;
    services = entry.services;
    issues = entry.issues;
  }

  known_stale-retained :
      (id : ProfileId) (entry : Option CachedDefinition) (e : AppError)
      → retained id entry (some e) ≡ record { definition = known_stale id entry; error = some e }
  known_stale-retained id none e = refl
  known_stale-retained id (some entry) e = refl

  definition_busy_error-says :
      (id : ProfileId) (busy : DefinitionBusy)
      → ((definition_busy_error id busy).code ≡ operation_conflict)
        × ((definition_busy_error id busy).message ≡ busy_message busy)
  definition_busy_error-says id DefinitionBusy.lifecycle_pending = (refl, refl)
  definition_busy_error-says id DefinitionBusy.definition_active = (refl, refl)

  access-is_ok :
      (id : ProfileId) (force : Bool) (start : ℕ) (a : Answers) (s : CacheState)
      → is_ok (access id force start a s).0 ≡ (is_some a.busy || registered id a.canonical)
  unfolding access
  access-is_ok id force start a s = elim (Option-cases a.busy) [
    | inr (busy, e) ↦ rw e refl
    | inl e ↦ elim (Result-cases a.canonical) [
      | inr (f, g) ↦ rw (e, g) refl
      | inl ((registry, identity), g) ↦ elim (Option-cases (find (has_id id) registry.profiles)) [
        | inl k ↦ rw (e, g, k) refl
        | inr (profile, k) ↦
            let noted = apply_all a.before_lookup (note_registry id profile.revision identity s) in
            rw (e, g, k) (use_fresh-ok id force start profile a (lookup id noted.entries) noted)
      ]
    ]
  ]

  -- A call is an error only if the lock on the definition is free, and the registry cannot be read
  -- or does not have the profile. If the lock is held the cache stays as it is, and the answer is
  -- what it has of the definition, as stale, with an error that names the conflict.
  pub access-answers :
      (id : ProfileId) (force : Bool) (start : ℕ) (a : Answers) (s : CacheState)
      → (is_ok (access id force start a s).0 ≡ (is_some a.busy || registered id a.canonical))
        × ((a.busy ≡ none)
            ⊎ ((busy : DefinitionBusy) × (error : AppError) × (a.busy ≡ some busy)
                × (access id force start a s ≡ (
                  ok (record {
                    definition = known_stale id (lookup id s.entries);
                    error = some error;
                  }),
                  s,
                ))
                × (error.code ≡ operation_conflict)
                × (error.message ≡ busy_message busy)))
  unfolding access
  access-answers id force start a s = (
    access-is_ok id force start a s,
    elim (Option-cases a.busy) [
      | inl e ↦ inl e
      | inr (busy, e) ↦ inr (
        busy,
        definition_busy_error id busy,
        e,
        rw e (
            rw (known_stale-retained id (lookup id s.entries) (definition_busy_error id busy))
              refl),
        (definition_busy_error-says id busy).0,
        (definition_busy_error-says id busy).1,
      )
    ],
  )
