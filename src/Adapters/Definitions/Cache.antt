-- ===== src/Adapters/Definitions/Cache.antt =====
-- crates/colui-adapters/src/definitions.rs: the state of the cache and what changes it.
use colui.Prelude.{
  ℕ, ◌+◌, ◌-◌, ◌%◌, ◌^◌, Bool, true, false, not, ◌&&◌, List, [], ◌∷◌, Option, none, some, Result,
  ok, err, if◌then◌else◌, ltb, ◌==◌, nat_eq, list_eq, option_eq, unwrap_or, is_some,
}
use colui.Prelude.Map.{Map, lookup, insert, remove}
use colui.Domain.AppError.{AppError, ProfileId}
use colui.Domain.Identity.{Revision}
use colui.Domain.Inventory.{
  DefinitionRevision, DefinitionState, Issue, ProjectDefinition, ServiceDefinition, Timestamp,
}
use colui.App.Recovery.Restore.{RegistrySnapshotIdentity}

-- Times are counted in seconds.
pub record CachedDefinition : Type 0 where
  pub profile_revision : Revision
  pub definition_revision : DefinitionRevision
  pub loaded_at : Timestamp
  pub loaded_mono : ℕ
  pub state : DefinitionState
  pub services : List ServiceDefinition
  pub issues : List Issue
  pub load_error : Option AppError

pub record CacheState : Type 0 where
  pub entries : Map ProfileId CachedDefinition
  pub epoch : Map ProfileId ℕ
  pub revisions : Map ProfileId Revision
  pub generation : ℕ
  pub registry_identity : Option (Option RegistrySnapshotIdentity)

abbrev pub empty_cache : CacheState
empty_cache = record {
  entries = [];
  epoch = [];
  revisions = [];
  generation = 0;
  registry_identity = none;
}

pub record DefinitionProjection : Type 0 where
  pub definition : ProjectDefinition
  pub error : Option AppError

abbrev pub to_definition : ProfileId → CachedDefinition → ProjectDefinition
to_definition id entry = record {
  profile_id = id;
  definition_revision = entry.definition_revision;
  loaded_at = entry.loaded_at;
  state = entry.state;
  services = entry.services;
  issues = entry.issues;
}

abbrev pub to_projection : ProfileId → CachedDefinition → DefinitionProjection
to_projection id entry = record { definition = to_definition id entry; error = entry.load_error }

abbrev first_error : Option AppError → Option AppError → Option AppError
first_error (some e) other = some e
first_error none other = other

abbrev pub retained : ProfileId → Option CachedDefinition → Option AppError → DefinitionProjection
retained id none error = record {
  definition = record {
    profile_id = id;
    definition_revision = [];
    loaded_at = [];
    state = DefinitionState.unchecked;
    services = [];
    issues = [];
  };
  error = error;
}
retained id (some entry) error = record {
  definition = to_definition id (record entry { state = DefinitionState.stale });
  error = first_error error entry.load_error;
}

-- `generation.wrapping_add(1)`
abbrev pub next_generation : ℕ → ℕ
next_generation g = (g + 1) % 2 ^ 64

abbrev pub epoch_of : ProfileId → CacheState → ℕ
epoch_of id s = unwrap_or (lookup id s.epoch) 0

-- `*epoch += 1` for every value
unfoldable pub advance_epochs : Map ProfileId ℕ → Map ProfileId ℕ
advance_epochs [] = []
advance_epochs ((id, e) ∷ m) = (id, e + 1) ∷ advance_epochs m

abbrev identity_eq : RegistrySnapshotIdentity → RegistrySnapshotIdentity → Bool
identity_eq a b =
    a.registry_revision == b.registry_revision
    && a.canonical_content_sha256 == b.canonical_content_sha256

abbrev optional_eq : Option RegistrySnapshotIdentity → Option RegistrySnapshotIdentity → Bool
optional_eq none none = true
optional_eq (some a) (some b) = identity_eq a b
optional_eq _ _ = false

abbrev pub is_registry :
    Option (Option RegistrySnapshotIdentity) → Option RegistrySnapshotIdentity → Bool
is_registry none identity = false
is_registry (some seen) identity = optional_eq seen identity

abbrev pub forget_all : Option RegistrySnapshotIdentity → CacheState → CacheState
forget_all identity s = record {
  entries = [];
  epoch = advance_epochs s.epoch;
  revisions = [];
  generation = next_generation s.generation;
  registry_identity = some identity;
}

-- The section of `access` that notes which registry the profile was read of.
unfoldable pub note_registry :
    ProfileId → Revision → Option RegistrySnapshotIdentity → CacheState → CacheState
unfolding advance_epochs insert
note_registry id revision identity s =
    let seen : CacheState =
      if not (is_registry s.registry_identity identity) then forget_all identity s else s in
    record seen { revisions = insert id revision seen.revisions }

-- What a load gives: the definition's revision, its services and its issues.
abbrev pub Loaded : Type 0
Loaded = DefinitionRevision × (List ServiceDefinition × List Issue)

abbrev state_of : List Issue → DefinitionState
state_of [] = DefinitionState.valid
state_of (issue ∷ issues) = DefinitionState.invalid

abbrev pub new_entry : Revision → Timestamp → ℕ → Loaded → CachedDefinition
new_entry revision now mono (definition_revision, (services, issues)) = record {
  profile_revision = revision;
  definition_revision = definition_revision;
  loaded_at = now;
  loaded_mono = mono;
  state = state_of issues;
  services = services;
  issues = issues;
  load_error = none;
}

abbrev fail_entry : ProfileId → AppError → Option CachedDefinition → CacheState → CacheState
fail_entry id e none s = s
fail_entry id e (some entry) s = record s {
  entries =
      insert id (record entry { state = DefinitionState.stale; load_error = some e }) s.entries;
  generation = next_generation s.generation;
}

-- What a load that is still wanted does with its result.
abbrev pub store_result :
    ProfileId
    → Revision
    → Timestamp
    → ℕ
    → Result AppError Loaded
    → CacheState
    → DefinitionProjection × CacheState
store_result id revision now mono (ok loaded) s = (
  to_projection id (new_entry revision now mono loaded),
  record s {
    entries = insert id (new_entry revision now mono loaded) s.entries;
    generation = next_generation s.generation;
  },
)
store_result id revision now mono (err e) s =
    let failed = fail_entry id e (lookup id s.entries) s in
    (retained id (lookup id failed.entries) (some e), failed)

abbrev show_current : ProfileId → Option CachedDefinition → DefinitionProjection
show_current id none = retained id none none
show_current id (some entry) = to_projection id entry

-- Whether a load that began in an epoch, for a revision of the profile, is still wanted.
abbrev pub is_wanted : ProfileId → ℕ → Revision → CacheState → Bool
is_wanted id epoch revision s = epoch_of id s == epoch && lookup id s.revisions == some revision

-- The section of `access` that ends a load.
unfoldable pub end_load :
    ProfileId
    → ℕ
    → Revision
    → Timestamp
    → ℕ
    → Result AppError Loaded
    → CacheState
    → DefinitionProjection × CacheState
unfolding lookup insert
end_load id epoch revision now mono result s =
    if is_wanted id epoch revision s
    then store_result id revision now mono result s
    else (show_current id (lookup id s.entries), s)

-- `invalidate`
unfoldable pub invalidate : ProfileId → CacheState → CacheState
unfolding lookup insert remove
invalidate id s = record s {
  epoch = insert id (epoch_of id s + 1) s.epoch;
  entries = remove id s.entries;
  generation = if is_some (lookup id s.entries) then next_generation s.generation else s.generation;
}

-- `invalidate_all`
unfoldable pub invalidate_all : CacheState → CacheState
unfolding advance_epochs
invalidate_all s = record s {
  entries = [];
  epoch = advance_epochs s.epoch;
  revisions = [];
  generation = next_generation s.generation;
}

-- Whether an entry is of the profile's revision and younger than 60 seconds.
abbrev pub is_fresh : Revision → ℕ → Option CachedDefinition → Bool
is_fresh revision now none = false
is_fresh revision now (some entry) =
    entry.profile_revision == revision && ltb (now - entry.loaded_mono) 60
