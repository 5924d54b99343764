-- ===== src/Adapters/Definitions/Stored.antt =====
-- What the end of a load of crates/colui-adapters/src/definitions.rs leaves in the cache.
use colui.Prelude.{
  ℕ, ◌≡◌, ◌⊎◌, refl, true, false, List, [], ◌∷◌, Option, none, some, ok, err, Result, all,
  if◌then◌else◌, Bool-cases, Option-cases, inl, inr, nat_eq, ◌∙◌, eqb_iff,
}
use colui.Prelude.Map.{Map, lookup, insert, lookup-insert}
use colui.Domain.AppError.{AppError, ProfileId}
use colui.Domain.Identity.{Revision}
use colui.Domain.Inventory.{
  DefinitionRevision, DefinitionState, Issue, ServiceDefinition, Timestamp,
}
use colui.Adapters.Definitions.Cache.{
  CacheState, CachedDefinition, epoch_of, end_load, is_wanted, store_result, Loaded,
}
use colui.Adapters.Definitions.Invalidation.{
  Change, apply_all, outdated, is_elsewhere, is_wanted-outdated,
}

abbrev pub valid_without : List Issue → DefinitionState
valid_without [] = DefinitionState.valid
valid_without _ = DefinitionState.invalid

-- What the cache shows of a profile whose last load failed: what it had, as stale, with the error.
abbrev pub failed_with : AppError → Option CachedDefinition → Option CachedDefinition
failed_with e none = none
failed_with e (some entry) =
    some (record entry { state = DefinitionState.stale; load_error = some e })

lookup-insert-same :
    (id : ProfileId) (entry : CachedDefinition) (m : Map ProfileId CachedDefinition)
    → lookup id (insert id entry m) ≡ some entry
lookup-insert-same id entry m = lookup-insert id id entry m ∙ rw ((eqb_iff id id).1 refl) refl

module _ (id : ProfileId) (epoch : ℕ) (revision : Revision) (changes : List Change) (s : CacheState)
    (now : Timestamp) (mono : ℕ) where
  lookup-stored :
      (definition_revision : DefinitionRevision) (services : List ServiceDefinition)
      (issues : List Issue) (t : CacheState)
      → lookup id
          (store_result id revision now mono
            (ok (definition_revision, (services, issues)))
            t).1.entries
        ≡ some (record {
          profile_revision = revision;
          definition_revision = definition_revision;
          loaded_at = now;
          loaded_mono = mono;
          state = valid_without issues;
          services = services;
          issues = issues;
          load_error = none;
        })
  lookup-stored definition_revision services [] t = lookup-insert-same id _ t.entries
  lookup-stored definition_revision services (i ∷ is) t = lookup-insert-same id _ t.entries

  lookup-failed :
      (e : AppError) (t : CacheState)
      → lookup id (store_result id revision now mono (err e) t).1.entries
        ≡ failed_with e (lookup id t.entries)
  lookup-failed e t = elim (Option-cases (lookup id t.entries)) [
    | inl f ↦ rw f f
    | inr (entry, f) ↦ rw f (lookup-insert-same id _ t.entries)
  ]

  -- A load that began in the state's epoch of the profile, for the revision that the state has of
  -- it, ends after changes among which no other load of the profile begins. If it is out of date by
  -- then, its end changes nothing. Else, when it succeeds its result is what the cache has of the
  -- profile, and when it fails the cache has what it had, as stale and with the error.
  pub end_load-outdated :
      (definition_revision : DefinitionRevision) (services : List ServiceDefinition)
      (issues : List Issue) (e : AppError)
      → all (is_elsewhere id) changes ≡ true
      → epoch_of id s ≡ epoch
      → lookup id s.revisions ≡ some revision
      → (let t = apply_all changes s in
          (lookup id
              (end_load id epoch revision now mono
                (ok (definition_revision, (services, issues)))
                t).1.entries
            ≡ (if outdated id changes s
                then lookup id t.entries
                else some (record {
                  profile_revision = revision;
                  definition_revision = definition_revision;
                  loaded_at = now;
                  loaded_mono = mono;
                  state = valid_without issues;
                  services = services;
                  issues = issues;
                  load_error = none;
                })))
          × (lookup id (end_load id epoch revision now mono (err e) t).1.entries ≡ (
              if outdated id changes s
              then lookup id t.entries
              else failed_with e (lookup id t.entries)))
          × ((outdated id changes s ≡ false)
              ⊎ ((result : Result AppError Loaded)
                  → (end_load id epoch revision now mono result t).1 ≡ t)))
  unfolding end_load
  end_load-outdated definition_revision services issues e h f g =
      let t = apply_all changes s in
      let wanted = is_wanted-outdated id epoch revision changes s h f g in
      elim (Bool-cases (outdated id changes s)) [
        | inl o ↦
            let unwanted : is_wanted id epoch revision t ≡ false = wanted ∙ rw o refl in
            rw (unwanted, o) (refl, refl, inr (λ result. refl))
        | inr o ↦
            let still : is_wanted id epoch revision t ≡ true = wanted ∙ rw o refl in
            rw (still, o)
              (lookup-stored definition_revision services issues t, lookup-failed e t, inl refl)
      ]
