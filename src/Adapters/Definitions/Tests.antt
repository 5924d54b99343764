-- ===== src/Adapters/Definitions/Tests.antt =====
-- The cache of definitions (crates/colui-adapters/src/definitions.rs) with two profiles.
use colui.Prelude.{
  ◌≡◌, ◌||◌, refl, false, ◌⊎◌, err, Result, nat_eq, true, List, [], ◌∷◌, none, some, ok, is_ok,
  is_some,
}
use colui.Prelude.Map.{lookup}
use colui.Domain.Text.{Uuids, bytes}
use colui.Domain.AppError.{AppError, operation_conflict}
use colui.Domain.Inventory.{DefinitionState}
use colui.App.Operations.{DefinitionBusy, lifecycle_pending}
use colui.Adapters.Definitions.Cache.{CacheState, empty_cache, end_load, Loaded}
use colui.Adapters.Definitions.Invalidation.{Change, noted, ended, invalidated, apply_all, outdated}
use colui.Adapters.Definitions.Stored.{end_load-outdated}
use colui.Adapters.Definitions.Access.{
  Answers, definition_busy_error, known_stale, busy_message, access, registered, access-answers,
}

instance abbrev test_uuids : Uuids
test_uuids = record { to_text = λ n. n ∷ []; parse_str = λ t. none }

abbrev started : CacheState
started = record empty_cache { revisions = (7, 1) ∷ []; registry_identity = some none }

-- A load of another profile ends, and it is invalidated: the load of profile 7 is not concerned.
abbrev elsewhere : List Change
elsewhere =
    noted 8 3 none ∷ ended 8 0 3 (bytes "now") 5 (ok (bytes "r", ([], []))) ∷ invalidated 8 ∷ []

end_load-outdated_example :
    (lookup 7
        (end_load 7 0 1
          (bytes "now")
          9
          (ok (bytes "r", ([], [])))
          (apply_all elsewhere started)).1.entries
      ≡ some (record {
        profile_revision = 1;
        definition_revision = bytes "r";
        loaded_at = bytes "now";
        loaded_mono = 9;
        state = DefinitionState.valid;
        services = [];
        issues = [];
        load_error = none;
      }))
    × (lookup 7
          (end_load 7 0 1
            (bytes "now")
            9
            (err (definition_busy_error 7 lifecycle_pending))
            (apply_all elsewhere started)).1.entries
        ≡ none)
    × ((outdated 7 elsewhere started ≡ false)
        ⊎ ((result : Result AppError Loaded)
            → (end_load 7 0 1 (bytes "now") 9 result (apply_all elsewhere started)).1
              ≡ apply_all elsewhere started))
unfolding lookup apply_all outdated
end_load-outdated_example =
    end_load-outdated 7 0 1 elsewhere started (bytes "now") 9 (bytes "r") [] []
      (definition_busy_error 7 lifecycle_pending) refl refl refl

outdated_by_invalidation : outdated 7 (noted 8 3 none ∷ invalidated 7 ∷ []) started ≡ true
unfolding outdated
outdated_by_invalidation = refl

abbrev answers : Answers
answers = record {
  busy = some lifecycle_pending;
  canonical = ok (record { registry_revision = 0; profiles = [] }, none);
  before_lookup = [];
  before_load = [];
  during_load = [];
  result = ok (bytes "r", ([], []));
  completed_mono = 5;
  now = bytes "now";
}

abbrev cached : CacheState
cached = record started {
  entries =
      (
        7,
        record {
          profile_revision = 1;
          definition_revision = bytes "r";
          loaded_at = bytes "now";
          loaded_mono = 2;
          state = DefinitionState.valid;
          services = [];
          issues = [];
          load_error = none;
        },
      )
      ∷ [];
}

access-answers_example :
    (is_ok (access 7 true 3 answers cached).0
      ≡ (is_some answers.busy || registered 7 answers.canonical))
    × ((answers.busy ≡ none)
        ⊎ ((busy : DefinitionBusy) × (error : AppError) × (answers.busy ≡ some busy)
            × (access 7 true 3 answers cached ≡ (
              ok (record {
                definition = known_stale 7 (lookup 7 cached.entries);
                error = some error;
              }),
              cached,
            ))
            × (error.code ≡ operation_conflict)
            × (error.message ≡ busy_message busy)))
access-answers_example = access-answers 7 true 3 answers cached
