-- ===== src/Adapters/Inventory/Backoff.antt =====
-- What a refresh of crates/colui-adapters/src/inventory.rs leaves in the state, and when the next
-- automatic one may come.
use colui.Prelude.{
  [], ◌∷◌, ◌<◌, ◌||◌, is_ok, if◌then◌else◌, Bool-cases, ℕ, ◌+◌, ◌≡◌, ◌≢◌, ◌≤◌, ◌↔◌, eqb_iff,
  option_test_iff, inl, inr, refl, Bool, true, false, List, some, Result, ok, err, checked_add_u64,
  nat_eq, arith, Option-cases,
}
use colui.Domain.Text.{Uuids}
use colui.Domain.AppError.{AppError}
use colui.Domain.Inventory.{RuntimeInventory, InventoryFreshness, ContainerObservation, Timestamp}
use colui.Domain.Runtime.{SessionContext}
use colui.Adapters.Inventory.Normalize.{normalize}
use colui.Adapters.Inventory.Refresh.{
  initial_state, Published, Consistent, complete_refresh, delay, saturating_add_u32,
  retained_freshness, lease_candidate,
}

module _ ⦃u : Uuids⦄ where
  -- The end of a refresh keeps the state consistent: what is shown is of the state's generation, the
  -- counters stay in their ranges, and an automatic refresh is put off exactly while there are
  -- failures, of which one is then shown.
  pub complete_refresh-Consistent :
      (now : Timestamp) (monotonic : ℕ) (s : Published)
      (observed : Result AppError (SessionContext × List ContainerObservation))
      → Consistent s
      → Consistent (complete_refresh now monotonic s observed).1
  unfolding complete_refresh normalize
  complete_refresh-Consistent now monotonic s (ok (captured, os)) c =
      elim (Option-cases (checked_add_u64 s.generation 1)) [
        | inl e ↦ rw e c
        | inr (g, e) ↦ rw e (record {
          same_generation = refl;
          generation_bounded = ground arith;
          failures_bounded = omega arith;
          put_off = refl;
          error_shown = refl;
        })
      ]
  complete_refresh-Consistent now monotonic s (err e) c = record {
    same_generation = c.same_generation;
    generation_bounded = c.generation_bounded;
    failures_bounded = ground arith;
    put_off = ground arith;
    error_shown = refl;
  }

  delay-bounds : (failures : ℕ) → (1 ≤ delay failures) × (delay failures ≤ 10)
  delay-bounds failures = ground arith

  retained_freshness-old : (b : Bool) → retained_freshness b ≢ InventoryFreshness.fresh
  retained_freshness-old true h = cc
  retained_freshness-old false h = cc

  -- A refresh that fails keeps the containers, the projects and the generation that are shown, says
  -- that they are not fresh, shows the error, and puts the next automatic refresh off by one to ten
  -- seconds.
  pub complete_refresh-failed :
      (now : Timestamp) (monotonic : ℕ) (s : Published) (e : AppError)
      → ((complete_refresh now monotonic s (err e)).1.current.containers ≡ s.current.containers)
        × (((complete_refresh now monotonic s (err e)).1.current.project_snapshots
              ≡ s.current.project_snapshots)
            × (((complete_refresh now monotonic s (err e)).1.generation ≡ s.generation)
                × (((complete_refresh now monotonic s (err e)).1.current.freshness
                      ≢ InventoryFreshness.fresh)
                    × (((complete_refresh now monotonic s (err e)).1.current.error ≡ some e)
                        × ((wait : ℕ) × (((complete_refresh now monotonic s (err e)).1.retry_at
                                ≡ some (monotonic + wait))
                              × ((1 ≤ wait) × (wait ≤ 10))))))))
  unfolding complete_refresh
  complete_refresh-failed now monotonic s e = (
    refl,
    (
      refl,
      (
        refl,
        (
          retained_freshness-old s.current.has_snapshot,
          (
            refl,
            (
              delay (saturating_add_u32 s.failures 1),
              (refl, delay-bounds (saturating_add_u32 s.failures 1)),
            ),
          ),
        ),
      ),
    ),
  )

  -- A lease is given exactly on what is shown of the session and the generation.
  pub lease_candidate_iff :
      (session generation : ℕ) (current : RuntimeInventory)
      → (lease_candidate session generation current ≡ ok tt)
        ↔ ((current.runtime_session_id ≡ some session) × (current.generation ≡ generation))
  unfolding lease_candidate
  lease_candidate_iff session generation current = ground (
    arith,
    option_test_iff current.runtime_session_id (some session),
    eqb_iff current.generation generation,
  )

  -- Refreshes that end one after the other, each at its times, with what it observed.
  abbrev pub Refresh : Type 0
  Refresh = Timestamp × (ℕ × Result AppError (SessionContext × List ContainerObservation))

  abbrev pub refreshed : Refresh → Published → Result AppError RuntimeInventory × Published
  refreshed (now, (monotonic, observed)) s = complete_refresh now monotonic s observed

  unfoldable pub refresh_all : List Refresh → Published → Published
  unfolding complete_refresh
  refresh_all [] s = s
  refresh_all (r ∷ rs) s = refresh_all rs (refreshed r s).1

  -- Whether one of them returns an inventory.
  unfoldable pub succeeds_in : List Refresh → Published → Bool
  unfolding complete_refresh
  succeeds_in [] s = false
  succeeds_in (r ∷ rs) s = is_ok (refreshed r s).0 || succeeds_in rs (refreshed r s).1

  -- A refresh that succeeds raises the generation, and one that fails leaves it.
  complete_refresh-generation :
      (now : Timestamp) (monotonic : ℕ) (s : Published)
      (observed : Result AppError (SessionContext × List ContainerObservation))
      → (complete_refresh now monotonic s observed).1.generation ≡ (
          if is_ok (complete_refresh now monotonic s observed).0
          then s.generation + 1
          else s.generation)
  unfolding complete_refresh
  complete_refresh-generation now monotonic s (ok (captured, os)) =
      elim (Option-cases (checked_add_u64 s.generation 1)) [
        | inl e ↦ rw e refl
        | inr (g, e) ↦ let next : g ≡ s.generation + 1 = ground arith in rw e next
      ]
  complete_refresh-generation now monotonic s (err e) = refl

  refresh_all-generation :
      (rs : List Refresh) (s : Published)
      → Consistent s
      → Consistent (refresh_all rs s)
        × (s.generation ≤ (refresh_all rs s).generation)
        × (succeeds_in rs s ≡ true → s.generation < (refresh_all rs s).generation)
  unfolding refresh_all succeeds_in
  refresh_all-generation [] s c = (c, omega arith, λ h. cc)
  refresh_all-generation ((now, (monotonic, observed)) ∷ rs) s c =
      let t = (complete_refresh now monotonic s observed).1 in
      let step = complete_refresh-generation now monotonic s observed in
      let (last, later, above) =
        refresh_all-generation rs t (complete_refresh-Consistent now monotonic s observed c) in
      elim (Bool-cases (is_ok (complete_refresh now monotonic s observed).0)) [
        | inl good ↦
            let next : t.generation ≡ s.generation + 1 = rw good at step in
            (last, omega (arith, next, later), λ h. omega (arith, next, later))
        | inr bad ↦
            let same : t.generation ≡ s.generation = rw bad at step in
            (
              last,
              omega (arith, same, later),
              λ h. let more = above (rw bad at h) in omega (arith, same, more),
            )
      ]

  -- A lease on the evidence of a state's generation is refused after any sequence of later refreshes
  -- of which at least one succeeded, whatever the session.
  pub refreshed-lease :
      (refreshes : List Refresh) (s : Published) (session : ℕ)
      → Consistent s
      → succeeds_in refreshes s ≡ true
      → lease_candidate session s.generation (refresh_all refreshes s).current ≢ ok tt
  refreshed-lease refreshes s session c h k =
      let (last, later, above) = refresh_all-generation refreshes s c in
      let t = refresh_all refreshes s in
      let same = ((lease_candidate_iff session s.generation t.current).0 k).1 in
      let more = above h in omega (arith, last.same_generation, same, more)

-- The state that a coordinator begins with is consistent.
pub initial_state-Consistent : Consistent initial_state
initial_state-Consistent = record {
  same_generation = refl;
  generation_bounded = omega arith;
  failures_bounded = omega arith;
  put_off = refl;
  error_shown = refl;
}
