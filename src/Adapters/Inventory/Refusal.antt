-- ===== src/Adapters/Inventory/Refusal.antt =====
-- The `expect` of `refresh_inner` in crates/colui-adapters/src/inventory.rs: an automatic refresh that
-- is put off finds the error of the last one.
use colui.Prelude.{
  ℕ, ◌≡◌, ◌≢◌, refl, subst, Bool, true, false, ◌&&◌, List, [], ◌∷◌, Option, none, some, arith,
  nat_eq, ◌==◌, Option-cases, Bool-cases, inl, inr, is_none, checked_add_u64,
}
use colui.Prelude.Map.{lookup, lookup-insert}
use colui.Domain.Text.{Uuids}
use colui.Adapters.Inventory.Backoff.{complete_refresh-Consistent, initial_state-Consistent}
use colui.Adapters.Inventory.Refresh.{Consistent}
use colui.Adapters.Inventory.Coordinator.{
  Caller, entering, waiting, returned, refused, Coordinator, new_coordinator, Event, draw_marker,
  call, section, complete, wake, is_after, is_put_off, was_given, step, run, run_section, run_wake,
  join_or_start, start_refresh, take_result, put_caller, drawn, RefreshResult,
}

abbrev has_error : Option Caller → Bool
has_error (some (refused none)) = false
has_error _ = true

abbrev Sound : Coordinator → Type 0
Sound s = Consistent s.published × ((id : ℕ) → has_error (lookup id s.callers) ≡ true)

Steps : Option Coordinator → Type 0
Steps o = (t : Coordinator) → o ≡ some t → Sound t

some-Steps : (t : Coordinator) → Sound t → Steps (some t)
unfolding Steps
some-Steps t c x e = let same : t ≡ x = ground arith in subst Sound same c

none-Steps : Steps none
unfolding Steps
none-Steps x e = cc

put_caller-Sound :
    (id : ℕ) (c : Caller) (s : Coordinator)
    → Sound s
    → has_error (some c) ≡ true
    → Sound (put_caller id c s)
put_caller-Sound id c s (consistent, h) k = (
  consistent,
  λ j. elim (Bool-cases (id == j)) [
    | inl same ↦ rw (lookup-insert id j c s.callers, same) k
    | inr other ↦ rw (lookup-insert id j c s.callers, other) (h j)
  ],
)

module _ (s : Coordinator) (h : Sound s) where
  start_refresh-Sound :
      (id : ℕ) (automatic : Bool) (after order : Option ℕ)
      → Steps (start_refresh id automatic after order s)
  start_refresh-Sound id automatic after none = none-Steps
  start_refresh-Sound id automatic after (some n) = some-Steps _ (
      put_caller-Sound id (waiting automatic after true n)
        (record s { observation_order = n; in_flight = some n }) h refl)

  join_or_start-Sound :
      (id : ℕ) (automatic : Bool) (after flight : Option ℕ)
      → Steps (join_or_start id automatic after flight s)
  join_or_start-Sound id automatic after none =
      start_refresh-Sound id automatic after (checked_add_u64 s.observation_order 1)
  join_or_start-Sound id automatic after (some n) =
      some-Steps _ (put_caller-Sound id (waiting automatic after (is_after after n) n) s h refl)

  refusal-has_error :
      (monotonic : ℕ)
      → is_put_off s.published.retry_at monotonic ≡ true
      → has_error (some (refused s.published.current.error)) ≡ true
  refusal-has_error monotonic k = elim (Option-cases s.published.current.error) [
    | inr (e, f) ↦ rw f refl
    | inl f ↦ elim (Option-cases s.published.retry_at) [
      | inl g ↦ cc (rw g at k)
      | inr (n, g) ↦ let shown = rw (f, g) at h.0.error_shown in cc
    ]
  ]

  run_section-Sound : (id monotonic : ℕ) (c : Option Caller) → Steps (run_section id monotonic c s)
  run_section-Sound id monotonic (some (entering automatic after)) =
      elim (Bool-cases (automatic && is_put_off s.published.retry_at monotonic)) [
        | inl e ↦ rw e (
            some-Steps _ (
              put_caller-Sound id (refused s.published.current.error) s h
                (refusal-has_error monotonic (ground (arith, e)))))
        | inr e ↦ rw e (join_or_start-Sound id automatic after s.in_flight)
      ]
  run_section-Sound id monotonic _ = none-Steps

  take_result-Sound :
      (id : ℕ) (automatic : Bool) (after : Option ℕ) (eligible : Bool) (start_order : ℕ)
      (result : Option RefreshResult)
      → Steps (take_result id automatic after eligible start_order result s)
  take_result-Sound id automatic after eligible n none = none-Steps
  take_result-Sound id automatic after true n (some r) =
      some-Steps _ (put_caller-Sound id (returned after n r) s h refl)
  take_result-Sound id automatic after false n (some r) =
      some-Steps _ (put_caller-Sound id (entering automatic after) s h refl)

  run_wake-Sound : (id : ℕ) (c : Option Caller) → Steps (run_wake id c s)
  run_wake-Sound id (some (waiting automatic after eligible n)) =
      take_result-Sound id automatic after eligible n (lookup n s.completed)
  run_wake-Sound id _ = none-Steps

  drawn-Sound : (order : Option ℕ) → Steps (drawn order s)
  drawn-Sound none = none-Steps
  drawn-Sound (some n) = some-Steps _ h

module _ ⦃u : Uuids⦄ where
  step-Sound : (e : Event) (s t : Coordinator) → Sound s → step e s ≡ some t → Sound t
  unfolding step Steps
  step-Sound draw_marker s t h k = drawn-Sound s h (checked_add_u64 s.observation_order 1) t k
  step-Sound (call id automatic after) s t h k =
      elim (Bool-cases (is_none (lookup id s.callers) && was_given after s.observation_order)) [
        | inl e ↦
            some-Steps _ (put_caller-Sound id (entering automatic after) s h refl) t (rw e at k)
        | inr e ↦ cc (rw e at k)
      ]
  step-Sound (section id monotonic) s t h k =
      run_section-Sound s h id monotonic (lookup id s.callers) t k
  step-Sound (complete now monotonic observed) s t h k = elim (Option-cases s.in_flight) [
    | inl e ↦ cc (rw e at k)
    | inr (n, e) ↦
        some-Steps _ (complete_refresh-Consistent now monotonic s.published observed h.0, h.1) t
          (rw e at k)
  ]
  step-Sound (wake id) s t h k = run_wake-Sound s h id (lookup id s.callers) t k

  run-Sound : (es : List Event) (s t : Coordinator) → Sound s → run es s ≡ some t → Sound t
  unfolding run
  run-Sound [] s t h k = let same : s ≡ t = ground arith in subst Sound same h
  run-Sound (e ∷ es) s t h k = elim (Option-cases (step e s)) [
    | inl f ↦ cc (rw (f, run) at k)
    | inr (m, f) ↦ run-Sound es m t (step-Sound e s m h f) (rw (f, run) at k)
  ]

  -- Whatever the callers do, the state stays consistent, and a call of `refresh_automatic` that is
  -- refused since it is put off has an error to return: the `expect` there never panics.
  pub refused-has_error :
      (events : List Event) (t : Coordinator) (id : ℕ)
      → run events new_coordinator ≡ some t
      → Consistent t.published × (lookup id t.callers ≢ some (refused none))
  unfolding lookup
  refused-has_error events t id k =
      let sound = run-Sound events new_coordinator t (initial_state-Consistent, λ j. refl) k in
      let shown = sound.1 id in (sound.0, λ e. cc (rw e at shown))
