-- ===== src/Adapters/Inventory/Causal.antt =====
-- `refresh_after` of crates/colui-adapters/src/inventory.rs never answers with an older list.
use colui.Prelude.{
  ℕ, ◌+◌, ◌≡◌, ◌≤◌, ◌<◌, refl, subst, Bool, true, false, ◌&&◌, List, [], ◌∷◌, Option, none, some,
  arith, leb, ltb, nat_eq, ◌==◌, Option-cases, Bool-cases, inl, inr, checked_add_u64, is_none,
}
use colui.Prelude.Map.{lookup, lookup-insert}
use colui.Domain.Text.{Uuids}
use colui.Adapters.Inventory.Coordinator.{
  Caller, entering, waiting, returned, refused, Coordinator, new_coordinator, Event, draw_marker,
  call, section, complete, wake, is_after, was_given, step, run, run_section, run_wake,
  join_or_start, is_put_off, start_refresh, take_result, put_caller, drawn, RefreshResult,
}

abbrev started : ℕ → Option ℕ → Bool
started order none = true
started order (some start_order) = leb start_order order

-- What a caller relies on, when the orders up to one are given.
abbrev caller_ok : ℕ → Option Caller → Bool
caller_ok order none = true
caller_ok order (some (entering automatic after)) = was_given after order
caller_ok order (some (waiting automatic after true start_order)) =
    was_given after order && is_after after start_order
caller_ok order (some (waiting automatic after false start_order)) = was_given after order
caller_ok order (some (returned after start_order result)) = is_after after start_order
caller_ok order (some (refused e)) = true

abbrev Causal : Coordinator → Type 0
Causal s = (id : ℕ) → caller_ok s.observation_order (lookup id s.callers) ≡ true

was_given-later :
    (after : Option ℕ) (m n : ℕ) → m ≤ n → was_given after m ≡ true → was_given after n ≡ true
was_given-later none m n l h = refl
was_given-later (some k) m n l h = ground arith

caller_ok-later :
    (c : Option Caller) (m n : ℕ) → m ≤ n → caller_ok m c ≡ true → caller_ok n c ≡ true
caller_ok-later none m n l h = refl
caller_ok-later (some (entering automatic after)) m n l h = was_given-later after m n l h
caller_ok-later (some (waiting automatic after true start_order)) m n l h =
    ground (arith, was_given-later after m n l)
caller_ok-later (some (waiting automatic after false start_order)) m n l h =
    was_given-later after m n l h
caller_ok-later (some (returned after start_order result)) m n l h = h
caller_ok-later (some (refused e)) m n l h = refl

-- A caller is replaced by one that may rely on what it does.
put_caller-Causal :
    (id : ℕ) (c : Caller) (s : Coordinator)
    → Causal s
    → caller_ok s.observation_order (some c) ≡ true
    → Causal (put_caller id c s)
put_caller-Causal id c s h k j = elim (Bool-cases (id == j)) [
  | inl same ↦ rw (lookup-insert id j c s.callers, same) k
  | inr other ↦ rw (lookup-insert id j c s.callers, other) (h j)
]

later-Causal :
    (s : Coordinator) (order : ℕ)
    → s.observation_order ≤ order
    → Causal s
    → Causal (record s { observation_order = order })
later-Causal s order l h j = caller_ok-later (lookup j s.callers) s.observation_order order l (h j)

is_after-next :
    (after : Option ℕ) (m n : ℕ) → m < n → was_given after m ≡ true → is_after after n ≡ true
is_after-next none m n l h = refl
is_after-next (some k) m n l h = ground arith

Steps : Option Coordinator → Type 0
Steps o = (t : Coordinator) → o ≡ some t → Causal t

module _ (s : Coordinator) (h : Causal s) where
  some-Steps : (t : Coordinator) → Causal t → Steps (some t)
  unfolding Steps
  some-Steps t c x e = let same : t ≡ x = ground arith in subst Causal same c

  none-Steps : Steps none
  unfolding Steps
  none-Steps x e = cc

  start_refresh-Causal :
      (id : ℕ) (automatic : Bool) (after : Option ℕ)
      → was_given after s.observation_order ≡ true
      → Steps (start_refresh id automatic after (checked_add_u64 s.observation_order 1) s)
  start_refresh-Causal id automatic after g =
      elim (Option-cases (checked_add_u64 s.observation_order 1)) [
        | inl e ↦ rw e none-Steps
        | inr (n, e) ↦
            let next : s.observation_order + 1 ≡ n = ground arith in
            let below : s.observation_order < n = omega (arith, next) in
            rw e (
              some-Steps _ (
                put_caller-Causal id (waiting automatic after true n)
                  (record s { observation_order = n; in_flight = some n })
                  (later-Causal s n (omega (arith, below)) h)
                  (ground (
                    arith,
                    is_after-next after s.observation_order n below g,
                    was_given-later after s.observation_order n (omega (arith, below)) g,
                  ))))
      ]

  join_or_start-Causal :
      (id : ℕ) (automatic : Bool) (after flight : Option ℕ)
      → was_given after s.observation_order ≡ true
      → Steps (join_or_start id automatic after flight s)
  join_or_start-Causal id automatic after none g = start_refresh-Causal id automatic after g
  join_or_start-Causal id automatic after (some start_order) g =
      elim (Bool-cases (is_after after start_order)) [
        | inl e ↦ rw e (some-Steps _ (put_caller-Causal id _ s h (ground (arith, e, g))))
        | inr e ↦ rw e (some-Steps _ (put_caller-Causal id _ s h g))
      ]

  run_section-Causal :
      (id monotonic : ℕ) (c : Option Caller)
      → caller_ok s.observation_order c ≡ true
      → Steps (run_section id monotonic c s)
  run_section-Causal id monotonic (some (entering automatic after)) k =
      elim (Bool-cases (automatic && is_put_off s.published.retry_at monotonic)) [
        | inl e ↦ rw e (some-Steps _ (put_caller-Causal id _ s h refl))
        | inr e ↦ rw e (join_or_start-Causal id automatic after s.in_flight k)
      ]
  run_section-Causal id monotonic _ k = none-Steps

  take_result-Causal :
      (id : ℕ) (automatic : Bool) (after : Option ℕ) (eligible : Bool) (start_order : ℕ)
      (result : Option RefreshResult)
      → caller_ok s.observation_order (some (waiting automatic after eligible start_order)) ≡ true
      → Steps (take_result id automatic after eligible start_order result s)
  take_result-Causal id automatic after eligible start_order none k = none-Steps
  take_result-Causal id automatic after true start_order (some r) k =
      some-Steps _ (put_caller-Causal id (returned after start_order r) s h (ground arith))
  take_result-Causal id automatic after false start_order (some r) k =
      some-Steps _ (put_caller-Causal id (entering automatic after) s h k)

  run_wake-Causal :
      (id : ℕ) (c : Option Caller)
      → caller_ok s.observation_order c ≡ true
      → Steps (run_wake id c s)
  run_wake-Causal id (some (waiting automatic after eligible start_order)) k =
      take_result-Causal id automatic after eligible start_order (lookup start_order s.completed) k
  run_wake-Causal id _ k = none-Steps

  drawn-Causal : Steps (drawn (checked_add_u64 s.observation_order 1) s)
  drawn-Causal = elim (Option-cases (checked_add_u64 s.observation_order 1)) [
    | inl e ↦ rw e none-Steps
    | inr (n, e) ↦
        let next : s.observation_order + 1 ≡ n = ground arith in
        rw e (some-Steps _ (later-Causal s n (omega (arith, next)) h))
  ]

module _ ⦃u : Uuids⦄ where
  step-Causal : (e : Event) (s t : Coordinator) → Causal s → step e s ≡ some t → Causal t
  unfolding step Steps
  step-Causal draw_marker s t h k = drawn-Causal s h t k
  step-Causal (call id automatic after) s t h k =
      elim (Bool-cases (is_none (lookup id s.callers) && was_given after s.observation_order)) [
        | inl e ↦
            some-Steps s h _
              (put_caller-Causal id (entering automatic after) s h (ground (arith, e))) t
              (rw e at k)
        | inr e ↦ cc (rw e at k)
      ]
  step-Causal (section id monotonic) s t h k =
      run_section-Causal s h id monotonic (lookup id s.callers) (h id) t k
  step-Causal (complete now monotonic observed) s t h k = elim (Option-cases s.in_flight) [
    | inl e ↦ cc (rw e at k)
    | inr (n, e) ↦ some-Steps s h _ h t (rw e at k)
  ]
  step-Causal (wake id) s t h k = run_wake-Causal s h id (lookup id s.callers) (h id) t k

  run-Causal : (es : List Event) (s t : Coordinator) → Causal s → run es s ≡ some t → Causal t
  unfolding run
  run-Causal [] s t h k = let same : s ≡ t = ground arith in subst Causal same h
  run-Causal (e ∷ es) s t h k = elim (Option-cases (step e s)) [
    | inl f ↦ cc (rw (f, run) at k)
    | inr (m, f) ↦ run-Causal es m t (step-Causal e s m h f) (rw (f, run) at k)
  ]

  -- However the sections of the callers and the ends of refreshes follow each other, a call of
  -- `refresh_after` that returns was answered by a refresh whose start order is above its marker, so by
  -- a list that was begun after the marker was drawn.
  pub refresh_after-newer :
      (events : List Event) (t : Coordinator) (id marker start_order : ℕ) (result : RefreshResult)
      → run events new_coordinator ≡ some t
      → lookup id t.callers ≡ some (returned (some marker) start_order result)
      → marker < start_order
  unfolding lookup
  refresh_after-newer events t id marker start_order result h k =
      let causal = run-Causal events new_coordinator t (λ j. refl) h id in
      let newer : ltb marker start_order ≡ true = rw k at causal in ground arith
