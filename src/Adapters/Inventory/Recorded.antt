-- ===== src/Adapters/Inventory/Recorded.antt =====
-- The invariant of crates/colui-adapters/src/inventory.rs that a caller's answer is the result of its
-- refresh.
use colui.Prelude.{
  ℕ, ◌+◌, ◌≡◌, ◌≤◌, ◌<◌, refl, subst, ap, ◌∙◌, Bool, true, false, ◌&&◌, Option, none, some, arith,
  nat_eq, ◌==◌, eqb_iff, Option-cases, Bool-cases, inl, inr, checked_add_u64,
}
use colui.Prelude.Map.{Map, lookup, insert, lookup-insert}
use colui.Adapters.Inventory.Coordinator.{
  Caller, entering, waiting, returned, refused, Coordinator, is_after, run_section, run_wake,
  join_or_start, is_put_off, start_refresh, take_result, put_caller, drawn, RefreshResult,
}

abbrev pub Results : Type 0
Results = Map ℕ RefreshResult

-- A caller that has returned was given the result of the refresh that it waited for.
abbrev pub AnsweredBy : Results → Option Caller → Type 0
AnsweredBy completed (some (returned after n r)) = lookup n completed ≡ some r
AnsweredBy completed _ = Unit

-- A refresh that runs has an order that was given, and no result yet.
abbrev pub Flies : ℕ → Results → Option ℕ → Type 0
Flies order completed none = Unit
Flies order completed (some n) = (n ≤ order) × (lookup n completed ≡ none)

pub record Recorded (s : Coordinator) : Type 0 where
  pub unused : (n : ℕ) → s.observation_order < n → lookup n s.completed ≡ none
  pub flies : Flies s.observation_order s.completed s.in_flight
  pub answered : (id : ℕ) → AnsweredBy s.completed (lookup id s.callers)

Flies-later :
    (completed : Results) (flight : Option ℕ) (m n : ℕ)
    → m ≤ n
    → Flies m completed flight
    → Flies n completed flight
Flies-later completed none m n l f = tt
Flies-later completed (some k) m n l f = (omega (arith, f.0), f.1)

pub put_caller-Recorded :
    (id : ℕ) (c : Caller) (s : Coordinator)
    → Recorded s
    → AnsweredBy s.completed (some c)
    → Recorded (put_caller id c s)
put_caller-Recorded id c s h k = record {
  unused = h.unused;
  flies = h.flies;
  answered = λ j. elim (Bool-cases (id == j)) [
    | inl same ↦ rw (lookup-insert id j c s.callers, same) k
    | inr other ↦ rw (lookup-insert id j c s.callers, other) (h.answered j)
  ];
}

later-Recorded :
    (s : Coordinator) (order : ℕ)
    → s.observation_order ≤ order
    → Recorded s
    → Recorded (record s { observation_order = order })
later-Recorded s order l h = record {
  unused = λ n k. h.unused n (omega (arith, l, k));
  flies = Flies-later s.completed s.in_flight s.observation_order order l h.flies;
  answered = h.answered;
}

module _ (s : Coordinator) (h : Recorded s) where
  -- The step keeps the invariant and ends no refresh.
  unfoldable pub Steps : Option Coordinator → Type 0
  Steps o = (t : Coordinator) → o ≡ some t → Recorded t × (t.completed ≡ s.completed)

  pub some-Steps : (t : Coordinator) → Recorded t → t.completed ≡ s.completed → Steps (some t)
  unfolding Steps
  some-Steps t r c x e =
      let same : t ≡ x = ground arith in
      subst (λ y. Recorded y × (y.completed ≡ s.completed)) same (r, c)

  none-Steps : Steps none
  unfolding Steps
  none-Steps x e = cc

  start_refresh-Recorded :
      (id : ℕ) (automatic : Bool) (after : Option ℕ)
      → Steps (start_refresh id automatic after (checked_add_u64 s.observation_order 1) s)
  start_refresh-Recorded id automatic after =
      elim (Option-cases (checked_add_u64 s.observation_order 1)) [
        | inl e ↦ rw e none-Steps
        | inr (n, e) ↦
            let next : s.observation_order + 1 ≡ n = ground arith in
            let begun : Recorded (record s { observation_order = n; in_flight = some n }) = record {
              unused = λ k l. h.unused k (omega (arith, next, l));
              flies = (omega arith, h.unused n (omega (arith, next)));
              answered = h.answered;
            } in
            rw e (
              some-Steps _
                (put_caller-Recorded id (waiting automatic after true n)
                  (record s { observation_order = n; in_flight = some n }) begun tt)
                refl)
      ]

  join_or_start-Recorded :
      (id : ℕ) (automatic : Bool) (after flight : Option ℕ)
      → Steps (join_or_start id automatic after flight s)
  join_or_start-Recorded id automatic after none = start_refresh-Recorded id automatic after
  join_or_start-Recorded id automatic after (some n) =
      some-Steps _ (put_caller-Recorded id (waiting automatic after (is_after after n) n) s h tt)
        refl

  pub run_section-Recorded :
      (id monotonic : ℕ) (c : Option Caller) → Steps (run_section id monotonic c s)
  run_section-Recorded id monotonic (some (entering automatic after)) =
      elim (Bool-cases (automatic && is_put_off s.published.retry_at monotonic)) [
        | inl e ↦
            rw e (
              some-Steps _ (put_caller-Recorded id (refused s.published.current.error) s h tt) refl)
        | inr e ↦ rw e (join_or_start-Recorded id automatic after s.in_flight)
      ]
  run_section-Recorded id monotonic _ = none-Steps

  take_result-Recorded :
      (id : ℕ) (automatic : Bool) (after : Option ℕ) (eligible : Bool) (n : ℕ)
      (result : Option RefreshResult)
      → lookup n s.completed ≡ result
      → Steps (take_result id automatic after eligible n result s)
  take_result-Recorded id automatic after eligible n none e = none-Steps
  take_result-Recorded id automatic after true n (some r) e =
      some-Steps _ (put_caller-Recorded id (returned after n r) s h e) refl
  take_result-Recorded id automatic after false n (some r) e =
      some-Steps _ (put_caller-Recorded id (entering automatic after) s h tt) refl

  pub run_wake-Recorded : (id : ℕ) (c : Option Caller) → Steps (run_wake id c s)
  run_wake-Recorded id (some (waiting automatic after eligible n)) =
      take_result-Recorded id automatic after eligible n (lookup n s.completed) refl
  run_wake-Recorded id _ = none-Steps

  pub drawn-Recorded : Steps (drawn (checked_add_u64 s.observation_order 1) s)
  drawn-Recorded = elim (Option-cases (checked_add_u64 s.observation_order 1)) [
    | inl e ↦ rw e none-Steps
    | inr (n, e) ↦
        let next : s.observation_order + 1 ≡ n = ground arith in
        rw e (some-Steps _ (later-Recorded s n (omega (arith, next)) h) refl)
  ]

-- A refresh's end gives its order a result, and takes none away.
AnsweredBy-insert :
    (completed : Results) (n : ℕ) (r : RefreshResult) (c : Option Caller)
    → lookup n completed ≡ none
    → AnsweredBy completed c
    → AnsweredBy (insert n r completed) c
AnsweredBy-insert completed n r none f k = tt
AnsweredBy-insert completed n r (some (entering automatic after)) f k = tt
AnsweredBy-insert completed n r (some (waiting automatic after eligible m)) f k = tt
AnsweredBy-insert completed n r (some (refused e)) f k = tt
AnsweredBy-insert completed n r (some (returned after m x)) f k = elim (Bool-cases (n == m)) [
  | inl same ↦ let eq : n ≡ m = (eqb_iff n m).0 same in cc (ap (λ i. lookup i completed) eq)
  | inr other ↦ lookup-insert n m r completed ∙ rw other k
]

pub completed-Recorded :
    (s : Coordinator) (n : ℕ) (r : RefreshResult) (t : Coordinator)
    → Recorded s
    → s.in_flight ≡ some n
    → t.observation_order ≡ s.observation_order
    → t.in_flight ≡ none
    → t.completed ≡ insert n r s.completed
    → t.callers ≡ s.callers
    → Recorded t
completed-Recorded s n r t h e o f c k =
    let flying : Flies s.observation_order s.completed (some n) = rw e at h.flies in
    record {
      unused = λ m l.
          let other : (n == m) ≡ false = ground (arith, flying.0, o, l) in
          rw c (lookup-insert n m r s.completed ∙ rw other (h.unused m (omega (arith, o, l))));
      flies = rw f tt;
      answered = λ id.
          rw (c, k)
            (AnsweredBy-insert s.completed n r (lookup id s.callers) flying.1 (h.answered id));
    }
