-- ===== src/Adapters/Inventory/Answered.antt =====
-- Which refresh of crates/colui-adapters/src/inventory.rs a caller's answer is of.
use colui.Prelude.{
  ℕ, ◌≡◌, ◌<◌, ◌⊎◌, refl, subst, ap, ◌∙◌, ◌&&◌, List, [], ◌∷◌, ◌++◌, none, some, Result, arith,
  nat_eq, ◌==◌, eqb_iff, Option-cases, Bool-cases, inl, inr, is_none,
}
use colui.Prelude.Map.{lookup, insert, lookup-insert}
use colui.Domain.Text.{Uuids}
use colui.Domain.AppError.{AppError}
use colui.Domain.Inventory.{ContainerObservation, Timestamp}
use colui.Domain.Runtime.{SessionContext}
use colui.Adapters.Inventory.Refresh.{complete_refresh}
use colui.Adapters.Inventory.Coordinator.{
  entering, returned, Coordinator, new_coordinator, Event, draw_marker, call, section, complete,
  wake, was_given, step, run, RefreshResult,
}
use colui.Adapters.Inventory.Causal.{refresh_after-newer}
use colui.Adapters.Inventory.Recorded.{
  Recorded, put_caller-Recorded, Steps, some-Steps, run_section-Recorded, run_wake-Recorded,
  drawn-Recorded, completed-Recorded,
}

module _ ⦃u : Uuids⦄ where
  -- Where in a run the refresh of a start order ended, with what result.
  abbrev pub EndedIn : List Event → Coordinator → ℕ → RefreshResult → Type 0
  EndedIn events s start_order result =
      (before : List Event) × (after : List Event) × (now : Timestamp) × (monotonic : ℕ)
      × (observed : Result AppError (SessionContext × List ContainerObservation))
      × (m : Coordinator) × (events ≡ before ++ (complete now monotonic observed ∷ after))
      × (run before s ≡ some m)
      × (m.in_flight ≡ some start_order)
      × (result ≡ (complete_refresh now monotonic m.published observed).0)

  -- After a step each result is an old one, or of the refresh that the step ends.
  Completes : Event → Coordinator → Coordinator → Type 0
  Completes e s t =
      (n : ℕ) (r : RefreshResult)
      → lookup n t.completed ≡ some r
      → (lookup n s.completed ≡ some r)
        ⊎ ((now : Timestamp) × (monotonic : ℕ) × (observed : Result AppError
              (SessionContext × List ContainerObservation))
            × (e ≡ complete now monotonic observed)
            × (s.in_flight ≡ some n)
            × (r ≡ (complete_refresh now monotonic s.published observed).0))

  same-Completes :
      (e : Event) (s t : Coordinator)
      → Recorded t × (t.completed ≡ s.completed)
      → Recorded t × Completes e s t
  unfolding Completes
  same-Completes e s t (r, c) = (r, λ n x h. inl (rw c at h))

  complete-Recorded :
      (now : Timestamp) (monotonic : ℕ)
      (observed : Result AppError (SessionContext × List ContainerObservation)) (s : Coordinator)
      (n : ℕ)
      → Recorded s
      → s.in_flight ≡ some n
      → (let answer = complete_refresh now monotonic s.published observed in
          let t : Coordinator = record s {
            published = answer.1;
            in_flight = none;
            completed = insert n answer.0 s.completed;
          } in
          Recorded t × Completes (complete now monotonic observed) s t)
  unfolding Completes
  complete-Recorded now monotonic observed s n h e =
      let answer = complete_refresh now monotonic s.published observed in
      (
        completed-Recorded s n answer.0 _ h e refl refl refl refl,
        λ k r found. elim (Bool-cases (n == k)) [
          | inl same ↦
              let found' = rw (lookup-insert n k answer.0 s.completed, same) at found in
              let at_k : n ≡ k = (eqb_iff n k).0 same in
              inr (now, monotonic, observed, refl, e ∙ ap some at_k, ground arith)
          | inr other ↦ inl (rw (lookup-insert n k answer.0 s.completed, other) at found)
        ],
      )

  step-Recorded :
      (e : Event) (s t : Coordinator)
      → Recorded s
      → step e s ≡ some t
      → Recorded t × Completes e s t
  unfolding step Steps
  step-Recorded draw_marker s t h k = same-Completes _ s t (drawn-Recorded s h t k)
  step-Recorded (call id automatic after) s t h k =
      elim (Bool-cases (is_none (lookup id s.callers) && was_given after s.observation_order)) [
        | inl e ↦ same-Completes _ s t (
            some-Steps s h _ (put_caller-Recorded id (entering automatic after) s h tt) refl t
              (rw e at k))
        | inr e ↦ cc (rw e at k)
      ]
  step-Recorded (section id monotonic) s t h k =
      same-Completes _ s t (run_section-Recorded s h id monotonic (lookup id s.callers) t k)
  step-Recorded (complete now monotonic observed) s t h k = elim (Option-cases s.in_flight) [
    | inl e ↦ cc (rw e at k)
    | inr (n, e) ↦
        let answer = complete_refresh now monotonic s.published observed in
        let next : Coordinator = record s {
          published = answer.1;
          in_flight = none;
          completed = insert n answer.0 s.completed;
        } in
        let same : some next ≡ some t = rw e at k in
        let at_t : next ≡ t = ground arith in
        subst (λ x. Recorded x × Completes (complete now monotonic observed) s x) at_t
          (complete-Recorded now monotonic observed s n h e)
  ]
  step-Recorded (wake id) s t h k =
      same-Completes _ s t (run_wake-Recorded s h id (lookup id s.callers) t k)

  -- Each result at the end of a run was there at its start, or is of a refresh that ended in it.
  run-Recorded :
      (es : List Event) (s t : Coordinator)
      → Recorded s
      → run es s ≡ some t
      → Recorded t
        × ((n : ℕ) (r : RefreshResult)
            → lookup n t.completed ≡ some r
            → (lookup n s.completed ≡ some r) ⊎ EndedIn es s n r)
  unfolding run Completes
  run-Recorded [] s t h k =
      let same : s ≡ t = ground arith in
      subst
        (λ x.
          Recorded x
          × ((n : ℕ) (r : RefreshResult)
              → lookup n x.completed ≡ some r
              → (lookup n s.completed ≡ some r) ⊎ EndedIn [] s n r))
        same (h, λ n r f. inl f)
  run-Recorded (e ∷ es) s t h k = elim (Option-cases (step e s)) [
    | inl f ↦ cc (rw (f, run) at k)
    | inr (m, f) ↦
        let (recorded, completes) = step-Recorded e s m h f in
        let (at_end, ended) = run-Recorded es m t recorded (rw (f, run) at k) in
        (
          at_end,
          λ n r found. elim (ended n r found) [
            | inr (before, after, now, monotonic, observed, x, split, ran, flies, gives) ↦ inr (
              e ∷ before,
              after,
              now,
              monotonic,
              observed,
              x,
              ap (λ l. e ∷ l) split,
              rw (run, f) ran,
              flies,
              gives,
            )
            | inl there ↦ elim (completes n r there) [
              | inl earlier ↦ inl earlier
              | inr (now, monotonic, observed, is, flies, gives) ↦
                  inr ([], es, now, monotonic, observed, s, ap (λ x. x ∷ es) is, refl, flies, gives)
            ]
          ],
        )
  ]

  new-Recorded : Recorded new_coordinator
  unfolding lookup
  new-Recorded = record { unused = λ n l. refl; flies = tt; answered = λ id. tt }

  -- However the sections of the callers and the ends of refreshes follow each other, a call of
  -- `refresh_after` that returns was answered by a refresh whose start order is above its marker, so
  -- by a list that was begun after the marker was drawn: at some point of the run the refresh with
  -- that start order was in flight and ended, and the answer is the result that it ended with.
  pub refresh_after-answered :
      (events : List Event) (t : Coordinator) (id marker start_order : ℕ) (result : RefreshResult)
      → run events new_coordinator ≡ some t
      → lookup id t.callers ≡ some (returned (some marker) start_order result)
      → (marker < start_order) × EndedIn events new_coordinator start_order result
  unfolding lookup
  refresh_after-answered events t id marker start_order result h k =
      let (recorded, ended) = run-Recorded events new_coordinator t new-Recorded h in
      let kept : lookup start_order t.completed ≡ some result = rw k at (recorded.answered id) in
      (
        refresh_after-newer events t id marker start_order result h k,
        elim (ended start_order result kept) [ inl e ↦ cc | inr found ↦ found ],
      )
