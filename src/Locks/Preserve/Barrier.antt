-- ===== src/Locks/Preserve/Barrier.antt =====
-- The steps that hold the barrier's mutex only: entering and leaving it, containers, registry
-- mutations and recovery (crates/colui-adapters/src/operations.rs).
use colui.Prelude.{
  ◌≡◌, ◌∙◌, sym, refl, true, false, Bool, arith, nat_eq, list_eq, list_test_iff, inl, inr,
  Bool-cases, is_some, List, ◌∷◌, ◌||◌, not, ◌==◌,
}
use colui.Prelude.Map.{lookup, lookup-insert, lookup-remove}
use colui.Domain.Text.{Text, Uuids}
use colui.Domain.Inventory.{Timestamp}
use colui.Locks.Sections.{
  enter_shared, release_shared, enter_container, enter_recovery, release_container,
  release_recovery,
}
use colui.Locks.Guards.{
  Guard, ticket, mutation, recovery, reservation, lifecycle, definition, container, is_lease,
  guard_test, guard_test_iff, is_shared, count, count_shared, remove_one, count-remove_one,
  count_shared-remove_one,
}
use colui.Locks.System.{
  System, enter, leave, mutate, recover, uncontain, unmutate, unrecover, holds, step, contain_step,
  exchange,
}
use colui.Locks.Invariant.{Inv, expected}
use colui.Locks.Preserve.Counts.{
  holds-count, count-exchange, count_shared-exchange, count_shared-drop,
}

-- The guards on a profile.
abbrev on_profile : Guard → Bool
on_profile (reservation j t) = true
on_profile (lifecycle j t) = true
on_profile (definition j t) = true
on_profile _ = false

record Turn (y y' : System) : Type 0 where
  profiles : y'.state.profiles ≡ y.state.profiles
  sleeping : y'.sleeping ≡ y.sleeping
  panicked : y'.panicked ≡ y.panicked
  counts : (g : Guard) → on_profile g ≡ true → count g y'.held ≡ count g y.held
  containers : (c : Text) → count (container c) y'.held ≡ expected y'.state (container c)
  recoveries : count recovery y'.held ≡ expected y'.state recovery
  shared_count : y'.state.barrier.shared ≡ count_shared y'.held
  alone : y'.state.barrier.recovering ≡ true → y'.state.barrier.shared ≡ 0

exact_after :
    {y y' : System}
    → Inv y
    → Turn y y'
    → (g : Guard) → is_lease g ≡ true
    → count g y'.held ≡ expected y'.state g
exact_after v c (reservation j t) l =
    rw c.profiles (c.counts (reservation j t) refl ∙ v.exact (reservation j t) l)
exact_after v c (lifecycle j t) l =
    rw c.profiles (c.counts (lifecycle j t) refl ∙ v.exact (lifecycle j t) l)
exact_after v c (definition j t) l =
    rw c.profiles (c.counts (definition j t) refl ∙ v.exact (definition j t) l)
exact_after v c (container k) l = c.containers k
exact_after v c recovery l = c.recoveries
exact_after v c _ l = cc

Turn-Inv : {y y' : System} → Inv y → Turn y y' → Inv y'
Turn-Inv v c = record {
  exact = exact_after v c;
  shared_count = c.shared_count;
  alone = c.alone;
  sound = λ id. rw c.profiles (v.sound id);
  awake = λ id t s. rw c.profiles (v.awake id t (rw c.sleeping at s));
  calm = c.panicked ∙ v.calm;
}

apart : (h g : Guard) → on_profile h ≡ false → on_profile g ≡ true → guard_test h g ≡ false
apart h g o l = elim (Bool-cases (guard_test h g)) [
  | inl same ↦ cc (rw ((guard_test_iff h g).0 same) at o, l)
  | inr other ↦ other
]

count-push :
    (new g : Guard) (held : List Guard)
    → on_profile new ≡ false
    → on_profile g ≡ true
    → count g (new ∷ held) ≡ count g held
unfolding count
count-push new g held n l = ground (arith, apart new g n l)

count-drop :
    (old g : Guard) (held : List Guard)
    → on_profile old ≡ false
    → on_profile g ≡ true
    → count g (remove_one old held) ≡ count g held
count-drop old g held o l = ground (arith, apart old g o l, count-remove_one g old held)

module _ ⦃u : Uuids⦄ (y : System) (v : Inv y) where
  pub enter-Inv : Inv (step y enter)
  unfolding step enter_shared count count_shared
  enter-Inv = elim (Bool-cases y.state.barrier.recovering) [
    | inl r ↦ simp (r, enter_shared) v
    | inr r ↦
        simp (r, enter_shared)
          (Turn-Inv v (record {
            profiles = refl;
            sleeping = refl;
            panicked = refl;
            counts = λ g l. count-push ticket g y.held refl l;
            containers = λ c. omega (arith, v.exact (container c) refl);
            recoveries = ground (arith, r, v.exact recovery refl);
            shared_count = omega (arith, v.shared_count);
            alone = λ e. cc (e, r);
          }))
  ]

  leave_Turn :
      (g : Guard)
      → holds g y ≡ true
      → on_profile g ≡ false
      → is_lease g ≡ false
      → is_shared g ≡ true
      → Turn y (record y { state = release_shared y.state; held = remove_one g y.held })
  unfolding release_shared
  leave_Turn g h o l s = record {
    profiles = refl;
    sleeping = refl;
    panicked = refl;
    counts = λ k lk. count-drop g k y.held o lk;
    containers = λ c. ground (
      arith,
      l,
      count-remove_one (container c) g y.held,
      v.exact (container c) refl,
      guard_test_iff g (container c),
    );
    recoveries = ground (
      arith,
      l,
      count-remove_one recovery g y.held,
      v.exact recovery refl,
      guard_test_iff g recovery,
    );
    shared_count = omega (arith, v.shared_count, count_shared-drop g y.held (holds-count g y h) s);
    alone = λ r. omega (arith, v.alone r);
  }

  pub leave-Inv : Inv (step y leave)
  unfolding step
  leave-Inv = elim (Bool-cases (holds ticket y)) [
    | inl h ↦ rw h (Turn-Inv v (leave_Turn ticket h refl refl refl))
    | inr h ↦ rw h v
  ]

  pub unmutate-Inv : Inv (step y unmutate)
  unfolding step
  unmutate-Inv = elim (Bool-cases (holds mutation y)) [
    | inl h ↦ rw h (Turn-Inv v (leave_Turn mutation h refl refl refl))
    | inr h ↦ rw h v
  ]

  pub mutate-Inv : Inv (step y mutate)
  unfolding step
  mutate-Inv = elim (Bool-cases (holds ticket y)) [
    | inl h ↦ rw h (
        Turn-Inv v (record {
          profiles = refl;
          sleeping = refl;
          panicked = refl;
          counts = λ g l. count-push mutation g _ refl l ∙ count-drop ticket g y.held refl l;
          containers = λ c. omega (
            arith,
            count-exchange ticket mutation (container c) y.held,
            v.exact (container c) refl,
          );
          recoveries =
              omega (arith, count-exchange ticket mutation recovery y.held, v.exact recovery refl);
          shared_count =
              v.shared_count
              ∙ sym
                  (count_shared-exchange ticket mutation y.held (holds-count ticket y h) refl refl);
          alone = v.alone;
        }))
    | inr h ↦ rw h v
  ]

  pub recover-Inv : Inv (step y recover)
  unfolding step enter_recovery count count_shared
  recover-Inv =
      elim (Bool-cases (y.state.barrier.recovering || not (y.state.barrier.shared == 0))) [
        | inl r ↦ simp (r, enter_recovery) v
        | inr r ↦
            simp (r, enter_recovery)
              (Turn-Inv v (record {
                profiles = refl;
                sleeping = refl;
                panicked = refl;
                counts = λ g l. count-push recovery g y.held refl l;
                containers = λ c. omega (arith, v.exact (container c) refl);
                recoveries = ground (arith, r, v.exact recovery refl);
                shared_count = omega (arith, v.shared_count);
                alone = λ e. ground (arith, r);
              }))
      ]

  pub unrecover-Inv : Inv (step y unrecover)
  unfolding step release_recovery
  unrecover-Inv = elim (Bool-cases (holds recovery y)) [
    | inl h ↦ rw h (
        Turn-Inv v (record {
          profiles = refl;
          sleeping = refl;
          panicked = refl;
          counts = λ g l. count-drop recovery g y.held refl l;
          containers = λ c.
              omega
                (arith, count-remove_one (container c) recovery y.held, v.exact (container c) refl);
          recoveries =
              ground (arith, count-remove_one recovery recovery y.held, v.exact recovery refl);
          shared_count = omega (
            arith,
            v.shared_count,
            count_shared-remove_one recovery y.held (holds-count recovery y h),
          );
          alone = λ e. cc;
        }))
    | inr h ↦ rw h v
  ]

  uncontain_Turn :
      (c : Text)
      → holds (container c) y ≡ true
      → Turn y
          (record y { state = release_container y.state c; held = remove_one (container c) y.held })
  unfolding release_container
  uncontain_Turn c h = record {
    profiles = refl;
    sleeping = refl;
    panicked = refl;
    counts = λ g l. count-drop (container c) g y.held refl l;
    containers = λ d. ground (
      arith,
      count-remove_one (container d) (container c) y.held,
      v.exact (container d) refl,
      lookup-remove c d y.state.barrier.containers,
    );
    recoveries =
        omega (arith, count-remove_one recovery (container c) y.held, v.exact recovery refl);
    shared_count = omega (
      arith,
      v.shared_count,
      count_shared-drop (container c) y.held (holds-count (container c) y h) refl,
    );
    alone = λ r. omega (arith, v.alone r);
  }

  pub uncontain-Inv : (c : Text) → Inv (step y (uncontain c))
  unfolding step
  uncontain-Inv c = elim (Bool-cases (holds (container c) y)) [
    | inl h ↦ rw h (Turn-Inv v (uncontain_Turn c h))
    | inr h ↦ rw h v
  ]

  contained_Turn :
      (c : Text) (now : Timestamp)
      → holds ticket y ≡ true
      → is_some (lookup c y.state.barrier.containers) ≡ false
      → Turn y (record y {
        state = (enter_container y.state c now).1;
        held = exchange ticket (container c) y.held;
      })
  unfolding enter_container
  contained_Turn c now h free =
      simp (free, enter_container)
        (record {
          profiles = refl;
          sleeping = refl;
          panicked = refl;
          counts = λ g l. count-push (container c) g _ refl l ∙ count-drop ticket g y.held refl l;
          containers = λ d. ground (
            arith,
            count-exchange ticket (container c) (container d) y.held,
            v.exact (container d) refl,
            lookup-insert c d now y.state.barrier.containers,
            list_test_iff c d,
            free,
          );
          recoveries =
              omega
                (arith, count-exchange ticket (container c) recovery y.held, v.exact recovery refl);
          shared_count = omega (
            arith,
            v.shared_count,
            count_shared-exchange ticket (container c) y.held (holds-count ticket y h) refl refl,
          );
          alone = v.alone;
        })

  pub contain-Inv :
      (c : Text) (now : Timestamp) → holds ticket y ≡ true → Inv (contain_step y c now)
  unfolding enter_container
  contain-Inv c now h = elim (Bool-cases (is_some (lookup c y.state.barrier.containers))) [
    | inl busy ↦
        simp (busy, enter_container)
          (Turn-Inv v (unfold release_shared in leave_Turn ticket h refl refl refl))
    | inr free ↦
        let after = Turn-Inv v (contained_Turn c now h free) in
        simp (free, enter_container) (simp (free, enter_container) at after)
  ]
