-- ===== src/Locks/Exclusion.antt =====
-- Who can hold what at the same time (crates/colui-adapters/src/operations.rs).
use colui.Prelude.{
  ◌≡◌, ◌<◌, refl, true, false, List, arith, nat_eq, list_eq, ◌==◌, eqb_iff, list_test_iff, Bool,
}
use colui.Domain.Text.{Uuids}
use colui.Locks.Guards.{
  Guard, ticket, mutation, recovery, reservation, lifecycle, definition, container, is_shared,
  count, count-le-count_shared,
}
use colui.Locks.System.{System, start, Event, run}
use colui.Locks.Invariant.{Inv}
use colui.Locks.Preserve.Steps.{run-Inv}

-- Which guards must not be held together, unless they are one guard.
abbrev pub excludes : Guard → Guard → Bool
excludes recovery h = true
excludes (reservation i t) recovery = true
excludes (reservation i t) (reservation j w) = i == j
excludes (reservation i t) (lifecycle j w) = i == j
excludes (lifecycle i t) recovery = true
excludes (lifecycle i t) (reservation j w) = i == j
excludes (lifecycle i t) (lifecycle j w) = i == j
excludes (lifecycle i t) (definition j w) = i == j
excludes (definition i t) recovery = true
excludes (definition i t) (lifecycle j w) = i == j
excludes (definition i t) (definition j w) = i == j
excludes (container c) recovery = true
excludes (container c) (container d) = c == d
excludes ticket recovery = true
excludes mutation recovery = true
excludes _ _ = false

module _ {y : System} (v : Inv y) where
  recovery_alone :
      (h : Guard) → is_shared h ≡ true → 0 < count recovery y.held → 0 < count h y.held → ⊥
  recovery_alone h s p q =
      ground
        (arith, v.exact recovery refl, v.shared_count, v.alone, count-le-count_shared h y.held s)

  Inv-excludes :
      (g h : Guard)
      → excludes g h ≡ true
      → 0 < count g y.held
      → 0 < count h y.held
      → (g ≡ h) × (count g y.held ≡ 1)
  Inv-excludes recovery recovery e p q = (refl, ground (arith, v.exact recovery refl))
  Inv-excludes recovery ticket e p q = absurd (recovery_alone ticket refl p q)
  Inv-excludes recovery h e p q = absurd (recovery_alone h refl p q)
  Inv-excludes ticket recovery e p q = absurd (recovery_alone ticket refl q p)
  Inv-excludes mutation recovery e p q = absurd (recovery_alone mutation refl q p)
  Inv-excludes (container c) recovery e p q = absurd (recovery_alone (container c) refl q p)
  Inv-excludes (reservation i t) recovery e p q = absurd (recovery_alone (reservation i t) refl q p)
  Inv-excludes (lifecycle i t) recovery e p q = absurd (recovery_alone (lifecycle i t) refl q p)
  Inv-excludes (definition i t) recovery e p q = absurd (recovery_alone (definition i t) refl q p)
  Inv-excludes (container c) (container d) e p q =
      ground (arith, list_test_iff c d, v.exact (container c) refl)
  Inv-excludes (reservation i t) (reservation j w) e p q = ground (
    arith,
    eqb_iff i j,
    v.exact (reservation i t) refl,
    v.exact (reservation j w) refl,
    v.sound i,
  )
  Inv-excludes (reservation i t) (lifecycle j w) e p q =
      ground (
        arith,
        eqb_iff i j,
        v.exact (reservation i t) refl,
        v.exact (lifecycle j w) refl,
        v.sound i,
      )
  Inv-excludes (lifecycle i t) (reservation j w) e p q =
      ground (
        arith,
        eqb_iff i j,
        v.exact (lifecycle i t) refl,
        v.exact (reservation j w) refl,
        v.sound i,
      )
  Inv-excludes (lifecycle i t) (lifecycle j w) e p q =
      ground
        (arith, eqb_iff i j, v.exact (lifecycle i t) refl, v.exact (lifecycle j w) refl, v.sound i)
  Inv-excludes (lifecycle i t) (definition j w) e p q =
      ground
        (arith, eqb_iff i j, v.exact (lifecycle i t) refl, v.exact (definition j w) refl, v.sound i)
  Inv-excludes (definition i t) (lifecycle j w) e p q =
      ground
        (arith, eqb_iff i j, v.exact (definition i t) refl, v.exact (lifecycle j w) refl, v.sound i)
  Inv-excludes (definition i t) (definition j w) e p q =
      ground (
        arith,
        eqb_iff i j,
        v.exact (definition i t) refl,
        v.exact (definition j w) refl,
        v.sound i,
      )
  Inv-excludes _ _ e p q = cc

-- Under every schedule of threads on a new lock manager, two guards that are held are one guard,
-- held once, if one of them is a recovery guard, both are reservations or lifecycle guards on one
-- profile, both are lifecycle or definition guards on one profile, or both are on one container.
pub guards_exclude :
    ⦃u : Uuids⦄ (es : List Event) (g h : Guard)
    → excludes g h ≡ true
    → 0 < count g (run start es).held
    → 0 < count h (run start es).held
    → (g ≡ h) × (count g (run start es).held ≡ 1)
guards_exclude es g h = Inv-excludes (run-Inv es) g h
