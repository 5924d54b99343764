-- ===== src/Locks/Refusal.antt =====
-- What a refused call of the lock manager leaves behind (crates/colui-adapters/src/operations.rs).
use colui.Prelude.{◌≡◌, arith, false, Option-cases, nat_eq, list_eq, inl, inr}
use colui.Prelude.Map.{lookup}
use colui.Domain.Text.{Uuids}
use colui.Locks.State.{LockState}
use colui.Locks.Sections.{
  enter_shared, release_shared, reserve_profile, enter_definition, enter_container, enter_recovery,
  release_recovery,
}
use colui.Locks.Handlers.{
  Call, lifecycle, definition, container, mutation, recovery, call, acquire_shared,
  reserve_lifecycle, acquire_definition, acquire_container, acquire_mutation, acquire_recovery,
}

-- Two states that differ in nothing but the next token.
abbrev pub SameLocks : LockState → LockState → Type 0
SameLocks s t =
    (s.profiles ≡ t.profiles)
    × (s.barrier ≡ t.barrier)
    × (s.projection_generation ≡ t.projection_generation)

module _ ⦃u : Uuids⦄ where
  -- A call that is refused, whatever refuses it, leaves the leases, the barrier and the projection
  -- generation as they were.
  pub refused-SameLocks :
      (s : LockState) (c : Call) → (call s c).0 ≡ false → SameLocks (call s c).1 s
  unfolding call acquire_shared reserve_lifecycle acquire_definition acquire_container
      acquire_mutation acquire_recovery enter_shared enter_recovery release_shared release_recovery
      reserve_profile enter_definition enter_container
  refused-SameLocks s (lifecycle id kind file now) refused =
      elim (Option-cases (lookup id s.profiles)) [
        | inl e ↦ ground arith
        | inr (p, e) ↦ ground arith
      ]
  refused-SameLocks s (definition id file now) refused =
      elim (Option-cases (lookup id s.profiles)) [
        | inl e ↦ ground arith
        | inr (p, e) ↦ ground arith
      ]
  refused-SameLocks s (container c file now) refused = ground arith
  refused-SameLocks s (mutation file) refused = ground arith
  refused-SameLocks s (recovery file) refused = ground arith
