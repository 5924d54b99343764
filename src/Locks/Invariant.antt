-- ===== src/Locks/Invariant.antt =====
-- What holds of the lock manager and its guards (crates/colui-adapters/src/operations.rs).
use colui.Prelude.{
  ℕ, ◌≡◌, Bool, true, false, not, ◌&&◌, ◌||◌, Option, none, some, ◌==◌, nat_eq, list_eq, is_some,
}
use colui.Prelude.Map.{lookup}
use colui.Domain.AppError.{ProfileId}
use colui.Locks.State.{LockState, LifecycleLease, active}
use colui.Locks.Sections.{is_pending, is_active, holds_definition}
use colui.Locks.Local.{Entry}
use colui.Locks.Guards.{
  Guard, ticket, mutation, recovery, reservation, lifecycle, definition, container, is_lease,
  one_if, count, count_shared,
}
use colui.Locks.System.{System}

abbrev pub pends : ℕ → Entry → Bool
pends token none = false
pends token (some p) = is_pending token p.lifecycle

abbrev pub acts : ℕ → Entry → Bool
acts token none = false
acts token (some p) = is_active token p.lifecycle

abbrev pub defines : ℕ → Entry → Bool
defines token none = false
defines token (some p) = holds_definition token p.definition

-- How many copies of a lease's guard the state stands for.
abbrev pub expected : LockState → Guard → ℕ
expected s (reservation id token) = one_if (pends token (lookup id s.profiles))
expected s (lifecycle id token) = one_if (acts token (lookup id s.profiles))
expected s (definition id token) = one_if (defines token (lookup id s.profiles))
expected s (container c) = one_if (is_some (lookup c s.barrier.containers))
expected s recovery = one_if s.barrier.recovering
expected s ticket = 0
expected s mutation = 0

-- The same by the profile's entry alone, and whether a guard belongs to the profile.
abbrev pub in_entry : Guard → Entry → ℕ
in_entry (reservation id token) e = one_if (pends token e)
in_entry (lifecycle id token) e = one_if (acts token e)
in_entry (definition id token) e = one_if (defines token e)
in_entry _ e = 0

abbrev pub belongs : ProfileId → Guard → Bool
belongs id (reservation j token) = id == j
belongs id (lifecycle j token) = id == j
belongs id (definition j token) = id == j
belongs id _ = false

abbrev pub is_active_lease : Option LifecycleLease → Bool
is_active_lease (some (active token kind at)) = true
is_active_lease _ = false

-- A profile that nothing holds has no entry, and none is both in an active lifecycle operation and
-- in a definition load.
abbrev pub is_sound : Entry → Bool
is_sound none = true
is_sound (some p) =
    (is_some p.lifecycle || is_some p.definition)
    && not (is_active_lease p.lifecycle && is_some p.definition)

-- A notification is there, or will be sent when the definition ends.
abbrev pub will_wake : Entry → Bool
will_wake none = false
will_wake (some p) = is_some p.definition || p.notify

pub record Inv (y : System) : Type 0 where
  pub exact : (g : Guard) → is_lease g ≡ true → count g y.held ≡ expected y.state g
  pub shared_count : y.state.barrier.shared ≡ count_shared y.held
  pub alone : y.state.barrier.recovering ≡ true → y.state.barrier.shared ≡ 0
  pub sound : (id : ProfileId) → is_sound (lookup id y.state.profiles) ≡ true
  pub awake :
      (id : ProfileId) (token : ℕ)
      → y.sleeping id token ≡ true
      → (pends token (lookup id y.state.profiles) ≡ true)
        × (will_wake (lookup id y.state.profiles) ≡ true)
  pub calm : y.panicked ≡ false
