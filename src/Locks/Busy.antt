-- ===== src/Locks/Busy.antt =====
-- When a profile is busy (`is_busy` of crates/colui-adapters/src/operations.rs).
use colui.Prelude.{
  ◌≡◌, ◌↔◌, refl, arith, true, false, List, Option, none, some, Option-cases, nat_eq, eqb_iff, inl,
  inr,
}
use colui.Prelude.Map.{lookup}
use colui.Domain.Text.{Uuids}
use colui.Domain.AppError.{ProfileId}
use colui.Locks.State.{ProfileState, LifecycleLease, pending, active, DefinitionLease}
use colui.Locks.Guards.{Guard, reservation, lifecycle, definition, count}
use colui.Locks.Handlers.{is_busy}
use colui.Locks.System.{System, start, Event, run}
use colui.Locks.Invariant.{Inv, belongs}
use colui.Locks.Preserve.Steps.{run-Inv}

module _ {y : System} (v : Inv y) (id : ProfileId) where
  idle_guard : (g : Guard) → is_busy y.state id ≡ false → belongs id g ≡ true → count g y.held ≡ 0
  unfolding is_busy
  idle_guard (reservation j t) idle b = ground (arith, eqb_iff id j, v.exact (reservation j t) refl)
  idle_guard (lifecycle j t) idle b = ground (arith, eqb_iff id j, v.exact (lifecycle j t) refl)
  idle_guard (definition j t) idle b = ground (arith, eqb_iff id j, v.exact (definition j t) refl)
  idle_guard _ idle b = cc

  idle_entry :
      (p : ProfileState) (l : Option LifecycleLease) (d : Option DefinitionLease)
      → ((g : Guard) → belongs id g ≡ true → count g y.held ≡ 0)
      → lookup id y.state.profiles ≡ some p
      → p.lifecycle ≡ l
      → p.definition ≡ d
      → is_busy y.state id ≡ false
  unfolding is_busy
  idle_entry p (some (pending t k a)) d free e le de =
      ground (
        arith,
        free (reservation id t),
        v.exact (reservation id t) refl,
        eqb_iff t t,
        eqb_iff id id,
      )
  idle_entry p (some (active t k a)) d free e le de =
      ground
        (arith, free (lifecycle id t), v.exact (lifecycle id t) refl, eqb_iff t t, eqb_iff id id)
  idle_entry p none (some lease) free e le de = ground (
    arith,
    free (definition id lease.token),
    v.exact (definition id lease.token) refl,
    eqb_iff lease.token lease.token,
    eqb_iff id id,
  )
  idle_entry p none none free e le de = ground arith

  unheld_profile :
      ((g : Guard) → belongs id g ≡ true → count g y.held ≡ 0) → is_busy y.state id ≡ false
  unfolding is_busy
  unheld_profile free = elim (Option-cases (lookup id y.state.profiles)) [
    | inl e ↦ ground arith
    | inr (p, e) ↦ idle_entry p p.lifecycle p.definition free e refl refl
  ]

-- After any schedule, `is_busy` is false of a profile exactly when nobody holds a reservation, a
-- lifecycle guard or a definition guard on it.
pub idle_iff :
    ⦃u : Uuids⦄ (es : List Event) (id : ProfileId)
    → (is_busy (run start es).state id ≡ false)
      ↔ ((g : Guard) → belongs id g ≡ true → count g (run start es).held ≡ 0)
idle_iff es id = (λ idle g b. idle_guard (run-Inv es) id g idle b, unheld_profile (run-Inv es) id)
