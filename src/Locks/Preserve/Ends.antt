-- ===== src/Locks/Preserve/Ends.antt =====
-- The ends of the guards on a profile: a reservation that is dropped, a lifecycle operation and a
-- definition load that are over (crates/colui-adapters/src/operations.rs).
use colui.Prelude.{ℕ, ◌≡◌, refl, true, arith, nat_eq, eqb_iff}
use colui.Prelude.Map.{lookup}
use colui.Domain.Text.{Uuids}
use colui.Domain.AppError.{ProfileId}
use colui.Locks.Sections.{release_lifecycle, release_definition, release_pending}
use colui.Locks.Local.{
  finish_entry, cancel_entry, undefine_entry, lookup-release_lifecycle, lookup-release_definition,
  lookup-release_pending,
}
use colui.Locks.Guards.{ticket, reservation, lifecycle, definition}
use colui.Locks.System.{System, holds, finish_step, undefine_step, cancel_step}
use colui.Locks.Invariant.{Inv, pends, acts, defines}
use colui.Locks.Preserve.Change.{Change, Change-Inv}
use colui.Locks.Preserve.Counts.{holds-count, count-exchange, count_shared-exchange}
use colui.Locks.Preserve.Entries.{finish-Agrees, cancel-Agrees, undefine-Agrees}

module _ ⦃u : Uuids⦄ (y : System) (v : Inv y) (id : ProfileId) (token : ℕ) where
  pub holds-acts :
      holds (lifecycle id token) y ≡ true → acts token (lookup id y.state.profiles) ≡ true
  holds-acts h = ground (arith, v.exact (lifecycle id token) refl)

  finish-Change :
      holds (lifecycle id token) y ≡ true
      → Change y
          (finish_step y id token)
          id
          (lifecycle id token)
          ticket
          (finish_entry token (lookup id y.state.profiles))
  unfolding release_lifecycle
  finish-Change h =
      let held = holds-count (lifecycle id token) y h in
      let owner = holds-acts h in
      record {
        entries = λ j. lookup-release_lifecycle y.state id j token;
        containers = refl;
        recovering = refl;
        counts = λ g l. count-exchange (lifecycle id token) ticket g y.held;
        agrees = finish-Agrees id token (lookup id y.state.profiles) owner;
        old_fits = ground (arith, eqb_iff id id);
        new_fits = refl;
        shared_count = ground (
          arith,
          v.shared_count,
          count_shared-exchange (lifecycle id token) ticket y.held held refl refl,
        );
        shared_le = omega arith;
        stays_sound = ground (arith, v.sound id, owner);
        others_sleep = λ j t e. refl;
        sleepers_wake = λ t s. ground (arith, v.awake id t s, owner);
        stays_calm = refl;
      }

  pub holds-defines :
      holds (definition id token) y ≡ true → defines token (lookup id y.state.profiles) ≡ true
  holds-defines h = ground (arith, v.exact (definition id token) refl)

  undefine-Change :
      holds (definition id token) y ≡ true
      → Change y
          (undefine_step y id token)
          id
          (definition id token)
          ticket
          (undefine_entry token (lookup id y.state.profiles))
  unfolding release_definition
  undefine-Change h =
      let held = holds-count (definition id token) y h in
      let owner = holds-defines h in
      record {
        entries = λ j. lookup-release_definition y.state id j token;
        containers = refl;
        recovering = refl;
        counts = λ g l. count-exchange (definition id token) ticket g y.held;
        agrees = undefine-Agrees id token (lookup id y.state.profiles) owner;
        old_fits = ground (arith, eqb_iff id id);
        new_fits = refl;
        shared_count = ground (
          arith,
          v.shared_count,
          count_shared-exchange (definition id token) ticket y.held held refl refl,
        );
        shared_le = omega arith;
        stays_sound = ground (arith, v.sound id, owner);
        others_sleep = λ j t e. refl;
        sleepers_wake = λ t s. ground (arith, v.awake id t s, owner);
        stays_calm = refl;
      }

  pub holds-pends :
      holds (reservation id token) y ≡ true → pends token (lookup id y.state.profiles) ≡ true
  holds-pends h = ground (arith, v.exact (reservation id token) refl)

  cancel-Change :
      holds (reservation id token) y ≡ true
      → Change y
          (cancel_step y id token)
          id
          (reservation id token)
          ticket
          (cancel_entry token (lookup id y.state.profiles))
  unfolding release_pending
  cancel-Change h =
      let held = holds-count (reservation id token) y h in
      let owner = holds-pends h in
      record {
        entries = λ j. lookup-release_pending y.state id j token;
        containers = refl;
        recovering = refl;
        counts = λ g l. count-exchange (reservation id token) ticket g y.held;
        agrees = cancel-Agrees id token (lookup id y.state.profiles) owner;
        old_fits = ground (arith, eqb_iff id id);
        new_fits = refl;
        shared_count = ground (
          arith,
          v.shared_count,
          count_shared-exchange (reservation id token) ticket y.held held refl refl,
        );
        shared_le = omega arith;
        stays_sound = ground (arith, v.sound id, owner);
        others_sleep = λ j t e. ground arith;
        sleepers_wake = λ t s. ground (arith, eqb_iff id id, eqb_iff token t, v.awake id t, owner);
        stays_calm = refl;
      }

  pub finish-Inv : holds (lifecycle id token) y ≡ true → Inv (finish_step y id token)
  finish-Inv h = Change-Inv v (finish-Change h)

  pub undefine-Inv : holds (definition id token) y ≡ true → Inv (undefine_step y id token)
  undefine-Inv h = Change-Inv v (undefine-Change h)

  pub cancel-Inv : holds (reservation id token) y ≡ true → Inv (cancel_step y id token)
  cancel-Inv h = Change-Inv v (cancel-Change h)
