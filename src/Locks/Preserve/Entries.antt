-- ===== src/Locks/Preserve/Entries.antt =====
-- How the entry of a profile and the guards on it change together, transition by transition
-- (crates/colui-adapters/src/operations.rs).
use colui.Prelude.{ℕ, ◌≡◌, true, false, some, arith, nat_eq, eqb_iff, is_some, unwrap_or}
use colui.Domain.AppError.{ProfileId}
use colui.Domain.Inventory.{Timestamp}
use colui.App.Operations.{LifecycleOperation}
use colui.Locks.State.{ProfileState, new_profile}
use colui.Locks.Local.{
  Entry, reserve_entry, define_entry, round_entry, cancel_entry, finish_entry, undefine_entry,
}
use colui.Locks.Guards.{ticket, reservation, lifecycle, definition}
use colui.Locks.Invariant.{pends, acts, defines}
use colui.Locks.Preserve.Change.{Agrees}

module _ (id : ProfileId) (token : ℕ) where
  pub reserve-Agrees :
      (kind : LifecycleOperation) (now : Timestamp) (e : Entry)
      → is_some (unwrap_or e new_profile).lifecycle ≡ false
      → Agrees id ticket (reservation id token) e (reserve_entry token kind now e)
  reserve-Agrees kind now e f (reservation j t) b = ground (arith, eqb_iff id j, eqb_iff token t)
  reserve-Agrees kind now e f (lifecycle j t) b = ground (arith, eqb_iff id j)
  reserve-Agrees kind now e f (definition j t) b = ground (arith, eqb_iff id j)
  reserve-Agrees kind now e f _ b = cc

  pub define-Agrees :
      (now : Timestamp) (e : Entry)
      → is_some (unwrap_or e new_profile).lifecycle ≡ false
      → is_some (unwrap_or e new_profile).definition ≡ false
      → Agrees id ticket (definition id token) e (define_entry token now e)
  define-Agrees now e f d (reservation j t) b = ground (arith, eqb_iff id j)
  define-Agrees now e f d (lifecycle j t) b = ground (arith, eqb_iff id j)
  define-Agrees now e f d (definition j t) b = ground (arith, eqb_iff id j, eqb_iff token t)
  define-Agrees now e f d _ b = cc

  pub cancel-Agrees :
      (e : Entry)
      → pends token e ≡ true
      → Agrees id (reservation id token) ticket e (cancel_entry token e)
  cancel-Agrees e h (reservation j t) b = ground (arith, eqb_iff id j, eqb_iff token t)
  cancel-Agrees e h (lifecycle j t) b = ground (arith, eqb_iff id j)
  cancel-Agrees e h (definition j t) b = ground (arith, eqb_iff id j)
  cancel-Agrees e h _ b = cc

  pub finish-Agrees :
      (e : Entry)
      → acts token e ≡ true
      → Agrees id (lifecycle id token) ticket e (finish_entry token e)
  finish-Agrees e h (reservation j t) b = ground (arith, eqb_iff id j)
  finish-Agrees e h (lifecycle j t) b = ground (arith, eqb_iff id j, eqb_iff token t)
  finish-Agrees e h (definition j t) b = ground (arith, eqb_iff id j)
  finish-Agrees e h _ b = cc

  pub undefine-Agrees :
      (e : Entry)
      → defines token e ≡ true
      → Agrees id (definition id token) ticket e (undefine_entry token e)
  undefine-Agrees e h (reservation j t) b = ground (arith, eqb_iff id j)
  undefine-Agrees e h (lifecycle j t) b = ground (arith, eqb_iff id j)
  undefine-Agrees e h (definition j t) b = ground (arith, eqb_iff id j, eqb_iff token t)
  undefine-Agrees e h _ b = cc

module _ (id : ProfileId) (token : ℕ) where
  pub promote-Agrees :
      (now : Timestamp) (p : ProfileState)
      → pends token (some p) ≡ true
      → is_some p.definition ≡ false
      → Agrees id
          (reservation id token)
          (lifecycle id token)
          (some p)
          (round_entry token now (some p))
  promote-Agrees now p h d (reservation j t) b = ground (arith, eqb_iff id j, eqb_iff token t)
  promote-Agrees now p h d (lifecycle j t) b = ground (arith, eqb_iff id j, eqb_iff token t)
  promote-Agrees now p h d (definition j t) b = ground (arith, eqb_iff id j)
  promote-Agrees now p h d _ b = cc

  pub same-Agrees :
      (e e' : Entry)
      → ((t : ℕ) → pends t e' ≡ pends t e)
      → ((t : ℕ) → acts t e' ≡ acts t e)
      → ((t : ℕ) → defines t e' ≡ defines t e)
      → Agrees id ticket ticket e e'
  same-Agrees e e' p a d (reservation j t) b = ground (arith, p t)
  same-Agrees e e' p a d (lifecycle j t) b = ground (arith, a t)
  same-Agrees e e' p a d (definition j t) b = ground (arith, d t)
  same-Agrees e e' p a d _ b = cc
