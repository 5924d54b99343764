-- ===== src/Locks/Preserve/Change.antt =====
-- What a step in one profile's entry has to show for the invariant of the lock manager to hold
-- after it (crates/colui-adapters/src/operations.rs).
use colui.Prelude.{
  ℕ, ◌+◌, ◌-◌, ◌≤◌, ◌≡◌, refl, sym, ◌∙◌, Bool, true, false, ◌||◌, not, inl, inr, arith, ◌==◌,
  nat_eq, eqb_iff, if◌then◌else◌, Bool-cases, list_eq,
}
use colui.Prelude.Map.{lookup}
use colui.Domain.AppError.{ProfileId}
use colui.Locks.State.{LockState}
use colui.Locks.Local.{Entry}
use colui.Locks.Guards.{
  Guard, recovery, reservation, lifecycle, definition, container, guard_test, guard_test_iff,
  is_lease, one_if, count, count_shared,
}
use colui.Locks.System.{System}
use colui.Locks.Invariant.{Inv, expected, in_entry, belongs, pends, will_wake, is_sound}

-- A guard of the profile, or one that stands for no entry.
abbrev pub fits_profile : ProfileId → Guard → Bool
fits_profile id g = not (is_lease g) || belongs id g

-- `old` is given back and `new` handed out, which agrees with the change of the entry.
abbrev pub Agrees : ProfileId → Guard → Guard → Entry → Entry → Type 0
Agrees id old new e e' =
    (g : Guard)
    → belongs id g ≡ true
    → one_if (guard_test new g) + (in_entry g e - one_if (guard_test old g)) ≡ in_entry g e'

pub record Change (y y' : System) (id : ProfileId) (old new : Guard) (e' : Entry) : Type 0 where
  pub entries :
      (j : ProfileId)
      → lookup j y'.state.profiles ≡ (if id == j then e' else lookup j y.state.profiles)
  pub containers : y'.state.barrier.containers ≡ y.state.barrier.containers
  pub recovering : y'.state.barrier.recovering ≡ y.state.barrier.recovering
  pub counts :
      (g : Guard)
      → is_lease g ≡ true
      → count g y'.held ≡ one_if (guard_test new g) + (count g y.held - one_if (guard_test old g))
  pub agrees : Agrees id old new (lookup id y.state.profiles) e'
  pub old_fits : fits_profile id old ≡ true
  pub new_fits : fits_profile id new ≡ true
  pub shared_count : y'.state.barrier.shared ≡ count_shared y'.held
  pub shared_le : y'.state.barrier.shared ≤ y.state.barrier.shared
  pub stays_sound : is_sound e' ≡ true
  pub others_sleep : (j : ProfileId) (t : ℕ) → (id == j) ≡ false → y'.sleeping j t ≡ y.sleeping j t
  pub sleepers_wake :
      (t : ℕ) → y'.sleeping id t ≡ true → (pends t e' ≡ true) × (will_wake e' ≡ true)
  pub stays_calm : y'.panicked ≡ y.panicked

apart :
    (id : ProfileId) (h g : Guard)
    → fits_profile id h ≡ true
    → is_lease g ≡ true
    → belongs id g ≡ false
    → guard_test h g ≡ false
apart id h g f l b = elim (Bool-cases (guard_test h g)) [
  | inl same ↦ cc (rw ((guard_test_iff h g).0 same) at f, l, b)
  | inr other ↦ other
]

expected_here :
    (s : LockState) (id : ProfileId) (g : Guard)
    → belongs id g ≡ true
    → expected s g ≡ in_entry g (lookup id s.profiles)
expected_here s id (reservation j t) b = ground (arith, eqb_iff id j)
expected_here s id (lifecycle j t) b = ground (arith, eqb_iff id j)
expected_here s id (definition j t) b = ground (arith, eqb_iff id j)
expected_here s id _ b = cc

module _ {y y' : System} {id : ProfileId} {old new : Guard} {e' : Entry} (v : Inv y)
    (c : Change y y' id old new e') where
  entry_here : lookup id y'.state.profiles ≡ e'
  entry_here = ground (arith, c.entries id, eqb_iff id id)

  expected_elsewhere : (g : Guard) → belongs id g ≡ false → expected y'.state g ≡ expected y.state g
  expected_elsewhere (reservation j t) b = ground (arith, c.entries j)
  expected_elsewhere (lifecycle j t) b = ground (arith, c.entries j)
  expected_elsewhere (definition j t) b = ground (arith, c.entries j)
  expected_elsewhere (container k) b = rw c.containers
  expected_elsewhere recovery b = rw c.recovering
  expected_elsewhere _ b = refl

  exact_after : (g : Guard) → is_lease g ≡ true → count g y'.held ≡ expected y'.state g
  exact_after g l = elim (Bool-cases (belongs id g)) [
    | inl b ↦ ground (
      arith,
      c.counts g l,
      v.exact g l,
      c.agrees g b,
      expected_here y.state id g b,
      expected_here y'.state id g b,
      entry_here,
    )
    | inr b ↦ ground (
      arith,
      c.counts g l,
      v.exact g l,
      apart id old g c.old_fits l b,
      apart id new g c.new_fits l b,
      expected_elsewhere g b,
    )
  ]

  awake_after :
      (j : ProfileId) (t : ℕ)
      → y'.sleeping j t ≡ true
      → (pends t (lookup j y'.state.profiles) ≡ true)
        × (will_wake (lookup j y'.state.profiles) ≡ true)
  awake_after j t h = elim (Bool-cases (id == j)) [
    | inl same ↦
        let here = (eqb_iff id j).0 same in rw (c.entries j, same) (c.sleepers_wake t (rw here h))
    | inr other ↦ rw (c.entries j, other) (v.awake j t (sym (c.others_sleep j t other) ∙ h))
  ]

  -- A step that changes one entry and exchanges the guards accordingly keeps the invariant.
  pub Change-Inv : Inv y'
  Change-Inv = record {
    exact = exact_after;
    shared_count = c.shared_count;
    alone = λ r. ground (arith, c.shared_le, c.recovering, v.alone, r);
    sound = λ j. ground (arith, c.entries j, c.stays_sound, v.sound j);
    awake = awake_after;
    calm = c.stays_calm ∙ v.calm;
  }
