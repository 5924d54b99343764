-- ===== src/Locks/Local.antt =====
-- Each section of the lock manager that holds the profiles' mutex touches the entry of one profile
-- only (crates/colui-adapters/src/operations.rs). Here is what it does to that entry.
use colui.Prelude.{
  ℕ, ◌≡◌, Bool, true, false, ◌&&◌, Option, none, some, arith, ◌==◌, nat_eq, eqb_iff, if◌then◌else◌,
  is_some, is_none, unwrap_or, Option-cases, inl, inr,
}
use colui.Prelude.Map.{lookup, insert, lookup-insert, lookup-remove}
use colui.Domain.Text.{Uuids}
use colui.Domain.AppError.{ProfileId}
use colui.Domain.Inventory.{Timestamp}
use colui.App.Operations.{LifecycleOperation}
use colui.Locks.State.{LockState, ProfileState, LifecycleLease, pending, active, new_profile}
use colui.Locks.Sections.{
  Profiles, is_pending, is_active, holds_definition, remove_if_idle, release_shared,
  reserve_profile, enter_definition, wait_round, take_permit, release_pending, release_lifecycle,
  release_definition, round_on_lease,
}

abbrev pub Entry : Type 0
Entry = Option ProfileState

-- A profile with neither lease has no entry.
abbrev pub settle : ProfileState → Entry
settle p = if is_none p.lifecycle && is_none p.definition then none else some p

abbrev pub reserve_entry : ℕ → LifecycleOperation → Timestamp → Entry → Entry
reserve_entry token kind now o =
    let p = unwrap_or o new_profile in
    if is_some p.lifecycle
    then some p
    else some (record p { lifecycle = some (pending token kind now) })

abbrev pub define_entry : ℕ → Timestamp → Entry → Entry
define_entry token now o =
    let p = unwrap_or o new_profile in
    if is_some p.lifecycle
    then some p
    else if is_some p.definition
    then some p
    else some (record p { definition = some (record { token = token; started_at = now }) })

abbrev promote_lease : ℕ → Timestamp → ProfileState → Option LifecycleLease → ProfileState
promote_lease token now p (some (pending current kind at)) =
    if current == token
    then (if is_some p.definition
        then p
        else record p { lifecycle = some (active current kind now) })
    else p
promote_lease token now p _ = p

abbrev pub round_entry : ℕ → Timestamp → Entry → Entry
round_entry token now none = none
round_entry token now (some p) = some (promote_lease token now p p.lifecycle)

abbrev pub cancel_entry : ℕ → Entry → Entry
cancel_entry token none = none
cancel_entry token (some p) =
    if is_pending token p.lifecycle
    then settle (record p { lifecycle = none; notify = true })
    else some p

abbrev pub finish_entry : ℕ → Entry → Entry
finish_entry token none = none
finish_entry token (some p) =
    if is_active token p.lifecycle
    then settle (record p { lifecycle = none; notify = true })
    else some p

abbrev pub undefine_entry : ℕ → Entry → Entry
undefine_entry token none = none
undefine_entry token (some p) =
    if holds_definition token p.definition
    then settle (record p { definition = none; notify = true })
    else some p

abbrev pub has_permit : Entry → Bool
has_permit none = false
has_permit (some p) = p.notify

abbrev pub wake_entry : Entry → Entry
wake_entry none = none
wake_entry (some p) = some (record p { notify = false })

lookup-settle :
    (id j : ProfileId) (p : ProfileState) (ps : Profiles)
    → lookup j (remove_if_idle id (insert id p ps)) ≡ (if id == j then settle p else lookup j ps)
unfolding remove_if_idle
lookup-settle id j p ps = ground (
  arith,
  eqb_iff id id,
  eqb_iff id j,
  lookup-insert id id p ps,
  lookup-insert id j p ps,
  lookup-remove id j (insert id p ps),
)

lookup-round_on_lease :
    (s : LockState) (id j : ProfileId) (token : ℕ) (now : Timestamp) (p : ProfileState)
    (l : Option LifecycleLease)
    → lookup id s.profiles ≡ some p
    → lookup j (round_on_lease s id token now p l).1.profiles
      ≡ (if id == j then some (promote_lease token now p l) else lookup j s.profiles)
lookup-round_on_lease s id j token now p none e = ground (arith, eqb_iff id j)
lookup-round_on_lease s id j token now p (some (active current kind at)) e =
    ground (arith, eqb_iff id j)
lookup-round_on_lease s id j token now p (some (pending current kind at)) e = ground (
  arith,
  eqb_iff id j,
  lookup-insert id j (record p { lifecycle = some (active current kind now) }) s.profiles,
)

module _ (s : LockState) (id j : ProfileId) where
  pub lookup-release_lifecycle :
      (token : ℕ)
      → lookup j (release_lifecycle s id token).profiles
        ≡ (if id == j then finish_entry token (lookup id s.profiles) else lookup j s.profiles)
  unfolding release_lifecycle
  lookup-release_lifecycle token = elim (Option-cases (lookup id s.profiles)) [
    | inl e ↦ rw (e, release_lifecycle) (ground (arith, eqb_iff id j))
    | inr (p, e) ↦
        rw (e, release_lifecycle)
          (ground (
            arith,
            eqb_iff id j,
            lookup-settle id j (record p { lifecycle = none; notify = true }) s.profiles,
          ))
  ]

  pub lookup-release_definition :
      (token : ℕ)
      → lookup j (release_definition s id token).profiles
        ≡ (if id == j then undefine_entry token (lookup id s.profiles) else lookup j s.profiles)
  unfolding release_definition
  lookup-release_definition token = elim (Option-cases (lookup id s.profiles)) [
    | inl e ↦ rw (e, release_definition) (ground (arith, eqb_iff id j))
    | inr (p, e) ↦
        rw (e, release_definition)
          (ground (
            arith,
            eqb_iff id j,
            lookup-settle id j (record p { definition = none; notify = true }) s.profiles,
          ))
  ]

  pub lookup-release_pending :
      (token : ℕ)
      → lookup j (release_pending s id token).profiles
        ≡ (if id == j then cancel_entry token (lookup id s.profiles) else lookup j s.profiles)
  unfolding release_pending
  lookup-release_pending token = elim (Option-cases (lookup id s.profiles)) [
    | inl e ↦ rw (e, release_pending) (ground (arith, eqb_iff id j))
    | inr (p, e) ↦
        rw (e, release_pending)
          (ground (
            arith,
            eqb_iff id j,
            lookup-remove id j s.profiles,
            lookup-settle id j (record p { lifecycle = none; notify = true }) s.profiles,
          ))
  ]

  pub lookup-take_permit :
      (s' : LockState)
      → take_permit s id ≡ some s'
      → (lookup j s'.profiles
          ≡ (if id == j then wake_entry (lookup id s.profiles) else lookup j s.profiles))
        × (has_permit (lookup id s.profiles) ≡ true)
        × (s'.barrier ≡ s.barrier)
  unfolding take_permit
  lookup-take_permit s' h = elim (Option-cases (lookup id s.profiles)) [
    | inl e ↦ cc (rw (e, take_permit) at h)
    | inr (p, e) ↦
        let h' = rw (e, take_permit) at h in
        rw e (
          ground
            (arith, h', eqb_iff id j, lookup-insert id j (record p { notify = false }) s.profiles))
  ]

  pub lookup-wait_round :
      (token : ℕ) (now : Timestamp)
      → lookup j (wait_round s id token now).1.profiles
        ≡ (if id == j then round_entry token now (lookup id s.profiles) else lookup j s.profiles)
  unfolding wait_round
  lookup-wait_round token now = elim (Option-cases (lookup id s.profiles)) [
    | inl e ↦ rw (e, wait_round) (ground (arith, eqb_iff id j))
    | inr (p, e) ↦ rw (e, wait_round) (lookup-round_on_lease s id j token now p p.lifecycle e)
  ]

  pub lookup-enter_definition :
      (now : Timestamp)
      → lookup j (enter_definition s id now).1.profiles ≡ (
          if id == j
          then define_entry s.next_token now (lookup id s.profiles)
          else lookup j s.profiles)
  unfolding enter_definition release_shared
  lookup-enter_definition now = elim (Option-cases (lookup id s.profiles)) [
    | inl e ↦
        rw (e, enter_definition)
          (ground (
            arith,
            eqb_iff id j,
            lookup-insert id j new_profile s.profiles,
            lookup-insert id j
                (record new_profile {
                  definition = some (record { token = s.next_token; started_at = now });
                })
                (insert id new_profile s.profiles),
          ))
    | inr (p, e) ↦
        rw (e, enter_definition)
          (ground (
            arith,
            eqb_iff id j,
            lookup-insert id j
                (record p { definition = some (record { token = s.next_token; started_at = now }) })
                s.profiles,
          ))
  ]

module _ ⦃u : Uuids⦄ (s : LockState) (id j : ProfileId) where
  pub lookup-reserve_profile :
      (kind : LifecycleOperation) (now : Timestamp)
      → lookup j (reserve_profile s id kind now).1.profiles ≡ (
          if id == j
          then reserve_entry s.next_token kind now (lookup id s.profiles)
          else lookup j s.profiles)
  unfolding reserve_profile release_shared
  lookup-reserve_profile kind now = elim (Option-cases (lookup id s.profiles)) [
    | inl e ↦
        rw (e, reserve_profile)
          (ground (
            arith,
            eqb_iff id j,
            lookup-insert id j new_profile s.profiles,
            lookup-insert id j
                (record new_profile { lifecycle = some (pending s.next_token kind now) })
                (insert id new_profile s.profiles),
          ))
    | inr (p, e) ↦
        rw (e, reserve_profile)
          (ground (
            arith,
            eqb_iff id j,
            lookup-insert id j (record p { lifecycle = some (pending s.next_token kind now) })
                s.profiles,
          ))
  ]
