-- ===== src/Adapters/Definitions/Invalidation.antt =====
-- A load of crates/colui-adapters/src/definitions.rs that was invalidated is not stored.
use colui.Prelude.{
  ℕ, ◌+◌, ◌≡◌, ◌≤◌, refl, ◌∙◌, ap, Bool, true, false, not, ◌||◌, List, [], ◌∷◌, Option, some,
  Result, arith, ◌==◌, nat_eq, option_eq, eqb_iff, all, Bool-cases, Option-cases, inl, inr,
  unwrap_or, ltb, is_none, ok, err, option_test_iff,
}
use colui.Prelude.Map.{Map, lookup, insert, lookup-insert}
use colui.Domain.Inventory.{Timestamp}
use colui.Domain.AppError.{AppError, ProfileId}
use colui.Domain.Identity.{Revision}
use colui.App.Recovery.Restore.{RegistrySnapshotIdentity}
use colui.Adapters.Definitions.Cache.{
  CacheState, epoch_of, advance_epochs, note_registry, is_registry, end_load, invalidate,
  invalidate_all, is_wanted, Loaded, store_result,
}

-- What happens while a load runs: other profiles are looked up, loads end, and profiles are
-- invalidated.
pub data Change : Type 0 where
  noted : ProfileId → Revision → Option RegistrySnapshotIdentity → Change
  ended : ProfileId → ℕ → Revision → Timestamp → ℕ → Result AppError Loaded → Change
  invalidated : ProfileId → Change
  invalidated_all : Change

unfoldable pub apply : Change → CacheState → CacheState
unfolding note_registry end_load invalidate invalidate_all
apply (noted id revision identity) s = note_registry id revision identity s
apply (ended id epoch revision now mono result) s = (end_load id epoch revision now mono result s).1
apply (invalidated id) s = invalidate id s
apply invalidated_all s = invalidate_all s

unfoldable pub apply_all : List Change → CacheState → CacheState
unfolding apply
apply_all [] s = s
apply_all (c ∷ cs) s = apply_all cs (apply c s)

-- Whether a change makes what is loaded of a profile out of date: its invalidation, that of all, and
-- the sight of another registry.
abbrev outdates : ProfileId → Change → CacheState → Bool
outdates id (noted other revision identity) s = not (is_registry s.registry_identity identity)
outdates id (ended other epoch revision now mono result) s = false
outdates id (invalidated other) s = other == id
outdates id invalidated_all s = true

unfoldable pub outdated : ProfileId → List Change → CacheState → Bool
unfolding apply
outdated id [] s = false
outdated id (c ∷ cs) s = outdates id c s || outdated id cs (apply c s)

-- No other load of the profile begins, which the lock on its definition sees to.
abbrev pub is_elsewhere : ProfileId → Change → Bool
is_elsewhere id (noted other revision identity) = not (other == id)
is_elsewhere id _ = true

lookup-advance_epochs :
    (id : ProfileId) (m : Map ProfileId ℕ)
    → unwrap_or (lookup id m) 0 ≤ unwrap_or (lookup id (advance_epochs m)) 0
unfolding lookup advance_epochs
lookup-advance_epochs id [] = omega arith
lookup-advance_epochs id ((j, e) ∷ m) = ground (arith, lookup-advance_epochs id m)

-- Whether nothing brings a load that began in an epoch back.
abbrev lost : ProfileId → ℕ → CacheState → Bool
lost id epoch s = ltb epoch (epoch_of id s) || is_none (lookup id s.revisions)

store_result-same :
    (id : ProfileId) (revision : Revision) (now : Timestamp) (mono : ℕ)
    (result : Result AppError Loaded) (s : CacheState)
    → ((store_result id revision now mono result s).1.epoch ≡ s.epoch)
      × (((store_result id revision now mono result s).1.revisions ≡ s.revisions)
          × ((store_result id revision now mono result s).1.registry_identity
              ≡ s.registry_identity))
store_result-same id revision now mono (ok loaded) s = (refl, (refl, refl))
store_result-same id revision now mono (err e) s = elim (Option-cases (lookup id s.entries)) [
  | inl f ↦ rw f (refl, (refl, refl))
  | inr (entry, f) ↦ rw f (refl, (refl, refl))
]

end_load-same :
    (id : ProfileId) (epoch : ℕ) (revision : Revision) (now : Timestamp) (mono : ℕ)
    (result : Result AppError Loaded) (s : CacheState)
    → ((end_load id epoch revision now mono result s).1.epoch ≡ s.epoch)
      × ((end_load id epoch revision now mono result s).1.revisions ≡ s.revisions)
unfolding end_load
end_load-same id epoch revision now mono result s =
    elim (Bool-cases (is_wanted id epoch revision s)) [
      | inl e ↦
          let (same_epoch, (same_revisions, _)) = store_result-same id revision now mono result s in
          rw e (same_epoch, same_revisions)
      | inr e ↦ rw e (refl, refl)
    ]

-- What each change does to what a load of the profile looks at.
apply-kept :
    (id : ProfileId) (c : Change) (s : CacheState)
    → is_elsewhere id c ≡ true
    → outdates id c s ≡ false
    → (epoch_of id (apply c s) ≡ epoch_of id s)
      × (lookup id (apply c s).revisions ≡ lookup id s.revisions)
unfolding apply note_registry invalidate
apply-kept id (noted j revision identity) s h o =
    let known : is_registry s.registry_identity identity ≡ true = ground arith in
    rw known (refl, lookup-insert j id revision s.revisions ∙ ground arith)
apply-kept id (ended j epoch revision now mono result) s h o =
    let (same_epoch, same_revisions) = end_load-same j epoch revision now mono result s in
    rw (same_epoch, same_revisions) (refl, refl)
apply-kept id (invalidated j) s h o =
    let other : (j == id) ≡ false = o in
    let same : lookup id (insert j (epoch_of j s + 1) s.epoch) ≡ lookup id s.epoch =
      lookup-insert j id (epoch_of j s + 1) s.epoch ∙ rw other refl in
    (ap (λ e. unwrap_or e 0) same, refl)
apply-kept id invalidated_all s h o = cc

apply-outdates :
    (id : ProfileId) (epoch : ℕ) (c : Change) (s : CacheState)
    → is_elsewhere id c ≡ true
    → epoch ≤ epoch_of id s
    → outdates id c s ≡ true
    → lost id epoch (apply c s) ≡ true
unfolding apply note_registry invalidate invalidate_all lookup
apply-outdates id epoch (noted j revision identity) s h l o =
    let known : is_registry s.registry_identity identity ≡ false = ground arith in
    rw known (ground arith)
apply-outdates id epoch (ended j e revision now mono result) s h l o = cc
apply-outdates id epoch (invalidated j) s h l o =
    let found : (j == id) ≡ true = o in
    let now_at : lookup id (insert j (epoch_of j s + 1) s.epoch) ≡ some (epoch_of j s + 1) =
      lookup-insert j id (epoch_of j s + 1) s.epoch ∙ rw found refl in
    let of_id : epoch_of j s ≡ epoch_of id s = ap (λ x. epoch_of x s) ((eqb_iff j id).0 found) in
    rw now_at (ground arith)
apply-outdates id epoch invalidated_all s h l o = ground arith

-- What was lost stays lost.
apply-lost :
    (id : ProfileId) (epoch : ℕ) (c : Change) (s : CacheState)
    → is_elsewhere id c ≡ true
    → lost id epoch s ≡ true
    → lost id epoch (apply c s) ≡ true
unfolding apply note_registry invalidate invalidate_all lookup
apply-lost id epoch (noted j revision identity) s h l =
    elim (Bool-cases (is_registry s.registry_identity identity)) [
      | inl known ↦
          let other : (j == id) ≡ false = ground arith in
          let same : lookup id (insert j revision s.revisions) ≡ lookup id s.revisions =
            lookup-insert j id revision s.revisions ∙ rw other refl in
          rw (known, same) l
      | inr unknown ↦ rw unknown (ground arith)
    ]
apply-lost id epoch (ended j e revision now mono result) s h l =
    let (same_epoch, same_revisions) = end_load-same j e revision now mono result s in
    rw (same_epoch, same_revisions) l
apply-lost id epoch (invalidated j) s h l =
    let later : epoch_of id s ≤ unwrap_or (lookup id (insert j (epoch_of j s + 1) s.epoch)) 0 =
      elim (Bool-cases (j == id)) [
        | inl found ↦
            let now_at : lookup id (insert j (epoch_of j s + 1) s.epoch) ≡ some (epoch_of j s + 1) =
              lookup-insert j id (epoch_of j s + 1) s.epoch ∙ rw found refl in
            let of_id : epoch_of j s ≡ epoch_of id s =
              ap (λ x. epoch_of x s) ((eqb_iff j id).0 found) in
            rw now_at (omega (arith, of_id))
        | inr other ↦
            let same : lookup id (insert j (epoch_of j s + 1) s.epoch) ≡ lookup id s.epoch =
              lookup-insert j id (epoch_of j s + 1) s.epoch ∙ rw other refl in
            rw same (omega arith)
      ] in
    ground (arith, later)
apply-lost id epoch invalidated_all s h l = ground arith

apply_all-lost :
    (id : ProfileId) (epoch : ℕ) (cs : List Change) (s : CacheState)
    → all (is_elsewhere id) cs ≡ true
    → lost id epoch s ≡ true
    → lost id epoch (apply_all cs s) ≡ true
unfolding apply_all
apply_all-lost id epoch [] s h l = l
apply_all-lost id epoch (c ∷ cs) s h l =
    apply_all-lost id epoch cs (apply c s) (ground arith) (apply-lost id epoch c s (ground arith) l)

lost-unwanted :
    (id : ProfileId) (epoch : ℕ) (revision : Revision) (s : CacheState)
    → lost id epoch s ≡ true
    → is_wanted id epoch revision s ≡ false
lost-unwanted id epoch revision s l = elim (Option-cases (lookup id s.revisions)) [
  | inl e ↦ ground arith
  | inr (r, e) ↦ ground arith
]

-- A load is wanted exactly if nothing has made it out of date since it began: no invalidation of its
-- profile or of all, and no sight of another registry. Conditions: it began in the state's epoch of
-- the profile, for the revision that the state has of it, and no other load of the profile begins.
pub is_wanted-outdated :
    (id : ProfileId) (epoch : ℕ) (revision : Revision) (changes : List Change) (s : CacheState)
    → all (is_elsewhere id) changes ≡ true
    → epoch_of id s ≡ epoch
    → lookup id s.revisions ≡ some revision
    → is_wanted id epoch revision (apply_all changes s) ≡ not (outdated id changes s)
unfolding apply_all outdated
is_wanted-outdated id epoch revision [] s h e r =
    ground (
      arith,
      eqb_iff (epoch_of id s) epoch,
      option_test_iff (lookup id s.revisions) (some revision),
    )
is_wanted-outdated id epoch revision (c ∷ cs) s h e r = elim (Bool-cases (outdates id c s)) [
  | inl o ↦ rw o (
      lost-unwanted id epoch revision (apply_all cs (apply c s)) (
        apply_all-lost id epoch cs (apply c s) (ground arith)
          (apply-outdates id epoch c s (ground arith) (omega (arith, e)) o)))
  | inr o ↦
      let (same_epoch, same_revision) = apply-kept id c s (ground arith) o in
      rw o (
        is_wanted-outdated id epoch revision cs (apply c s) (ground arith) (same_epoch ∙ e)
          (same_revision ∙ r))
]
