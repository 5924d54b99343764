-- ===== src/App/Profiles/Lists.antt =====
-- The lists of profiles of crates/colui-app/src/profiles.rs: one profile of each id.
use colui.Prelude.{
  ◌≡◌, refl, Bool, true, false, not, ◌&&◌, List, [], ◌∷◌, ◌++◌, none, some, any, all, find, arith,
  if◌then◌else◌, ◌==◌, nat_eq, eqb_iff, is_none,
}
use colui.Domain.AppError.{ProfileId}
use colui.Domain.Profile.{ProjectProfile}
use colui.App.Profiles.Mutations.{has_id, replace_first, remove_first}

-- No two profiles have one id.
unfoldable pub is_unique : List ProjectProfile → Bool
is_unique [] = true
is_unique (p ∷ ps) = not (any (has_id p.id) ps) && is_unique ps

pub find-append :
    (id : ProfileId) (ps : List ProjectProfile) (q : ProjectProfile)
    → any (has_id q.id) ps ≡ false
    → find (has_id id) (ps ++ (q ∷ [])) ≡ (if q.id == id then some q else find (has_id id) ps)
find-append id [] q h = refl
find-append id (p ∷ ps) q h =
    ground (arith, find-append id ps q, eqb_iff p.id q.id, eqb_iff q.id id, eqb_iff p.id id)

pub find-replace_first :
    (id j : ProfileId) (q : ProjectProfile) (ps : List ProjectProfile)
    → q.id ≡ id
    → any (has_id id) ps ≡ true
    → find (has_id j) (replace_first id q ps) ≡ (if j == id then some q else find (has_id j) ps)
unfolding replace_first
find-replace_first id j q [] e h = cc
find-replace_first id j q (p ∷ ps) e h = ground (
  arith,
  find-replace_first id j q ps e,
  eqb_iff p.id id,
  eqb_iff j id,
  eqb_iff p.id j,
  eqb_iff q.id j,
)

pub find-not_any :
    (id : ProfileId) (ps : List ProjectProfile)
    → any (has_id id) ps ≡ false
    → find (has_id id) ps ≡ none
find-not_any id [] h = refl
find-not_any id (p ∷ ps) h = ground (arith, find-not_any id ps)

pub find-any :
    (id : ProfileId) (p : ProjectProfile) (ps : List ProjectProfile)
    → find (has_id id) ps ≡ some p
    → (any (has_id id) ps ≡ true) × (p.id ≡ id)
find-any id p [] h = cc
find-any id p (q ∷ ps) h = ground (arith, find-any id p ps, eqb_iff q.id id)

pub any-find :
    (id : ProfileId) (ps : List ProjectProfile)
    → any (has_id id) ps ≡ not (is_none (find (has_id id) ps))
any-find id [] = refl
any-find id (p ∷ ps) = ground (arith, any-find id ps)

pub find-remove_first :
    (id j : ProfileId) (ps : List ProjectProfile)
    → is_unique ps ≡ true
    → find (has_id j) (remove_first id ps) ≡ (if j == id then none else find (has_id j) ps)
unfolding remove_first is_unique
find-remove_first id j [] u = ground arith
find-remove_first id j (p ∷ ps) u = ground (
  arith,
  find-remove_first id j ps,
  find-not_any p.id ps,
  eqb_iff p.id id,
  eqb_iff j id,
  eqb_iff p.id j,
)

any-replace_first :
    (id j : ProfileId) (q : ProjectProfile) (ps : List ProjectProfile)
    → q.id ≡ id
    → any (has_id j) (replace_first id q ps) ≡ any (has_id j) ps
unfolding replace_first
any-replace_first id j q [] e = refl
any-replace_first id j q (p ∷ ps) e =
    ground (arith, any-replace_first id j q ps e, eqb_iff p.id id, eqb_iff q.id j, eqb_iff p.id j)

any-remove_first :
    (id j : ProfileId) (ps : List ProjectProfile)
    → any (has_id j) ps ≡ false
    → any (has_id j) (remove_first id ps) ≡ false
unfolding remove_first
any-remove_first id j [] e = refl
any-remove_first id j (p ∷ ps) e = ground (arith, any-remove_first id j ps)

any-append :
    (j : ProfileId) (q : ProjectProfile) (ps : List ProjectProfile)
    → any (has_id j) ps ≡ false
    → (q.id == j) ≡ false
    → any (has_id j) (ps ++ (q ∷ [])) ≡ false
any-append j q [] e f = ground arith
any-append j q (p ∷ ps) e f = ground (arith, any-append j q ps)

pub is_unique-append :
    (q : ProjectProfile) (ps : List ProjectProfile)
    → is_unique ps ≡ true
    → any (has_id q.id) ps ≡ false
    → is_unique (ps ++ (q ∷ [])) ≡ true
unfolding is_unique
is_unique-append q [] u e = refl
is_unique-append q (p ∷ ps) u e =
    ground
      (arith, is_unique-append q ps, any-append p.id q ps, eqb_iff q.id p.id, eqb_iff p.id q.id)

pub is_unique-replace_first :
    (id : ProfileId) (q : ProjectProfile) (ps : List ProjectProfile)
    → q.id ≡ id
    → is_unique ps ≡ true
    → is_unique (replace_first id q ps) ≡ true
unfolding is_unique replace_first
is_unique-replace_first id q [] e u = refl
is_unique-replace_first id q (p ∷ ps) e u =
    ground
      (arith, is_unique-replace_first id q ps e, any-replace_first id p.id q ps e, eqb_iff p.id id)

pub is_unique-remove_first :
    (id : ProfileId) (ps : List ProjectProfile)
    → is_unique ps ≡ true
    → is_unique (remove_first id ps) ≡ true
unfolding is_unique remove_first
is_unique-remove_first id [] u = refl
is_unique-remove_first id (p ∷ ps) u =
    ground (arith, is_unique-remove_first id ps, any-remove_first id p.id ps)

-- What holds of all profiles of a list holds of those of the changed list.
module _ (f : ProjectProfile → Bool) where
  pub all-append :
      (q : ProjectProfile) (ps : List ProjectProfile)
      → all f ps ≡ true
      → f q ≡ true
      → all f (ps ++ (q ∷ [])) ≡ true
  all-append q [] a b = ground arith
  all-append q (p ∷ ps) a b = ground (arith, all-append q ps)

  pub all-replace_first :
      (id : ProfileId) (q : ProjectProfile) (ps : List ProjectProfile)
      → all f ps ≡ true
      → f q ≡ true
      → all f (replace_first id q ps) ≡ true
  unfolding replace_first
  all-replace_first id q [] a b = refl
  all-replace_first id q (p ∷ ps) a b = ground (arith, all-replace_first id q ps)

  pub all-remove_first :
      (id : ProfileId) (ps : List ProjectProfile)
      → all f ps ≡ true
      → all f (remove_first id ps) ≡ true
  unfolding remove_first
  all-remove_first id [] a = refl
  all-remove_first id (p ∷ ps) a = ground (arith, all-remove_first id ps)
