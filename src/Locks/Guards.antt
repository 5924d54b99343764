-- ===== src/Locks/Guards.antt =====
-- The guards that the lock manager of crates/colui-adapters/src/operations.rs hands out, and how
-- many of each a list of guards holds.
use colui.Prelude.{
  ℕ, ◌+◌, ◌-◌, ◌<◌, ◌≤◌, ◌≡◌, ◌↔◌, Bool, true, false, ◌&&◌, List, [], ◌∷◌, arith, EqTest, ◌==◌,
  nat_eq, list_eq, list_test_iff, if◌then◌else◌,
}
use colui.Domain.Text.{Text}
use colui.Domain.AppError.{ProfileId}

-- A `ticket` is a thread that has entered the barrier and stands between two critical sections, or
-- at the opening of the recovery file.
pub data Guard : Type 0 where
  ticket mutation recovery : Guard
  reservation lifecycle definition : ProfileId → ℕ → Guard
  container : Text → Guard

abbrev pub guard_test : Guard → Guard → Bool
guard_test ticket ticket = true
guard_test mutation mutation = true
guard_test recovery recovery = true
guard_test (reservation i t) (reservation j v) = i == j && t == v
guard_test (lifecycle i t) (lifecycle j v) = i == j && t == v
guard_test (definition i t) (definition j v) = i == j && t == v
guard_test (container c) (container d) = c == d
guard_test _ _ = false

pub guard_test_iff : (g h : Guard) → (guard_test g h ≡ true) ↔ (g ≡ h)
guard_test_iff ticket ticket = ground arith
guard_test_iff mutation mutation = ground arith
guard_test_iff recovery recovery = ground arith
guard_test_iff (reservation i t) (reservation j v) = ground arith
guard_test_iff (lifecycle i t) (lifecycle j v) = ground arith
guard_test_iff (definition i t) (definition j v) = ground arith
guard_test_iff (container c) (container d) = ground (arith, list_test_iff c d)
guard_test_iff _ _ = ground arith

instance abbrev pub guard_eq : EqTest Guard
guard_eq = record { test = guard_test; test_iff = guard_test_iff }

-- All but the recovery guard count in the barrier.
abbrev pub is_shared : Guard → Bool
is_shared recovery = false
is_shared _ = true

-- The guards that stand for an entry in the lock manager's state.
abbrev pub is_lease : Guard → Bool
is_lease ticket = false
is_lease mutation = false
is_lease _ = true

abbrev pub one_if : Bool → ℕ
one_if b = if b then 1 else 0

unfoldable pub count : Guard → List Guard → ℕ
count g [] = 0
count g (h ∷ hs) = one_if (h == g) + count g hs

unfoldable pub count_shared : List Guard → ℕ
count_shared [] = 0
count_shared (h ∷ hs) = one_if (is_shared h) + count_shared hs

unfoldable pub remove_one : Guard → List Guard → List Guard
remove_one g [] = []
remove_one g (h ∷ hs) = if h == g then hs else h ∷ remove_one g hs

pub count-remove_one :
    (g h : Guard) (hs : List Guard) → count g (remove_one h hs) ≡ count g hs - one_if (h == g)
unfolding count remove_one
count-remove_one g h [] = omega arith
count-remove_one g h (k ∷ hs) =
    ground
      (arith, guard_test_iff k h, guard_test_iff k g, guard_test_iff h g, count-remove_one g h hs)

pub count_shared-remove_one :
    (h : Guard) (hs : List Guard)
    → 0 < count h hs
    → count_shared (remove_one h hs) + one_if (is_shared h) ≡ count_shared hs
unfolding count count_shared remove_one
count_shared-remove_one h [] m = absurd (omega arith)
count_shared-remove_one h (k ∷ hs) m =
    ground (arith, guard_test_iff k h, count_shared-remove_one h hs)

pub count-le-count_shared :
    (h : Guard) (hs : List Guard) → is_shared h ≡ true → count h hs ≤ count_shared hs
unfolding count count_shared
count-le-count_shared h [] e = omega arith
count-le-count_shared h (k ∷ hs) e =
    ground (arith, guard_test_iff k h, count-le-count_shared h hs e)
