-- ===== src/Locks/Preserve/Counts.antt =====
-- How the counts of guards move when one is exchanged or given back
-- (crates/colui-adapters/src/operations.rs).
use colui.Prelude.{◌+◌, ◌-◌, ◌<◌, ◌≡◌, true, List, arith}
use colui.Locks.Guards.{
  Guard, ticket, recovery, reservation, lifecycle, definition, container, guard_test, is_lease,
  is_shared, one_if, count, count_shared, remove_one, count-remove_one, count_shared-remove_one,
}
use colui.Locks.System.{System, exchange, holds}

pub holds-count : (g : Guard) (y : System) → holds g y ≡ true → 0 < count g y.held
holds-count g y h = ground arith

pub count-exchange :
    (old new g : Guard) (held : List Guard)
    → count g (exchange old new held)
      ≡ one_if (guard_test new g) + (count g held - one_if (guard_test old g))
unfolding count
count-exchange old new g held = rw (count-remove_one g old held)

-- A ticket that is given back changes no count of leases.
pub count-drop_ticket :
    (g : Guard) (held : List Guard)
    → is_lease g ≡ true
    → count g (remove_one ticket held)
      ≡ one_if (guard_test ticket g) + (count g held - one_if (guard_test ticket g))
count-drop_ticket (reservation j t) held l =
    omega (arith, count-remove_one (reservation j t) ticket held)
count-drop_ticket (lifecycle j t) held l =
    omega (arith, count-remove_one (lifecycle j t) ticket held)
count-drop_ticket (definition j t) held l =
    omega (arith, count-remove_one (definition j t) ticket held)
count-drop_ticket (container c) held l = omega (arith, count-remove_one (container c) ticket held)
count-drop_ticket recovery held l = omega (arith, count-remove_one recovery ticket held)
count-drop_ticket _ held l = ground arith

pub count_shared-exchange :
    (old new : Guard) (held : List Guard)
    → 0 < count old held
    → is_shared old ≡ true
    → is_shared new ≡ true
    → count_shared (exchange old new held) ≡ count_shared held
unfolding count_shared
count_shared-exchange old new held h o n = ground (arith, count_shared-remove_one old held h)

pub count_shared-drop :
    (old : Guard) (held : List Guard)
    → 0 < count old held
    → is_shared old ≡ true
    → count_shared (remove_one old held) ≡ count_shared held - 1
count_shared-drop old held h o = ground (arith, count_shared-remove_one old held h)

pub count-same :
    (g : Guard) (held : List Guard)
    → is_lease g ≡ true
    → count g held ≡ one_if (guard_test ticket g) + (count g held - one_if (guard_test ticket g))
count-same ticket held l = cc
count-same g held l = omega arith
