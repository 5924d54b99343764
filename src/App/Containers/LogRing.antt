-- ===== src/App/Containers/LogRing.antt =====
-- The retention of container logs in crates/colui-app/src/containers.rs.
use colui.Prelude.{
  ℕ, ◌+◌, ◌-◌, Bool, false, not, ◌||◌, [], ◌∷◌, ◌++◌, List, length, drop, leb, u64_max,
  if◌then◌else◌, ◌==◌, nat_eq,
}
use colui.Domain.Text.{Text}

pub record LogByteRing : Type 0 where
  pub bytes : Text
  pub truncated : Bool

-- `LogByteRing::CAPACITY`
abbrev pub capacity : ℕ
capacity = 262144

-- `LogByteRing::default`
abbrev pub new_ring : LogByteRing
new_ring = record { bytes = []; truncated = false }

abbrev pub min : ℕ → ℕ → ℕ
min a b = if leb a b then a else b

-- `usize::saturating_add` on 64 bits
abbrev pub saturating_add : ℕ → ℕ → ℕ
saturating_add a b = min (a + b) u64_max

-- How many bytes a push of `n` bytes discards, of those kept and those pushed.
abbrev pub discarded : LogByteRing → ℕ → ℕ
discarded r n = saturating_add (length r.bytes) n - capacity

-- `LogByteRing::push`
unfoldable pub push : LogByteRing → Text → LogByteRing
push r bytes = record {
  bytes =
      drop (min (discarded r (length bytes)) (length r.bytes)) r.bytes
      ++ drop (length bytes - capacity) bytes;
  truncated = r.truncated || not (discarded r (length bytes) == 0);
}

-- The chunks of a response, one after the other.
unfoldable pub push_all : LogByteRing → List Text → LogByteRing
push_all r [] = r
push_all r (chunk ∷ chunks) = push_all (push r chunk) chunks
