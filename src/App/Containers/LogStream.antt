-- ===== src/App/Containers/LogStream.antt =====
-- The log ring keeps the end of what was pushed (crates/colui-app/src/containers.rs).
use colui.Prelude.{
  ℕ, zero, suc, ◌+◌, ◌-◌, ◌≡◌, refl, sym, ap, ◌∙◌, List, [], ◌∷◌, ◌++◌, length, drop, ltb, arith,
  length-append, length-drop, nat_eq,
}
use mathlib.Core.List.{append_assoc, append-nil}
use colui.Domain.Text.{Text}
use colui.App.Containers.LogRing.{LogByteRing, capacity, new_ring, min, discarded, push, push_all}

-- All bytes that were pushed.
unfoldable pub joined : List Text → Text
joined [] = []
joined (chunk ∷ chunks) = chunk ++ joined chunks

drop-append : (n : ℕ) (xs ys : Text) → drop n (xs ++ ys) ≡ drop n xs ++ drop (n - length xs) ys
drop-append zero xs ys = ground arith
drop-append (suc n) [] ys = ground arith
drop-append (suc n) (x ∷ xs) ys = ground (arith, drop-append n xs ys)

drop-nil : (n : ℕ) → drop {A = ℕ} n [] ≡ []
drop-nil zero = refl
drop-nil (suc n) = refl

drop-drop : (m n : ℕ) (xs : Text) → drop m (drop n xs) ≡ drop (n + m) xs
drop-drop m zero xs = ground arith
drop-drop m (suc n) [] = ground (arith, drop-nil m, drop-nil (suc n + m))
drop-drop m (suc n) (x ∷ xs) =
    let shifted : suc (n + m) ≡ suc n + m = omega arith in
    drop-drop m n xs ∙ ap (λ k. drop k (x ∷ xs)) shifted

drop-min : (n : ℕ) (xs : Text) → drop (min n (length xs)) xs ≡ drop n xs
drop-min zero [] = ground arith
drop-min zero (x ∷ xs) = ground arith
drop-min (suc n) [] = ground arith
drop-min (suc n) (x ∷ xs) = ground (arith, drop-min n xs)

-- A ring holds a stream: its last bytes, and whether there were more.
abbrev pub Holds : LogByteRing → Text → Type 0
Holds r s = (r.bytes ≡ drop (length s - capacity) s) × (r.truncated ≡ ltb capacity (length s))

kept_part :
    (r : LogByteRing) (s bytes : Text)
    → r.bytes ≡ drop (length s - capacity) s
    → drop (min (discarded r (length bytes)) (length r.bytes)) r.bytes
      ≡ drop (length s + length bytes - capacity) s
kept_part r s bytes kept =
    let k = min (discarded r (length bytes)) (length r.bytes) in
    let start = length s - capacity in
    let end = length s + length bytes - capacity in
    let size = ap length kept ∙ length-drop start s in
    let same : min (start + k) (length s) ≡ min end (length s) = ground (arith, size) in
    ap (drop k) kept
    ∙ drop-drop k start s
    ∙ sym (drop-min (start + k) s)
    ∙ ap (λ n. drop n s) same
    ∙ drop-min end s

push-Holds : (r : LogByteRing) (s bytes : Text) → Holds r s → Holds (push r bytes) (s ++ bytes)
unfolding push
push-Holds r s bytes (kept, cut) = (
  rw
      (
        length-append s bytes,
        drop-append (length s + length bytes - capacity) s bytes,
        kept_part r s bytes kept,
      )
      (ap (λ n. drop (length s + length bytes - capacity) s ++ drop n bytes) (omega arith)),
  ground (arith, length-append s bytes, ap length kept, length-drop (length s - capacity) s),
)

push_all-Holds :
    (r : LogByteRing) (s : Text) (chunks : List Text)
    → Holds r s
    → Holds (push_all r chunks) (s ++ joined chunks)
unfolding push_all joined
push_all-Holds r s [] h = rw (append-nil s) h
push_all-Holds r s (chunk ∷ chunks) h =
    rw (sym (append_assoc s chunk (joined chunks)))
      (push_all-Holds (push r chunk) (s ++ chunk) chunks (push-Holds r s chunk h))

-- However a response is cut into chunks, the ring keeps its last 262144 bytes, all of it if it is
-- no longer, and says whether it was longer.
pub push_all-keeps_end :
    (chunks : List Text)
    → ((push_all new_ring chunks).bytes ≡ drop (length (joined chunks) - capacity) (joined chunks))
      × ((push_all new_ring chunks).truncated ≡ ltb capacity (length (joined chunks)))
push_all-keeps_end chunks = push_all-Holds new_ring [] chunks (refl, refl)
