-- ===== src/Domain/Discovery/Encoding.antt =====
-- The ids of candidates (crates/colui-domain/src/discovery.rs): their length, and what they are the
-- digest of.
use colui.Prelude.{
  ℕ, zero, suc, ◌+◌, ◌-◌, ◌*◌, ◌%◌, ◌^◌, ◌≢◌, ◌==◌, nat_eq, Bool-cases, inl, inr, length-append,
  ◌≡◌, ◌≤◌, refl, ◌∙◌, sym, ap, List, [], ◌∷◌, ◌++◌, Option, none, some, length, u32_max, arith,
}
use colui.Domain.Text.{Text, bytes}
use colui.Domain.Inventory.{RuntimeSessionId}
use mathlib.Core.List.{append_assoc, append-nil}
use colui.Domain.Discovery.Digest.{
  be_bytes, hex, sha256, bytes_of, digest_words, Words, append_string, encode_candidate,
  candidate_id, min, padded, pad_zeros,
}

length-be_bytes : (n v : ℕ) → length (be_bytes n v) ≡ n
unfolding be_bytes
length-be_bytes zero v = refl
length-be_bytes (suc n) v = ap suc (length-be_bytes n v)

length-bytes_of : (w : Words) → length (bytes_of w) ≡ 32
unfolding be_bytes
length-bytes_of (a, (b, (c, (d, (e, (f, (g, h))))))) = refl

length-sha256 : (input : List ℕ) → length (sha256 input) ≡ 32
unfolding sha256
length-sha256 input = length-bytes_of (digest_words input)

length-hex : (bs : List ℕ) → length (hex bs) ≡ 2 * length bs
unfolding hex
length-hex [] = refl
length-hex (b ∷ bs) = omega (arith, length-hex bs)

-- The id of a candidate always has 64 digits.
pub length-candidate_id :
    (session : RuntimeSessionId) (name : Text) (directory : Option Text)
    → length (candidate_id session name directory) ≡ 64
unfolding candidate_id
length-candidate_id session name directory =
    length-hex (sha256 (encode_candidate session name directory))
    ∙ ap (λ n. 2 * n) (length-sha256 (encode_candidate session name directory))

cancel-prefix : (xs ys zs : List ℕ) → xs ++ ys ≡ xs ++ zs → ys ≡ zs
cancel-prefix [] ys zs h = h
cancel-prefix (x ∷ xs) ys zs h = cancel-prefix xs ys zs (ground arith)

split-append :
    (xs ys us vs : List ℕ) → length xs ≡ length ys → xs ++ us ≡ ys ++ vs → (xs ≡ ys) × (us ≡ vs)
split-append [] [] us vs l h = (refl, h)
split-append [] (y ∷ ys) us vs l h = ground arith
split-append (x ∷ xs) [] us vs l h = ground arith
split-append (x ∷ xs) (y ∷ ys) us vs l h =
    let (rest, tail) = split-append xs ys us vs (omega arith) (ground arith) in (ground arith, tail)

be_bytes-four : (v w : ℕ) → v ≤ u32_max → w ≤ u32_max → be_bytes 4 v ≡ be_bytes 4 w → v ≡ w
unfolding be_bytes
be_bytes-four v w l m h = ground arith

abbrev pub length_of : Option Text → ℕ
length_of none = 0
length_of (some d) = length d

-- A string that is appended can be read again, with what follows it.
string-injective :
    (n m us vs : List ℕ)
    → length n ≤ u32_max
    → length m ≤ u32_max
    → be_bytes 4 (min (length n) u32_max) ++ n ++ us
      ≡ be_bytes 4 (min (length m) u32_max) ++ m ++ vs
    → (n ≡ m) × (us ≡ vs)
string-injective n m us vs l k h =
    let n4 = be_bytes 4 (min (length n) u32_max) in
    let m4 = be_bytes 4 (min (length m) u32_max) in
    let (same_bytes, rest) =
      split-append n4 m4 (n ++ us) (m ++ vs)
        (length-be_bytes 4 (min (length n) u32_max)
          ∙ sym (length-be_bytes 4 (min (length m) u32_max)))
        (sym (append_assoc n4 n us) ∙ (h ∙ append_assoc m4 m vs)) in
    let same_min : min (length n) u32_max ≡ min (length m) u32_max =
      be_bytes-four (min (length n) u32_max) (min (length m) u32_max) (ground arith) (ground arith)
        same_bytes in
    split-append n m us vs (ground arith) rest

-- What is appended to the encoding of the name.
abbrev directory_part : Option Text → List ℕ
directory_part none = 0 ∷ []
directory_part (some d) = 1 ∷ (be_bytes 4 (min (length d) u32_max) ++ d ++ [])

regroup : (p b n t : List ℕ) → p ++ b ++ n ++ t ≡ p ++ (b ++ n ++ t)
regroup p b n t = ap (λ x. x ++ t) (append_assoc p b n) ∙ append_assoc p (b ++ n) t

append_directory-eq : (x b d : List ℕ) → x ++ 1 ∷ [] ++ b ++ d ≡ x ++ (1 ∷ (b ++ d ++ []))
append_directory-eq x b d =
    append_assoc (x ++ 1 ∷ []) b d
    ∙ (append_assoc x (1 ∷ []) (b ++ d) ∙ ap (λ y. x ++ (1 ∷ y)) (sym (append-nil (b ++ d))))

encode_candidate-eq :
    (session : RuntimeSessionId) (name : Text) (directory : Option Text)
    → encode_candidate session name directory
      ≡ (bytes "colui-candidate-v1" ++ be_bytes 16 session)
        ++ (be_bytes 4 (min (length name) u32_max) ++ name ++ directory_part directory)
unfolding encode_candidate append_string be_bytes
encode_candidate-eq session name none =
    regroup (bytes "colui-candidate-v1" ++ be_bytes 16 session)
      (be_bytes 4 (min (length name) u32_max)) name (0 ∷ [])
encode_candidate-eq session name (some d) =
    let front = bytes "colui-candidate-v1" ++ be_bytes 16 session in
    let named = be_bytes 4 (min (length name) u32_max) in
    let sized = be_bytes 4 (min (length d) u32_max) in
    append_directory-eq (front ++ named ++ name) sized d
    ∙ regroup front named name (1 ∷ (sized ++ d ++ []))

directory_part-injective :
    (d e : Option Text)
    → length_of d ≤ u32_max
    → length_of e ≤ u32_max
    → directory_part d ≡ directory_part e
    → d ≡ e
directory_part-injective none none l k h = refl
directory_part-injective none (some e) l k h = ground arith
directory_part-injective (some d) none l k h = ground arith
directory_part-injective (some d) (some e) l k h =
    ap some ((string-injective d e [] [] l k (ground arith)).0)

-- Within a session the ids of two candidates are digests of one text only if the candidates have one
-- name and one directory. Condition: the names and the directories have less than 2^32 bytes.
pub encode_candidate-injective :
    (session : RuntimeSessionId) (n m : Text) (d e : Option Text)
    → length n ≤ u32_max
    → length m ≤ u32_max
    → length_of d ≤ u32_max
    → length_of e ≤ u32_max
    → encode_candidate session n d ≡ encode_candidate session m e
    → (n ≡ m) × (d ≡ e)
encode_candidate-injective session n m d e l k o p h =
    let prefix = bytes "colui-candidate-v1" ++ be_bytes 16 session in
    let tails =
      cancel-prefix prefix _ _
        (sym (encode_candidate-eq session n d) ∙ (h ∙ encode_candidate-eq session m e)) in
    let (names, directories) =
      string-injective n m (directory_part d) (directory_part e) l k tails in
    (names, directory_part-injective d e o p directories)

pad_zeros-enough :
    (n : ℕ) (t : List ℕ) → (120 - length t % 64) % 64 ≤ n → length (pad_zeros n t) % 64 ≡ 56
unfolding pad_zeros
pad_zeros-enough zero t h = omega (arith, h)
pad_zeros-enough (suc n) t h = elim (Bool-cases (length t % 64 == 56)) [
  | inl done ↦ rw done (ground arith)
  | inr more ↦
      let longer : length (t ++ 0 ∷ []) ≡ length t + 1 = length-append t (0 ∷ []) in
      let other : length t % 64 ≢ 56 = ground arith in
      rw more (pad_zeros-enough n (t ++ 0 ∷ []) (omega (arith, h, longer, other)))
]

-- The 63 rounds of the padding are enough: the padded input is made of whole chunks of 64 bytes, so
-- that the loop over the chunks ends with nothing left.
pub padded-whole : (input : List ℕ) → length (padded input) % 64 ≡ 0
padded-whole input =
    let zeros = pad_zeros 63 (input ++ 0x80 ∷ []) in
    let size = be_bytes 8 (length input * 8 % 2 ^ 64) in
    let full = pad_zeros-enough 63 (input ++ 0x80 ∷ []) (omega arith) in
    omega (arith, length-append zeros size, length-be_bytes 8 (length input * 8 % 2 ^ 64), full)
