-- ===== src/Domain/Discovery/Digest.antt =====
-- crates/colui-domain/src/discovery.rs: the id of a candidate, the SHA-256 of its session, name and
-- directory, in hexadecimal.
use colui.Prelude.{
  ℕ, zero, suc, ◌+◌, ◌-◌, ◌==◌, nat_eq, ◌*◌, ◌/◌, ◌%◌, ◌^◌, ◌≡◌, refl, List, [], ◌∷◌, ◌++◌, Option,
  none, some, length, u32_max, if◌then◌else◌, leb, ltb, take, drop, get_elem?, unwrap_or,
}
use mathlib.Core.List.{reverse}
use colui.Domain.Text.{Text, bytes}
use colui.Domain.Inventory.{RuntimeSessionId}

abbrev word : ℕ
word = 2 ^ 32

-- Operations on words of some bits, bit by bit.
abbrev bitwise : (ℕ → ℕ → ℕ) → ℕ → ℕ → ℕ → ℕ
bitwise f zero x y = 0
bitwise f (suc n) x y = f (x % 2) (y % 2) + 2 * bitwise f n (x / 2) (y / 2)

abbrev xor : ℕ → ℕ → ℕ
xor = bitwise (λ a b. (a + b) % 2) 32

abbrev and : ℕ → ℕ → ℕ
and = bitwise (λ a b. a * b) 32

abbrev complement : ℕ → ℕ
complement x = word - 1 - x

abbrev rotate_right : ℕ → ℕ → ℕ
rotate_right x n = x / 2 ^ n + x * 2 ^ (32 - n) % word

abbrev wrapping_add : ℕ → ℕ → ℕ
wrapping_add a b = (a + b) % word

-- `to_be_bytes` of an integer of some bytes
unfoldable pub be_bytes : ℕ → ℕ → List ℕ
be_bytes zero v = []
be_bytes (suc n) v = v / 256 ^ n % 256 ∷ be_bytes n v

abbrev initial_words : List ℕ
initial_words =
    0x6a09e667 ∷ 0xbb67ae85 ∷ 0x3c6ef372 ∷ 0xa54ff53a ∷ 0x510e527f ∷ 0x9b05688c ∷ 0x1f83d9ab
    ∷ 0x5be0cd19 ∷ []

abbrev k_words : List ℕ
k_words =
    0x428a2f98 ∷ 0x71374491 ∷ 0xb5c0fbcf ∷ 0xe9b5dba5 ∷ 0x3956c25b ∷ 0x59f111f1 ∷ 0x923f82a4
    ∷ 0xab1c5ed5 ∷ 0xd807aa98 ∷ 0x12835b01 ∷ 0x243185be ∷ 0x550c7dc3 ∷ 0x72be5d74 ∷ 0x80deb1fe
    ∷ 0x9bdc06a7 ∷ 0xc19bf174 ∷ 0xe49b69c1 ∷ 0xefbe4786 ∷ 0x0fc19dc6 ∷ 0x240ca1cc ∷ 0x2de92c6f
    ∷ 0x4a7484aa ∷ 0x5cb0a9dc ∷ 0x76f988da ∷ 0x983e5152 ∷ 0xa831c66d ∷ 0xb00327c8 ∷ 0xbf597fc7
    ∷ 0xc6e00bf3 ∷ 0xd5a79147 ∷ 0x06ca6351 ∷ 0x14292967 ∷ 0x27b70a85 ∷ 0x2e1b2138 ∷ 0x4d2c6dfc
    ∷ 0x53380d13 ∷ 0x650a7354 ∷ 0x766a0abb ∷ 0x81c2c92e ∷ 0x92722c85 ∷ 0xa2bfe8a1 ∷ 0xa81a664b
    ∷ 0xc24b8b70 ∷ 0xc76c51a3 ∷ 0xd192e819 ∷ 0xd6990624 ∷ 0xf40e3585 ∷ 0x106aa070 ∷ 0x19a4c116
    ∷ 0x1e376c08 ∷ 0x2748774c ∷ 0x34b0bcb5 ∷ 0x391c0cb3 ∷ 0x4ed8aa4a ∷ 0x5b9cca4f ∷ 0x682e6ff3
    ∷ 0x748f82ee ∷ 0x78a5636f ∷ 0x84c87814 ∷ 0x8cc70208 ∷ 0x90befffa ∷ 0xa4506ceb ∷ 0xbef9a3f7
    ∷ 0xc67178f2 ∷ []

abbrev from_be : ℕ → ℕ → ℕ → ℕ → ℕ
from_be a b c d = a * 2 ^ 24 + b * 2 ^ 16 + c * 2 ^ 8 + d

abbrev chunk_words : List ℕ → List ℕ
chunk_words (a ∷ b ∷ c ∷ d ∷ rest) = from_be a b c d ∷ chunk_words rest
chunk_words _ = []

-- The words of the schedule, the last one first.
abbrev next_word : List ℕ → ℕ
next_word ws =
    let w2 = unwrap_or (get_elem? ws 1) 0 in
    let w7 = unwrap_or (get_elem? ws 6) 0 in
    let w15 = unwrap_or (get_elem? ws 14) 0 in
    let w16 = unwrap_or (get_elem? ws 15) 0 in
    let s0 = xor (xor (rotate_right w15 7) (rotate_right w15 18)) (w15 / 2 ^ 3) in
    let s1 = xor (xor (rotate_right w2 17) (rotate_right w2 19)) (w2 / 2 ^ 10) in
    wrapping_add (wrapping_add (wrapping_add w16 s0) w7) s1

abbrev extend : ℕ → List ℕ → List ℕ
extend zero ws = ws
extend (suc n) ws = extend n (next_word ws ∷ ws)

-- The eight words of the state.
abbrev pub Words : Type 0
Words = ℕ × (ℕ × (ℕ × (ℕ × (ℕ × (ℕ × (ℕ × ℕ))))))

abbrev round : Words → ℕ → ℕ → Words
round (a, (b, (c, (d, (e, (f, (g, h))))))) k w =
    let sum1 = xor (xor (rotate_right e 6) (rotate_right e 11)) (rotate_right e 25) in
    let choice = xor (and e f) (and (complement e) g) in
    let temp1 = wrapping_add (wrapping_add (wrapping_add (wrapping_add h sum1) choice) k) w in
    let sum0 = xor (xor (rotate_right a 2) (rotate_right a 13)) (rotate_right a 22) in
    let majority = xor (xor (and a b) (and a c)) (and b c) in
    let temp2 = wrapping_add sum0 majority in
    (wrapping_add temp1 temp2, (a, (b, (c, (wrapping_add d temp1, (e, (f, g)))))))

abbrev rounds : Words → List ℕ → List ℕ → Words
rounds s [] ws = s
rounds s (k ∷ ks) [] = s
rounds s (k ∷ ks) (w ∷ ws) = rounds (round s k w) ks ws

abbrev add_words : Words → Words → Words
add_words (a, (b, (c, (d, (e, (f, (g, h))))))) (i, (j, (k, (l, (m, (n, (o, p))))))) = (
  wrapping_add a i,
  (
    wrapping_add b j,
    (
      wrapping_add c k,
      (
        wrapping_add d l,
        (wrapping_add e m, (wrapping_add f n, (wrapping_add g o, wrapping_add h p))),
      ),
    ),
  ),
)

abbrev compress : Words → List ℕ → Words
compress hash chunk =
    add_words hash (rounds hash k_words (reverse (extend 48 (reverse (chunk_words chunk)))))

-- The chunks of 64 bytes, of which there are at most as many as the first argument says.
abbrev compress_all : ℕ → Words → List ℕ → Words
compress_all zero hash padded = hash
compress_all (suc n) hash padded =
    if ltb (length padded) 64
    then hash
    else compress_all n (compress hash (take 64 padded)) (drop 64 padded)

-- `while padded.len() % 64 != 56 { padded.push(0) }`, for at most as many rounds as the first
-- argument says.
unfoldable pub pad_zeros : ℕ → List ℕ → List ℕ
pad_zeros zero t = t
pad_zeros (suc n) t = if length t % 64 == 56 then t else pad_zeros n (t ++ 0 ∷ [])

abbrev pub padded : List ℕ → List ℕ
padded input = pad_zeros 63 (input ++ 0x80 ∷ []) ++ be_bytes 8 (length input * 8 % 2 ^ 64)

abbrev words_of : List ℕ → Words
words_of (a ∷ b ∷ c ∷ d ∷ e ∷ f ∷ g ∷ h ∷ rest) = (a, (b, (c, (d, (e, (f, (g, h)))))))
words_of _ = (0, (0, (0, (0, (0, (0, (0, 0)))))))

abbrev pub bytes_of : Words → List ℕ
bytes_of (a, (b, (c, (d, (e, (f, (g, h))))))) =
    be_bytes 4 a
    ++ be_bytes 4 b
    ++ be_bytes 4 c
    ++ be_bytes 4 d
    ++ be_bytes 4 e
    ++ be_bytes 4 f
    ++ be_bytes 4 g
    ++ be_bytes 4 h

unfoldable pub digest_words : List ℕ → Words
unfolding pad_zeros be_bytes
digest_words input =
    compress_all (length (padded input) / 64) (words_of initial_words) (padded input)

unfoldable pub sha256 : List ℕ → List ℕ
unfolding digest_words be_bytes
sha256 input = bytes_of (digest_words input)

abbrev digit : ℕ → ℕ
digit n = unwrap_or (get_elem? (bytes "0123456789abcdef") n) 0

unfoldable pub hex : List ℕ → Text
hex [] = []
hex (b ∷ bs) = digit (b / 16) ∷ digit (b % 16) ∷ hex bs

abbrev pub min : ℕ → ℕ → ℕ
min a b = if leb a b then a else b

-- A length that does not fit in 32 bits is written as the largest one.
unfoldable pub append_string : List ℕ → Text → List ℕ
unfolding be_bytes
append_string encoded value = encoded ++ be_bytes 4 (min (length value) u32_max) ++ value

abbrev pub append_directory : List ℕ → Option Text → List ℕ
append_directory encoded none = encoded ++ 0 ∷ []
append_directory encoded (some directory) = append_string (encoded ++ 1 ∷ []) directory

-- What the id of a candidate is the digest of; a session's id is a UUID of 16 bytes.
unfoldable pub encode_candidate : RuntimeSessionId → Text → Option Text → List ℕ
unfolding append_string be_bytes
encode_candidate session name working_directory =
    append_directory (append_string (bytes "colui-candidate-v1" ++ be_bytes 16 session) name)
      working_directory

unfoldable pub candidate_id : RuntimeSessionId → Text → Option Text → Text
unfolding encode_candidate sha256 hex
candidate_id session name working_directory =
    hex (sha256 (encode_candidate session name working_directory))

empty_digest :
    hex (sha256 []) ≡ bytes "e3b0c44298fc1c149afbf4c8996fb92427ae41e4649b934ca495991b7852b855"
unfolding hex sha256 digest_words pad_zeros be_bytes
empty_digest = refl
