-- ===== src/Domain/Trim.antt =====
-- `str::trim`: the white space of Unicode at both
-- ends, on strings in UTF-8.
use mathlib.Core.List.{reverse}
use colui.Prelude.{ℕ, Bool, true, false, ◌&&◌, ◌||◌, [], ◌∷◌, if◌then◌else◌, leb, ◌==◌, nat_eq}
use colui.Domain.Text.{Text}

-- A character of white space in one byte, in two, and in three.
abbrev is_space1 : ℕ → Bool
is_space1 a = a == 0x20 || leb 0x09 a && leb a 0x0d

abbrev is_space2 : ℕ → ℕ → Bool
is_space2 a b = a == 0xc2 && (b == 0x85 || b == 0xa0)

abbrev is_space3 : ℕ → ℕ → ℕ → Bool
is_space3 a b c =
    a == 0xe1 && b == 0x9a && c == 0x80
    || a == 0xe2 && b == 0x80 && (leb 0x80 c && leb c 0x8a || c == 0xa8 || c == 0xa9 || c == 0xaf)
    || a == 0xe2 && b == 0x81 && c == 0x9f
    || a == 0xe3 && b == 0x80 && c == 0x80

module _ (two : ℕ → ℕ → Bool) (three : ℕ → ℕ → ℕ → Bool) where
  unfoldable trim_with : Text → Text
  trim_with [] = []
  trim_with (a ∷ []) = if is_space1 a then [] else a ∷ []
  trim_with (a ∷ b ∷ []) = elim (is_space1 a) [
    | true ↦ trim_with (b ∷ [])
    | false ↦ if two a b then [] else a ∷ b ∷ []
  ]
  trim_with (a ∷ b ∷ c ∷ ds) = elim (is_space1 a) [
    | true ↦ trim_with (b ∷ c ∷ ds)
    | false ↦ elim (two a b) [
      | true ↦ trim_with (c ∷ ds)
      | false ↦ elim (three a b c) [ true ↦ trim_with ds | false ↦ a ∷ b ∷ c ∷ ds ]
    ]
  ]

unfoldable pub trim : Text → Text
unfolding trim_with
trim t = reverse (
    trim_with (λ a b. is_space2 b a) (λ a b c. is_space3 c b a)
      (reverse (trim_with is_space2 is_space3 t)))
