-- ===== src/Domain/Text.antt =====
-- Rust's strings as their bytes, which is how the program walks them, and the `uuid` crate's part
-- in them.
use Prim.Native.Char.{code}
use colui.Prelude.{ℕ, Bool, ◌&&◌, List, [], ◌∷◌, Option, String, leb}

abbrev pub Text : Type 0
Text = List ℕ

-- The `uuid` crate: a UUID is a number of 128 bits, `Display` writes it and `parse_str` reads it.
pub record Uuids : Type 0 where
  pub to_text : ℕ → Text
  pub parse_str : Text → Option ℕ

abbrev in_range : ℕ → ℕ → ℕ → Bool
in_range low high b = leb low b && leb b high

-- `u8::is_ascii_lowercase` and `u8::is_ascii_digit`
abbrev pub is_ascii_lowercase : ℕ → Bool
is_ascii_lowercase = in_range b'a' b'z'

abbrev pub is_ascii_digit : ℕ → Bool
is_ascii_digit = in_range b'0' b'9'

-- A literal of the source, which is ASCII: its bytes.
abbrev pub bytes : String → Text
bytes String.[] = []
bytes (String.◌∷◌ c s) = code c ∷ bytes s
