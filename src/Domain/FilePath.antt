-- ===== src/Domain/FilePath.antt =====
-- What the program uses of `std::path` on Unix: a path is a string of bytes, `==` compares the
-- components, `push` puts a path below another, `pop` goes to the parent, `to_str` asks for UTF-8.
use colui.Prelude.{
  ℕ, ◌≡◌, ◌↔◌, Bool, true, false, ◌&&◌, List, [], ◌∷◌, ◌++◌, Option, none, some, arith, ◌==◌, ◌-◌,
  if◌then◌else◌, leb, drop,
}
use colui.Prelude.Eq.{list_eq, nat_eq, EqTest, list_test_iff}
use mathlib.Core.List.{reverse}
use colui.Domain.Text.{Text}

abbrev pub FilePath : Type 0
FilePath = Text

-- `Component::Prefix` is found on Windows only.
pub data Component : Type 0 where
  root_dir cur_dir parent_dir : Component
  normal : Text → Component

abbrev pub is_absolute : FilePath → Bool
is_absolute [] = false
is_absolute (c ∷ cs) = c == b'/'

-- The pieces between the slashes; `word` is what stands before the rest, backwards.
abbrev pub segments_from : Text → Text → List Text
segments_from word [] = word ∷ []
segments_from word (c ∷ cs) =
    let more = segments_from [] cs in
    let longer = segments_from (word ++ c ∷ []) cs in if c == b'/' then word ∷ more else longer

abbrev pub segments : FilePath → List Text
segments p = segments_from [] p

abbrev pub dot : Text
dot = b'.' ∷ []

abbrev pub dot_dot : Text
dot_dot = b'.' ∷ b'.' ∷ []

-- A piece inside the path: empty pieces and `.` are passed over.
abbrev pub inner_components : List Text → List Component
inner_components [] = []
inner_components (s ∷ ss) =
    let rest = inner_components ss in
    if s == []
    then rest
    else if s == dot
    then rest
    else if s == dot_dot
    then parent_dir ∷ rest
    else normal s ∷ rest

-- A relative path may begin with `.`, which is kept.
abbrev pub relative_components : List Text → List Component
relative_components [] = []
relative_components (s ∷ ss) =
    if s == dot then cur_dir ∷ inner_components ss else inner_components (s ∷ ss)

unfoldable pub components : FilePath → List Component
components p =
    if is_absolute p
    then root_dir ∷ inner_components (segments p)
    else relative_components (segments p)

abbrev pub component_test : Component → Component → Bool
component_test root_dir root_dir = true
component_test cur_dir cur_dir = true
component_test parent_dir parent_dir = true
component_test (normal a) (normal b) = a == b
component_test _ _ = false

pub component_test_iff : (a b : Component) → (component_test a b ≡ true) ↔ (a ≡ b)
component_test_iff root_dir root_dir = ground arith
component_test_iff cur_dir cur_dir = ground arith
component_test_iff parent_dir parent_dir = ground arith
component_test_iff (normal a) (normal b) = ground (arith, list_test_iff a b)
component_test_iff _ _ = ground arith

instance abbrev pub component_eq : EqTest Component
component_eq = record { test = component_test; test_iff = component_test_iff }

-- `Path::eq`, and so the equality of a `HashSet` of paths.
abbrev pub path_eq : FilePath → FilePath → Bool
path_eq p q = components p == components q

abbrev pub ends_with_slash : Text → Bool
ends_with_slash [] = false
ends_with_slash (c ∷ []) = c == b'/'
ends_with_slash (c ∷ d ∷ ds) = ends_with_slash (d ∷ ds)

abbrev with_separator : FilePath → FilePath
with_separator [] = []
with_separator (c ∷ cs) = if ends_with_slash (c ∷ cs) then c ∷ cs else (c ∷ cs) ++ b'/' ∷ []

-- `PathBuf::push`, which is also `Path::join`: an absolute path takes the place of the buffer.
unfoldable pub push : FilePath → FilePath → FilePath
push buffer p = if is_absolute p then p else with_separator buffer ++ p

-- `parent` passes over the empty pieces and the `.` at the end.
abbrev is_passed_over : Text → Bool
is_passed_over s = if s == [] then true else s == dot

abbrev skip_front : List Text → List Text
skip_front [] = []
skip_front (s ∷ ss) = let rest = skip_front ss in if is_passed_over s then rest else s ∷ ss

abbrev trim_end : List Text → List Text
trim_end ss = reverse (skip_front (reverse ss))

abbrev without_last : List Text → List Text
without_last [] = []
without_last (s ∷ []) = []
without_last (s ∷ t ∷ ts) = s ∷ without_last (t ∷ ts)

abbrev join_segments : List Text → Text
join_segments [] = []
join_segments (s ∷ []) = s
join_segments (s ∷ t ∷ ts) = s ++ b'/' ∷ join_segments (t ∷ ts)

abbrev parent_body : List Text → Option Text
parent_body [] = none
parent_body (s ∷ ss) = some (join_segments (trim_end (without_last (s ∷ ss))))

-- `PathBuf::pop` on an absolute path, the only use that the program makes of it: the root stays.
unfoldable pub pop_absolute : FilePath → FilePath
pop_absolute p = elim (parent_body (trim_end (segments (drop 1 p)))) [
  | none ↦ p
  | some body ↦ b'/' ∷ body
]

abbrev in_range : ℕ → ℕ → ℕ → Bool
in_range lo hi b = leb lo b && leb b hi

-- Where a UTF-8 decoder stands: the continuation bytes to come, and the range of the next byte.
abbrev Awaited : Type 0
Awaited = ℕ × ℕ × ℕ

abbrev between_characters : Awaited
between_characters = (0, 0, 127)

abbrev first_byte : ℕ → Option Awaited
first_byte b =
    if in_range 0 0x7f b
    then some between_characters
    else if in_range 0xc2 0xdf b
    then some (1, 0x80, 0xbf)
    else if b == 0xe0
    then some (2, 0xa0, 0xbf)
    else if b == 0xed
    then some (2, 0x80, 0x9f)
    else if in_range 0xe1 0xef b
    then some (2, 0x80, 0xbf)
    else if b == 0xf0
    then some (3, 0x90, 0xbf)
    else if in_range 0xf1 0xf3 b
    then some (3, 0x80, 0xbf)
    else if b == 0xf4
    then some (3, 0x80, 0x8f)
    else none

abbrev next_byte : Awaited → ℕ → Option Awaited
next_byte (more, lo, hi) b =
    if more == 0
    then first_byte b
    else if in_range lo hi b
    then some (more - 1, 0x80, 0xbf)
    else none

utf8_from : Awaited → Text → Bool
utf8_from (more, lo, hi) [] = more == 0
utf8_from w (b ∷ bs) = elim (next_byte w b) [ none ↦ false | some w' ↦ utf8_from w' bs ]

unfoldable pub is_utf8 : Text → Bool
unfolding utf8_from
is_utf8 t = utf8_from between_characters t

-- `Path::to_str`
abbrev pub to_str : FilePath → Option Text
to_str p = if is_utf8 p then some p else none

-- `Path::parent` on an absolute path: the root has none.
unfoldable pub parent_absolute : FilePath → Option FilePath
parent_absolute p = elim (parent_body (trim_end (segments (drop 1 p)))) [
  | none ↦ none
  | some body ↦ some (b'/' ∷ body)
]

abbrev last_segment : List Text → Text
last_segment [] = []
last_segment (s ∷ []) = s
last_segment (s ∷ t ∷ ts) = last_segment (t ∷ ts)

-- `Path::file_name` on an absolute path, empty where there is none.
abbrev pub file_name_absolute : FilePath → Text
file_name_absolute p = last_segment (trim_end (segments (drop 1 p)))

-- What stands before the last `.`, if there is one.
abbrev before_last_dot : Text → Option Text
before_last_dot [] = none
before_last_dot (c ∷ cs) = elim (before_last_dot cs) [
  | some stem ↦ some (c ∷ stem)
  | none ↦ if c == b'.' then some [] else none
]

-- `Path::file_stem` of a file name: a dot at its beginning ends no stem.
abbrev file_stem : Text → Text
file_stem name = elim (before_last_dot name) [
  | none ↦ name
  | some [] ↦ name
  | some (c ∷ cs) ↦ c ∷ cs
]

-- `Path::with_extension` on an absolute path: without a file name the path stays.
unfoldable pub with_extension_absolute : FilePath → Text → FilePath
unfolding parent_absolute push
with_extension_absolute p extension = elim (parent_absolute p) [
  | none ↦ p
  | some parent ↦ push parent (file_stem (file_name_absolute p) ++ b'.' ∷ extension)
]
