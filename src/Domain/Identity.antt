-- ===== src/Domain/Identity.antt =====
-- crates/colui-domain/src/identity.rs.
use colui.Prelude.{
  ℕ, Bool, false, not, ◌&&◌, ◌||◌, [], ◌∷◌, none, some, String, Result, ok, err, ok_or, all,
  if◌then◌else◌, checked_add_u64, ◌==◌,
}
use colui.Prelude.Eq.{nat_eq, list_eq}
use colui.Domain.Text.{Text, Uuids, is_ascii_lowercase, is_ascii_digit}
use colui.Domain.AppError.{AppError, ProfileId, app_error, registry_write_failed}

module _ ⦃u : Uuids⦄ where
  -- `ProfileId::parse`
  unfoldable pub parse : Text → Result String ProfileId
  parse value = elim (u.parse_str value) [
    | none ↦ err "profile id must be a UUID"
    | some uuid ↦
        if not (u.to_text uuid == value)
        then err "profile id must be a canonical lowercase hyphenated UUID"
        else ok uuid
  ]

abbrev pub DisplayName : Type 0
DisplayName = Text

-- `DisplayName::try_from`
unfoldable pub display_name : Text → Result String DisplayName
display_name value = if value == [] then err "display name must not be empty" else ok value

abbrev pub ComposeProjectName : Type 0
ComposeProjectName = Text

abbrev is_first_byte : ℕ → Bool
is_first_byte b = is_ascii_lowercase b || is_ascii_digit b

abbrev is_name_byte : ℕ → Bool
is_name_byte b = is_ascii_lowercase b || is_ascii_digit b || b == b'_' || b == b'-'

abbrev first_is_valid : Text → Bool
first_is_valid [] = false
first_is_valid (b ∷ bs) = is_first_byte b

-- `ComposeProjectName::try_from`
unfoldable pub compose_project_name : Text → Result String ComposeProjectName
compose_project_name value =
    if not (value == []) && first_is_valid value && all is_name_byte value
    then ok value
    else err "compose project name must match [a-z0-9][a-z0-9_-]*"

-- `Revision` wraps a `u64`.
abbrev pub Revision : Type 0
Revision = ℕ

abbrev pub initial : Revision
initial = 1

module _ ⦃u : Uuids⦄ where
  -- `Revision::next`
  abbrev pub next : Revision → Result AppError Revision
  next r =
      ok_or (checked_add_u64 r 1)
        (app_error registry_write_failed "advance_revision" none "revision exhausted")
