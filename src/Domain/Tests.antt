-- ===== src/Domain/Tests.antt =====
-- Drafts and ids of crates/colui-domain (src/profile.rs, src/identity.rs).
use colui.Prelude.{ℕ, ◌≡◌, ◌≢◌, ◌↔◌, ◌++◌, [], ◌∷◌, Option, none, some, refl, ok, map}
use mathlib.Core.List.{Nodup}
use colui.Domain.Text.{Text, Uuids, bytes}
use colui.Domain.Identity.{parse}
use colui.Domain.Canonical.{parse-to_text}
use colui.Domain.FilePath.{components}
use colui.Domain.Profile.{ProfileDraft, manual, validate_draft}
use colui.Domain.Profile.Validation.{validate_draft_iff}

abbrev read_byte : Text → Option ℕ
read_byte (b ∷ []) = some b
read_byte _ = none

instance abbrev test_uuids : Uuids
test_uuids = record { to_text = λ n. n ∷ []; parse_str = read_byte }

-- The environment file is the Compose file, spelled otherwise.
abbrev draft : ProfileDraft
draft = record {
  display_name = bytes "web";
  compose_project_name = bytes "web";
  working_directory = bytes "/w";
  compose_files = bytes "/w/c" ∷ [];
  environment_files = bytes "/w//c" ∷ [];
  registration_origin = manual;
}

validate_draft_iff_example : (validate_draft draft ≡ ok tt) ↔ (
    (draft.compose_files ≢ [])
    × Nodup (map components (draft.compose_files ++ draft.environment_files)))
validate_draft_iff_example = validate_draft_iff draft

abbrev written : Text
written = 7 ∷ []

parse-to_text_example : (parse written ≡ ok 7) ↔ (written ≡ 7 ∷ [])
parse-to_text_example = parse-to_text 7 written refl
