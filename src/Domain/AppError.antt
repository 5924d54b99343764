-- ===== src/Domain/AppError.antt =====
-- crates/colui-domain/src/error.rs.
use colui.Prelude.{ℕ, Bool, true, false, Option, none, some, String}
use colui.Domain.Text.{Text, Uuids}

pub data AppErrorCode : Type 0 where
  runtime_unavailable runtime_connection_failed runtime_context_mismatch : AppErrorCode
  candidate_stale discovery_conflict : AppErrorCode
  profile_not_found profile_already_registered profile_revision_conflict : AppErrorCode
  profile_invalid definition_failed compose_failed container_operation_failed : AppErrorCode
  operation_conflict operation_timeout : AppErrorCode
  registry_corrupt registry_locked registry_write_failed recovery_conflict : AppErrorCode
  permission_denied protocol_mismatch : AppErrorCode

pub data AppErrorSubjectKind : Type 0 where
  profile candidate container registry : AppErrorSubjectKind

pub record AppErrorSubject : Type 0 where
  pub kind : AppErrorSubjectKind
  pub id : Text

-- `ProfileId` wraps a UUID.
abbrev pub ProfileId : Type 0
ProfileId = ℕ

pub record AppError : Type 0 where
  pub code : AppErrorCode
  pub operation : String
  pub subject : Option AppErrorSubject
  pub subject_id : Option ProfileId
  pub message : String
  pub details : Option String
  pub retryable : Bool

-- The `matches!` of both constructors.
abbrev pub is_retryable : AppErrorCode → Bool
is_retryable recovery_conflict = true
is_retryable registry_locked = true
is_retryable registry_write_failed = true
is_retryable _ = false

abbrev pub with_details : AppError → String → AppError
with_details e d = record e { details = some d }

abbrev pub for_subject : AppErrorCode → String → AppErrorSubject → String → AppError
for_subject code operation subject message = record {
  code = code;
  operation = operation;
  subject = some subject;
  subject_id = none;
  message = message;
  details = none;
  retryable = is_retryable code;
}

module _ ⦃u : Uuids⦄ where
  -- `AppErrorSubject::profile`
  abbrev pub profile_subject : ProfileId → AppErrorSubject
  profile_subject id = record { kind = profile; id = u.to_text id }

  abbrev pub subject_of : Option ProfileId → Option AppErrorSubject
  subject_of none = none
  subject_of (some id) = some (profile_subject id)

  -- `AppError::new`
  abbrev pub app_error : AppErrorCode → String → Option ProfileId → String → AppError
  app_error code operation subject_id message = record {
    code = code;
    operation = operation;
    subject = subject_of subject_id;
    subject_id = subject_id;
    message = message;
    details = none;
    retryable = is_retryable code;
  }
