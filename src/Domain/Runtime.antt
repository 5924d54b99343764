-- ===== src/Domain/Runtime.antt =====
-- crates/colui-domain/src/runtime.rs: the session with the container daemon.
use colui.Domain.Text.{Text}
use colui.Domain.AppError.{AppError}
use colui.Domain.Inventory.{RuntimeSessionId, DaemonFingerprint, Timestamp}

abbrev pub DockerEndpoint : Type 0
DockerEndpoint = Text

pub record SessionContext : Type 0 where
  pub session_id : RuntimeSessionId
  pub endpoint : DockerEndpoint
  pub daemon_fingerprint : DaemonFingerprint
  pub connected_at : Timestamp

pub record MismatchDetails : Type 0 where
  pub endpoint : DockerEndpoint
  pub api_fingerprint : DaemonFingerprint
  pub cli_fingerprint : DaemonFingerprint

pub data RuntimeSessionState : Type 0 where
  disconnected connecting : RuntimeSessionState
  ready : SessionContext → RuntimeSessionState
  context_mismatch : MismatchDetails → RuntimeSessionState
  failed : AppError → RuntimeSessionState
