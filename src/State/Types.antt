-- ===== src/State/Types.antt =====
-- crates/taskfence-state/src/lib.rs: the records of the team state.
use task_fence.Prelude.{ℕ, String, Bool, Option, List}
use task_fence.Core.Task.{TaskId, ApprovalId, Utf8PathBuf, TaskStatus}

pub data TeamApiResource : Type 0 where
  task_list : TeamApiResource
  task_detail task_events task_logs task_diff task_report task_artifacts : TaskId → TeamApiResource
  approvals : TeamApiResource
  approval_detail : ApprovalId → TeamApiResource
  replay_inputs : TaskId → TeamApiResource
  audit_export : TeamApiResource

pub data TeamApiMethod : Type 0 where
  read resolve_approval enqueue_task write_artifact export_audit : TeamApiMethod

pub record TeamApiRequest : Type 0 where
  pub organization : String
  pub actor : String
  pub method : TeamApiMethod
  pub resource : TeamApiResource

pub data TeamRole : Type 0 where
  viewer approver operator auditor admin : TeamRole

pub record RbacGrant : Type 0 where
  pub actor : String
  pub role : TeamRole

pub record OrganizationPolicy : Type 0 where
  pub organization : String
  pub grants : List RbacGrant
  pub require_approval_owner : Bool
  pub allowed_artifact_roots : List Utf8PathBuf

pub data TeamAccessDecision : Type 0 where
  allow : TeamRole → String → TeamAccessDecision
  deny : String → TeamAccessDecision

pub data WorkerLeaseState : Type 0 where
  pending : WorkerLeaseState
  leased : String → WorkerLeaseState
  completed : WorkerLeaseState
  failed : String → WorkerLeaseState

pub record WorkerLease : Type 0 where
  pub task_id : TaskId
  pub organization : String
  pub state : WorkerLeaseState

pub record TeamTaskRecord : Type 0 where
  pub organization : String
  pub task_id : TaskId
  pub status : Option TaskStatus
  pub goal : Option String
  pub evidence_dir : Utf8PathBuf

pub record TeamArtifactRecord : Type 0 where
  pub organization : String
  pub task_id : TaskId
  pub path : Utf8PathBuf
  pub size_bytes : ℕ
  pub sha256 : String

pub data AuditExportSinkKind : Type 0 where
  siem webhook object_storage : AuditExportSinkKind

pub record AuditExportSinkConfig : Type 0 where
  pub kind : AuditExportSinkKind
  pub destination_ref : String
  pub credential_env : String

pub data TeamAuditExportStatus : Type 0 where
  planned : TeamAuditExportStatus
  completed : Utf8PathBuf → TeamAuditExportStatus
  failed : String → TeamAuditExportStatus

pub record TeamAuditExportRecord : Type 0 where
  pub organization : String
  pub sink : AuditExportSinkConfig
  pub requested_by : String
  pub status : TeamAuditExportStatus

pub record FileTeamState : Type 0 where
  pub tasks : List TeamTaskRecord
  pub leases : List WorkerLease
  pub artifacts : List TeamArtifactRecord
  pub audit_exports : List TeamAuditExportRecord
