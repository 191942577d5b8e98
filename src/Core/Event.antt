-- ===== src/Core/Event.antt =====
-- crates/taskfence-core/src/lib.rs: what a run produces, and the audit events that record it.
use task_fence.Prelude.{ℕ, String, Bool, Option, List}
use task_fence.Prelude.Int.{ℤ}
use task_fence.Std.Map.{BTreeMap}
use task_fence.Core.Task.{
  TaskId, Utf8PathBuf, TaskStatus, SandboxKind, NetworkPermissions, LimitConfig, GatewayMode,
}
use task_fence.Core.Action.{
  OffsetDateTime, CommandAction, Action, ActionDecision, ToolRequest, ToolExecution,
  BudgetUsageRecord, ApprovalRecord,
}

pub record AgentInvocation : Type 0 where
  pub executable : String
  pub args : List String
  pub env : BTreeMap String
  pub working_dir : Utf8PathBuf

pub data MountMode : Type 0 where
  read_only read_write : MountMode

pub record MountPlan : Type 0 where
  pub host_path : Utf8PathBuf
  pub container_path : Utf8PathBuf
  pub mode : MountMode

pub record PreparedSshRun : Type 0 where
  pub host : String
  pub user : Option String
  pub port : Option ℕ
  pub workspace : Utf8PathBuf
  pub identity_file : Utf8PathBuf
  pub known_hosts_file : Option Utf8PathBuf

pub record PreparedGatewayEgress : Type 0 where
  pub allow_domains : List String

pub record PreparedGateway : Type 0 where
  pub mode : GatewayMode
  pub spool_container_path : Option Utf8PathBuf
  pub egress : Option PreparedGatewayEgress

pub record PreparedRun : Type 0 where
  pub task_id : TaskId
  pub runner_kind : SandboxKind
  pub image : Option String
  pub mounts : List MountPlan
  pub env : BTreeMap String
  pub network : NetworkPermissions
  pub gateway : PreparedGateway
  pub limits : LimitConfig
  pub ssh : Option PreparedSshRun

pub record TaskValidation : Type 0 where
  pub task_id : TaskId
  pub workspace_host_path : Utf8PathBuf
  pub invocation : AgentInvocation
  pub command_action : CommandAction
  pub command_decision : ActionDecision
  pub prepared : PreparedRun

pub record RunningTask : Type 0 where
  pub task_id : TaskId
  pub runner_ref : String

pub data LogStream : Type 0 where
  stdout stderr : LogStream

pub record LogChunk : Type 0 where
  pub stream : LogStream
  pub text : String
  pub timestamp : OffsetDateTime

pub record ExitStatus : Type 0 where
  pub code : Option ℤ
  pub timed_out : Bool
  pub signal : Option String

pub record RunOutput : Type 0 where
  pub exit_status : ExitStatus
  pub stdout : String
  pub stderr : String

pub record ArtifactRefs : Type 0 where
  pub task_dir : Utf8PathBuf
  pub resolved_task : Option Utf8PathBuf
  pub events : Option Utf8PathBuf
  pub stdout : Option Utf8PathBuf
  pub stderr : Option Utf8PathBuf
  pub diff : Option Utf8PathBuf
  pub report : Option Utf8PathBuf
  pub gateway_spool : Option Utf8PathBuf

pub record WorkspaceBaseline : Type 0 where
  pub dirty_before_run : Bool
  pub summary : String

pub record TaskResult : Type 0 where
  pub task_id : TaskId
  pub status : TaskStatus
  pub exit_status : Option ExitStatus
  pub artifacts : ArtifactRefs
  pub message : Option String

-- The fields of each variant are in the source's order.
pub data AuditEvent : Type 0 where
  task_created : TaskId → OffsetDateTime → String → AuditEvent
  task_status_changed : TaskId → OffsetDateTime → TaskStatus → AuditEvent
  policy_decision : TaskId → OffsetDateTime → Action → ActionDecision → AuditEvent
  tool_execution_started : TaskId → OffsetDateTime → ToolRequest → AuditEvent
  tool_execution_finished : TaskId → OffsetDateTime → ToolExecution → AuditEvent
  budget_usage_recorded : TaskId → OffsetDateTime → BudgetUsageRecord → AuditEvent
  approval_requested : ApprovalRecord → AuditEvent
  approval_resolved : ApprovalRecord → AuditEvent
  log : TaskId → LogChunk → AuditEvent
  runner_exit : TaskId → OffsetDateTime → ExitStatus → AuditEvent
  artifact : TaskId → OffsetDateTime → String → Utf8PathBuf → AuditEvent
  error : TaskId → OffsetDateTime → String → AuditEvent
