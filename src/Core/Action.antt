-- ===== src/Core/Action.antt =====
-- crates/taskfence-core/src/lib.rs: the actions that policy decides on, tool calls, budgets and
-- decisions. A `BTreeMap` is the sorted association list of Std.Map.
use task_fence.Prelude.{ℕ, String, Bool, Option, List}
use task_fence.Std.Map.{BTreeMap}
use task_fence.Core.Task.{TaskId, ApprovalId, Utf8PathBuf, BudgetLimit}

-- `time::OffsetDateTime`, a count of ticks. The code only copies these.
abbrev pub OffsetDateTime : Type 0
OffsetDateTime = ℕ

pub record CommandAction : Type 0 where
  pub executable : String
  pub args : List String
  pub raw : String
  pub shell_wrapped : Bool

pub data RedactedValue : Type 0 where
  plain : String → RedactedValue
  redacted : String → RedactedValue

pub record ToolAction : Type 0 where
  pub protocol : String
  pub tool : String
  pub operation : String
  pub parameters : BTreeMap RedactedValue

pub data Action : Type 0 where
  file_read file_write : Utf8PathBuf → Action
  command : CommandAction → Action
  network : String → Option ℕ → Action
  env_expose : String → Action
  secret_access : String → String → Action
  tool_call : ToolAction → Action
  budget : String → ℕ → Action

pub data RiskLevel : Type 0 where
  low medium high critical : RiskLevel

-- allow rule_id reason, require_approval approval_kind rule_id reason risk, deny rule_id reason
pub data ActionDecision : Type 0 where
  allow : Option String → String → ActionDecision
  require_approval : String → Option String → String → RiskLevel → ActionDecision
  deny : Option String → String → ActionDecision

pub record BudgetUsage : Type 0 where
  pub kind : String
  pub amount : ℕ
  pub provider : Option String
  pub model : Option String
  pub operation : Option String
  pub metadata : BTreeMap RedactedValue

pub record BudgetUsageRecord : Type 0 where
  pub usage : BudgetUsage
  pub limit : Option BudgetLimit
  pub decision : ActionDecision

pub record ToolAdapterIdentity : Type 0 where
  pub kind : String
  pub name : String

pub record ToolRequest : Type 0 where
  pub action : ToolAction
  pub adapter : Option ToolAdapterIdentity

pub record ToolExecutionContext : Type 0 where
  pub task_dir : Option Utf8PathBuf
  pub artifact_dir : Option Utf8PathBuf

pub record ToolResult : Type 0 where
  pub summary : String
  pub values : BTreeMap RedactedValue
  pub artifacts : List Utf8PathBuf
  pub usage : List BudgetUsage

pub data ToolExecutionErrorKind : Type 0 where
  unsupported_protocol unsupported_tool unregistered_tool invalid_parameters policy_denied
        approval_denied_or_timed_out budget_exceeded adapter_failed secret_unavailable :
      ToolExecutionErrorKind

pub record ToolExecutionError : Type 0 where
  pub kind : ToolExecutionErrorKind
  pub message : String

pub record ToolExecution : Type 0 where
  pub request : ToolRequest
  pub result : Option ToolResult
  pub error : Option ToolExecutionError

pub data ApprovalDecision : Type 0 where
  approved denied timed_out : ApprovalDecision

pub record ApprovalRecord : Type 0 where
  pub id : ApprovalId
  pub task_id : TaskId
  pub actor : String
  pub source : Option String
  pub requested_at : OffsetDateTime
  pub resolved_at : Option OffsetDateTime
  pub action : Action
  pub policy_decision : ActionDecision
  pub decision : Option ApprovalDecision
