-- ===== src/Core/Task.antt =====
-- crates/taskfence-core/src/lib.rs: the configuration of a task. Paths are texts (`Utf8PathBuf`), and
-- `TaskId` and `ApprovalId` are the texts that their structs wrap.
use task_fence.Prelude.{ℕ, String, Bool, Option, List}

abbrev pub TaskId : Type 0
TaskId = String

abbrev pub ApprovalId : Type 0
ApprovalId = String

abbrev pub Utf8PathBuf : Type 0
Utf8PathBuf = String

pub data TaskStatus : Type 0 where
  created validating preparing running waiting_for_approval stopping : TaskStatus
  collecting_artifacts reporting succeeded failed denied timed_out cancelled : TaskStatus

pub data SandboxKind : Type 0 where
  docker remote_ssh kubernetes_job micro_vm managed_cloud : SandboxKind
  unsupported : String → SandboxKind

unfoldable pub label : SandboxKind → String
label docker = "docker"
label remote_ssh = "remote_ssh"
label kubernetes_job = "kubernetes_job"
label micro_vm = "microvm"
label managed_cloud = "managed_cloud"
label (unsupported kind) = kind

pub data AgentKind : Type 0 where
  generic : AgentKind
  specialized : String → AgentKind

pub data NetworkDefault : Type 0 where
  allow deny disabled : NetworkDefault

pub record AgentConfig : Type 0 where
  pub kind : AgentKind
  pub command : String
  pub args : List String

pub data SshNetworkPolicy : Type 0 where
  uncontrolled_allow : SshNetworkPolicy

pub record SshSandboxConfig : Type 0 where
  pub host : String
  pub user : Option String
  pub port : Option ℕ
  pub workspace : Option Utf8PathBuf
  pub identity_file : Option Utf8PathBuf
  pub known_hosts_file : Option Utf8PathBuf
  pub isolated_workspace : Bool
  pub isolated_secrets : Bool
  pub terminates_remote_processes : Bool
  pub enforces_resource_limits : Bool
  pub network_policy : Option SshNetworkPolicy

pub record LimitConfig : Type 0 where
  pub timeout_minutes : Option ℕ
  pub cpu : Option ℕ
  pub memory : Option String
  pub disk : Option String

pub record SandboxConfig : Type 0 where
  pub kind : SandboxKind
  pub image : Option String
  pub ssh : Option SshSandboxConfig
  pub limits : LimitConfig

pub record PathPermissions : Type 0 where
  pub read : List Utf8PathBuf
  pub write : List Utf8PathBuf

pub record CommandPermissions : Type 0 where
  pub allow : List String
  pub approval_required : List String
  pub deny : List String

pub record NetworkPermissions : Type 0 where
  pub default : NetworkDefault
  pub allow_domains : List String

pub record EnvPermissions : Type 0 where
  pub allow : List String

pub record ToolPermissions : Type 0 where
  pub allow : List String
  pub approval_required : List String
  pub deny : List String

pub record BudgetLimit : Type 0 where
  pub kind : String
  pub max_amount : ℕ

pub record BudgetPermissions : Type 0 where
  pub allow : List BudgetLimit

pub record PermissionConfig : Type 0 where
  pub paths : PathPermissions
  pub commands : CommandPermissions
  pub network : NetworkPermissions
  pub env : EnvPermissions
  pub tools : ToolPermissions
  pub budget : BudgetPermissions

pub record SecretGrant : Type 0 where
  pub name : String
  pub use_for : List String

pub record SecretConfig : Type 0 where
  pub expose_to_agent : Bool
  pub available_to_gateway : List SecretGrant

pub record ApprovalConfig : Type 0 where
  pub require_for : List String
  pub timeout_minutes : Option ℕ

pub data GatewayMode : Type 0 where
  spool_only local_listener : GatewayMode

pub record GatewayEgressConfig : Type 0 where
  pub allow_domains : Bool

-- The fields of each variant are in the source's order.
pub data GatewayConnectorConfig : Type 0 where
  local_fixture git_hub_rest git_hub_enterprise_rest git_lab jira feishu we_com ding_talk gitee
        coding database internal_http siem_export :
      String → String → GatewayConnectorConfig
  unsupported : String → GatewayConnectorConfig

pub record GatewaySecretReferenceConfig : Type 0 where
  pub name : String
  pub parameter : String
  pub scope : String

pub record GatewayToolConfig : Type 0 where
  pub protocol : String
  pub tool : String
  pub operation : String
  pub connector : GatewayConnectorConfig
  pub secret_refs : List GatewaySecretReferenceConfig

pub record GatewayConfig : Type 0 where
  pub mode : GatewayMode
  pub egress : GatewayEgressConfig
  pub tools : List GatewayToolConfig

pub data ReportFormat : Type 0 where
  markdown html : ReportFormat

pub record ReportConfig : Type 0 where
  pub format : ReportFormat

pub record CaptureConfig : Type 0 where
  pub stdout : Bool
  pub stderr : Bool
  pub file_diff : Bool
  pub network_destinations : Bool
  pub approvals : Bool

pub record AuditConfig : Type 0 where
  pub report : ReportConfig
  pub capture : CaptureConfig

pub record ResolvedTask : Type 0 where
  pub id : TaskId
  pub task_file : Utf8PathBuf
  pub goal : String
  pub workspace_host_path : Utf8PathBuf
  pub workspace_container_path : Utf8PathBuf
  pub agent : AgentConfig
  pub sandbox : SandboxConfig
  pub permissions : PermissionConfig
  pub secrets : SecretConfig
  pub approval : ApprovalConfig
  pub gateway : GatewayConfig
  pub audit : AuditConfig
