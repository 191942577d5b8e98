-- ===== src/Runner/Capability.antt =====
-- crates/taskfence-runner/src/lib.rs: what a runner can enforce for a task.
use task_fence.Prelude.{
  String, Bool, true, false, not, ◌&&◌, ◌||◌, Option, none, some, List, [], ◌∷◌, ◌++◌,
  if◌then◌else◌,
}
use task_fence.Std.Format.{format, join}
use task_fence.Core.Error.{Result, ok, err, runner}
use task_fence.Core.Task.{
  SandboxKind, NetworkDefault, SshNetworkPolicy, uncontrolled_allow, SshSandboxConfig, ResolvedTask,
}
use task_fence.Runner.Gateway.{is_none_left, is_local_listener, docker_gateway_egress_enabled}

pub data RunnerKind : Type 0 where
  docker remote_ssh kubernetes_job micro_vm managed_cloud : RunnerKind
  unsupported : String → RunnerKind

unfoldable pub from_sandbox : SandboxKind → RunnerKind
from_sandbox SandboxKind.docker = docker
from_sandbox SandboxKind.remote_ssh = remote_ssh
from_sandbox SandboxKind.kubernetes_job = kubernetes_job
from_sandbox SandboxKind.micro_vm = micro_vm
from_sandbox SandboxKind.managed_cloud = managed_cloud
from_sandbox (SandboxKind.unsupported kind) = unsupported kind

unfoldable pub kind_label : RunnerKind → String
kind_label docker = "docker"
kind_label remote_ssh = "remote_ssh"
kind_label kubernetes_job = "kubernetes_job"
kind_label micro_vm = "microvm"
kind_label managed_cloud = "managed_cloud"
kind_label (unsupported kind) = kind

pub record RunnerCapabilityReport : Type 0 where
  pub kind : RunnerKind
  pub available : Bool
  pub can_isolate_filesystem : Bool
  pub can_isolate_secrets : Bool
  pub can_disable_network : Bool
  pub can_enforce_default_deny_network : Bool
  pub can_enforce_domain_allowlist : Bool
  pub can_enforce_limits : Bool
  pub can_capture_output : Bool
  pub can_return_artifacts : Bool
  pub missing : List String

-- `if condition { missing.push(message) }`
unfoldable pub push_if : Bool → String → List String → List String
push_if condition message missing = if condition then missing ++ message ∷ [] else missing

abbrev pub is_some {ℓ} : {A : Type ℓ} → Option A → Bool
is_some none = false
is_some (some a) = true

unfoldable pub docker_report : ResolvedTask → RunnerCapabilityReport
unfolding push_if
docker_report task = record {
  kind = docker;
  available = true;
  can_isolate_filesystem = true;
  can_isolate_secrets = true;
  can_disable_network = true;
  can_enforce_default_deny_network = true;
  can_enforce_domain_allowlist = docker_gateway_egress_enabled task;
  can_enforce_limits = true;
  can_capture_output = true;
  can_return_artifacts = true;
  missing =
      push_if
        (not (is_none_left task.permissions.network.allow_domains)
          && not (docker_gateway_egress_enabled task))
        "local Docker cannot enforce domain allowlists without gateway.mode=local_listener, gateway.egress.allow_domains=true, and a registered http egress.fetch tool"
        [];
}

unfoldable pub unavailable : RunnerKind → List String → RunnerCapabilityReport
unavailable kind missing = record {
  kind = kind;
  available = false;
  can_isolate_filesystem = false;
  can_isolate_secrets = false;
  can_disable_network = false;
  can_enforce_default_deny_network = false;
  can_enforce_domain_allowlist = false;
  can_enforce_limits = false;
  can_capture_output = false;
  can_return_artifacts = false;
  missing = missing;
}

unfoldable pub ssh_limits_are_supported : ResolvedTask → SshSandboxConfig → Bool
ssh_limits_are_supported task ssh =
    (not (
        is_some task.sandbox.limits.cpu
        || is_some task.sandbox.limits.memory
        || is_some task.sandbox.limits.disk)
      || ssh.enforces_resource_limits)
    && (not (is_some task.sandbox.limits.timeout_minutes) || ssh.terminates_remote_processes)

abbrev pub is_uncontrolled : Option SshNetworkPolicy → Bool
is_uncontrolled none = false
is_uncontrolled (some uncontrolled_allow) = true

-- The match on the network's default.
unfoldable pub push_network : NetworkDefault → SshSandboxConfig → List String → List String
unfolding push_if
push_network NetworkDefault.allow ssh missing =
    push_if (not (is_uncontrolled ssh.network_policy))
      "remote SSH default allow requires sandbox.ssh.network_policy=uncontrolled_allow" missing
push_network NetworkDefault.disabled ssh missing =
    missing ++ "remote SSH cannot disable remote network access" ∷ []
push_network NetworkDefault.deny ssh missing =
    missing ++ "remote SSH cannot enforce default-deny remote network access" ∷ []

-- The vector `missing`.
unfoldable pub missing_controls : ResolvedTask → SshSandboxConfig → List String
unfolding ssh_limits_are_supported
missing_controls task ssh =
    let a =
      push_if (not (ssh.isolated_workspace && is_some ssh.workspace))
        "remote SSH requires sandbox.ssh.workspace and isolated_workspace=true" [] in
    let b = push_if (not ssh.isolated_secrets) "remote SSH requires isolated_secrets=true" a in
    let c =
      push_if (not (is_some ssh.identity_file)) "remote SSH requires sandbox.ssh.identity_file" b in
    let d =
      push_if (not (is_some ssh.known_hosts_file))
        "remote SSH requires sandbox.ssh.known_hosts_file" c in
    let e =
      push_if (not (ssh_limits_are_supported task ssh))
        "remote SSH can enforce timeout only unless enforces_resource_limits=true" d in
    let f =
      push_if (not ssh.terminates_remote_processes)
        "remote SSH requires terminates_remote_processes=true for timeout and cancellation" e in
    let g = push_network task.permissions.network.default ssh f in
    let h =
      push_if (not (is_none_left task.permissions.network.allow_domains))
        "remote SSH cannot enforce domain allowlists" g in
    let i =
      push_if (not (is_none_left task.permissions.env.allow))
        "remote SSH does not expose host environment allowlists" h in
    let j =
      push_if task.secrets.expose_to_agent "remote SSH does not expose raw secrets to agents" i in
    let k =
      push_if (is_local_listener task.gateway.mode || not (is_none_left task.gateway.tools))
        "remote SSH does not mount the local gateway spool or listener boundary" j in
    push_if task.audit.capture.file_diff
      "remote SSH artifact return is limited to stdout/stderr/local reports; set audit.capture.file_diff=false"
      k

-- The report where `sandbox.ssh` is given.
unfoldable pub ssh_report : ResolvedTask → SshSandboxConfig → RunnerCapabilityReport
unfolding missing_controls push_if push_network ssh_limits_are_supported
ssh_report task ssh = record {
  kind = remote_ssh;
  available = is_none_left (missing_controls task ssh);
  can_isolate_filesystem = ssh.isolated_workspace && is_some ssh.workspace;
  can_isolate_secrets = ssh.isolated_secrets;
  can_disable_network = false;
  can_enforce_default_deny_network = false;
  can_enforce_domain_allowlist = false;
  can_enforce_limits = ssh_limits_are_supported task ssh;
  can_capture_output = true;
  can_return_artifacts = not task.audit.capture.file_diff;
  missing = missing_controls task ssh;
}

unfoldable pub ssh_report_of : ResolvedTask → Option SshSandboxConfig → RunnerCapabilityReport
unfolding unavailable ssh_report
ssh_report_of task none =
    unavailable remote_ssh ("sandbox.ssh is required for remote_ssh tasks" ∷ [])
ssh_report_of task (some ssh) = ssh_report task ssh

unfoldable pub remote_ssh_report : ResolvedTask → RunnerCapabilityReport
unfolding ssh_report_of
remote_ssh_report task = ssh_report_of task task.sandbox.ssh

abbrev can_enforce_default : NetworkDefault → RunnerCapabilityReport → Bool
can_enforce_default NetworkDefault.disabled report = report.can_disable_network
can_enforce_default NetworkDefault.deny report = report.can_enforce_default_deny_network
can_enforce_default NetworkDefault.allow report = true

unfoldable pub is_sufficient_for_task : RunnerCapabilityReport → ResolvedTask → Bool
is_sufficient_for_task report task =
    report.available
    && report.can_isolate_filesystem
    && report.can_isolate_secrets
    && report.can_capture_output
    && report.can_return_artifacts
    && report.can_enforce_limits
    && can_enforce_default task.permissions.network.default report
    && (is_none_left task.permissions.network.allow_domains || report.can_enforce_domain_allowlist)

unfoldable pub ensure_sufficient_for_task :
    RunnerCapabilityReport → ResolvedTask → Result (Unit {0})
unfolding is_sufficient_for_task
ensure_sufficient_for_task report task =
    if is_sufficient_for_task report task
    then ok tt
    else err (
        runner (
          format (
            kind_label report.kind
            ∷ " runner is unavailable or cannot provide required controls: "
            ∷ (if is_none_left report.missing
                then "required isolation or network controls"
                else join ", " report.missing)
            ∷ [])))

unfoldable pub unsupported_runner_missing_controls : RunnerKind → List String
unsupported_runner_missing_controls remote_ssh =
    "remote SSH isolation contract" ∷ "remote filesystem mount policy enforcement"
    ∷ "remote secret isolation" ∷ "remote network control enforcement" ∷ "remote limit enforcement"
    ∷ []
unsupported_runner_missing_controls kubernetes_job =
    "Kubernetes job namespace/pod security contract" ∷ "Kubernetes network policy enforcement"
    ∷ "Kubernetes secret isolation" ∷ "Kubernetes artifact collection contract" ∷ []
unsupported_runner_missing_controls micro_vm =
    "microVM image contract" ∷ "microVM filesystem sharing policy"
    ∷ "microVM network policy enforcement" ∷ "microVM lifecycle and artifact collection" ∷ []
unsupported_runner_missing_controls managed_cloud =
    "managed cloud runner provider contract" ∷ "managed cloud credential boundary"
    ∷ "managed cloud network policy enforcement" ∷ "managed cloud artifact collection contract" ∷ []
unsupported_runner_missing_controls (unsupported kind) =
    format ("unsupported sandbox type " ∷ kind ∷ []) ∷ []
unsupported_runner_missing_controls docker = []

-- The match of `ExpandedRunner::capability_report` on the kind.
unfoldable pub report_of : ResolvedTask → RunnerKind → RunnerCapabilityReport
unfolding docker_report remote_ssh_report unavailable unsupported_runner_missing_controls
report_of task docker = docker_report task
report_of task remote_ssh = remote_ssh_report task
report_of task kubernetes_job =
    unavailable kubernetes_job (unsupported_runner_missing_controls kubernetes_job)
report_of task micro_vm = unavailable micro_vm (unsupported_runner_missing_controls micro_vm)
report_of task managed_cloud =
    unavailable managed_cloud (unsupported_runner_missing_controls managed_cloud)
report_of task (unsupported kind) =
    unavailable (unsupported kind) (unsupported_runner_missing_controls (unsupported kind))

unfoldable pub capability_report : ResolvedTask → RunnerCapabilityReport
unfolding from_sandbox report_of
capability_report task = report_of task (from_sandbox task.sandbox.kind)

unfoldable pub ensure_capable : ResolvedTask → Result (Unit {0})
unfolding capability_report ensure_sufficient_for_task
ensure_capable task = ensure_sufficient_for_task (capability_report task) task
