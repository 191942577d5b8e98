-- ===== src/Runner/Docker.antt =====
-- crates/taskfence-runner/src/lib.rs: the plan of a Docker run: its variables and its network.
-- `debug` is what `{:?}` prints.
pub mod Args
pub mod Variables
pub mod Network
use task_fence.Prelude.{
  ℕ, code, String, Bool, true, false, not, ◌&&◌, ◌||◌, Option, none, some, List, [], ◌∷◌, ◌++◌, eqb,
  ◌==◌, if◌then◌else◌,
}
use task_fence.Std.Text.{is_empty, any_char, contains, starts_with}
use task_fence.Std.Split.{is_char}
use task_fence.Std.Format.{format, join}
use task_fence.Std.Decimal.{to_decimal}
use task_fence.Std.Map.{BTreeMap, get, insert}
use task_fence.Core.Error.{Result, ok, err, unsupported, runner, ◌>>=◌, ◌>>◌}
use task_fence.Core.Task.{
  Utf8PathBuf, SandboxKind, NetworkDefault, NetworkPermissions, LimitConfig, GatewayMode,
  ResolvedTask,
}
use task_fence.Core.Event.{
  AgentInvocation, MountMode, read_only, read_write, MountPlan, PreparedGatewayEgress, PreparedRun,
}
use task_fence.Runner.Gateway.{
  spool_container_path, is_none_left, docker_gateway_egress_enabled, docker_gateway_spool_required,
  build_prepared_gateway,
}
use task_fence.Runner.Mounts.{DockerRunner, refuse, build_mount_plan}

pub data DockerNetworkMode : Type 0 where
  no_network bridge : DockerNetworkMode

-- With its `DockerNetworkPlan`, which is a mode.
pub record DockerRunPlan : Type 0 where
  pub prepared : PreparedRun
  pub network : DockerNetworkMode

abbrev refuse_kind : SandboxKind → Result (Unit {0})
refuse_kind SandboxKind.docker = ok tt
refuse_kind SandboxKind.remote_ssh =
    err (unsupported "DockerRunner cannot run remote_ssh sandbox tasks")
refuse_kind SandboxKind.kubernetes_job =
    err (unsupported "DockerRunner cannot run kubernetes_job sandbox tasks")
refuse_kind SandboxKind.micro_vm = err (unsupported "DockerRunner cannot run microvm sandbox tasks")
refuse_kind SandboxKind.managed_cloud =
    err (unsupported "DockerRunner cannot run managed_cloud sandbox tasks")
refuse_kind (SandboxKind.unsupported kind) =
    err (unsupported (format ("DockerRunner cannot run unsupported sandbox type " ∷ kind ∷ [])))

unfoldable pub ensure_docker_task : ResolvedTask → Result (Unit {0})
unfolding format
ensure_docker_task task = refuse_kind task.sandbox.kind

unfoldable pub validate_env_name : (String → String) → String → Result (Unit {0})
unfolding any_char format
validate_env_name debug name =
    if is_empty name || any_char (is_char b'=') name || any_char (is_char 0) name
    then refuse (format ("invalid environment variable name: " ∷ debug name ∷ []))
    else ok tt

abbrev pub is_sensitive : String → Bool
is_sensitive name = name == "HOME" || name == "SSH_AUTH_SOCK" || name == "DOCKER_HOST"

unfoldable pub reject_sensitive_env_name : String → Result (Unit {0})
reject_sensitive_env_name name =
    if is_sensitive name
    then refuse
        (format ("environment variable " ∷ name ∷ " is not allowed in the Docker runner plan" ∷ []))
    else ok tt

unfoldable pub validate_env_value : String → String → Result (Unit {0})
unfolding any_char contains format
validate_env_value name value =
    if any_char (is_char 0) value
    then refuse (format ("environment variable " ∷ name ∷ " must not contain NUL" ∷ []))
    else if contains value "docker.sock" || starts_with value "unix://"
    then refuse (format ("environment variable " ∷ name ∷ " would expose a host socket" ∷ []))
    else ok tt

-- A variable of the host, if it is set.
abbrev pub add_host_value : String → Option String → BTreeMap String → Result (BTreeMap String)
add_host_value name none env = ok env
add_host_value name (some value) env = validate_env_value name value >> ok (insert name value env)

-- The loop over the names that the task allows, with the variables so far.
unfoldable pub host_variables :
    DockerRunner → (String → String) → BTreeMap String → List String → Result (BTreeMap String)
unfolding validate_env_name reject_sensitive_env_name validate_env_value get insert
host_variables docker debug env [] = ok env
host_variables docker debug env (name ∷ names) = do
  validate_env_name debug name
  reject_sensitive_env_name name
  added ← add_host_value name (get name docker.host_env) env
  host_variables docker debug added names

unfoldable pub with_spool_variable : ResolvedTask → BTreeMap String → BTreeMap String
unfolding docker_gateway_spool_required insert
with_spool_variable task env =
    if docker_gateway_spool_required task
    then insert "TASKFENCE_GATEWAY_SPOOL" spool_container_path env
    else env

-- The match on the gateway's mode.
abbrev pub with_mode_variables : ResolvedTask → GatewayMode → BTreeMap String → BTreeMap String
with_mode_variables task GatewayMode.spool_only env = env
with_mode_variables task GatewayMode.local_listener env =
    let with_mode = insert "TASKFENCE_GATEWAY_MODE" "local_listener" env in
    if docker_gateway_egress_enabled task
    then insert "TASKFENCE_GATEWAY_EGRESS_ALLOW_DOMAINS"
        (join "," task.permissions.network.allow_domains) with_mode
    else with_mode

unfoldable pub with_gateway_variables : ResolvedTask → BTreeMap String → BTreeMap String
unfolding with_spool_variable docker_gateway_egress_enabled join insert
with_gateway_variables task env =
    with_mode_variables task task.gateway.mode (with_spool_variable task env)

unfoldable pub build_env_plan :
    DockerRunner → (String → String) → ResolvedTask → Result (BTreeMap String)
unfolding host_variables with_gateway_variables
build_env_plan docker debug task = do
  env ← host_variables docker debug [] task.permissions.env.allow
  ok (with_gateway_variables task env)

abbrev pub mode_of : NetworkDefault → DockerNetworkMode
mode_of NetworkDefault.disabled = no_network
mode_of NetworkDefault.deny = no_network
mode_of NetworkDefault.allow = bridge

unfoldable pub build_network_plan : ResolvedTask → Result DockerNetworkMode
build_network_plan task =
    if not (is_none_left task.permissions.network.allow_domains)
    then (if not (docker_gateway_egress_enabled task)
        then refuse
            "local Docker cannot enforce domain allowlists without gateway.mode=local_listener, gateway.egress.allow_domains=true, and a registered http egress.fetch tool"
        else ok no_network)
    else ok (mode_of task.permissions.network.default)

unfoldable pub build_run_plan :
    DockerRunner → (String → String) → ResolvedTask → Result DockerRunPlan
unfolding ensure_docker_task build_env_plan build_network_plan
build_run_plan docker_runner debug task = do
  ensure_docker_task task
  mounts ← build_mount_plan docker_runner debug task
  env ← build_env_plan docker_runner debug task
  network ← build_network_plan task
  ok (record {
    prepared = record {
      task_id = task.id;
      runner_kind = SandboxKind.docker;
      image = task.sandbox.image;
      mounts = mounts;
      env = env;
      network = task.permissions.network;
      gateway = build_prepared_gateway task;
      limits = task.sandbox.limits;
      ssh = none;
    };
    network = network;
  })

-- `Runner::prepare`
unfoldable pub prepare_docker : DockerRunner → (String → String) → ResolvedTask → Result PreparedRun
unfolding build_run_plan
prepare_docker docker_runner debug task = do
  plan ← build_run_plan docker_runner debug task
  ok plan.prepared

abbrev pub name_arg : NetworkDefault → String
name_arg NetworkDefault.disabled = "none"
name_arg NetworkDefault.deny = "none"
name_arg NetworkDefault.allow = "bridge"

abbrev pub allowlist_arg : Option PreparedGatewayEgress → Result String
allowlist_arg (some egress) = ok "none"
allowlist_arg none =
    refuse "local Docker cannot enforce domain allowlists without a prepared gateway egress plan"

unfoldable pub docker_network_arg : PreparedRun → Result String
docker_network_arg prepared =
    if not (is_none_left prepared.network.allow_domains)
    then allowlist_arg prepared.gateway.egress
    else ok (name_arg prepared.network.default)
