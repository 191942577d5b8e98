-- ===== src/Runner/Ssh.antt =====
-- crates/taskfence-runner/src/lib.rs: the plan of a run over SSH, and the arguments of `ssh`.
pub mod Words
pub mod Command
pub mod Guard
use Prim.Native.String.{[], ◌∷◌}
use Prim.Native.String
use task_fence.Prelude.{
  ℕ, Char, code, String, Bool, true, false, not, ◌&&◌, ◌||◌, Option, none, some, List,
  if◌then◌else◌,
}
use mathlib.Core.List
use task_fence.Std.Text.{is_empty, is_control, any_char}
use task_fence.Std.Split.{is_char}
use task_fence.Std.Format.{format, join}
use task_fence.Std.Decimal.{to_decimal}
use task_fence.Std.Path.{is_absolute, contains_parent_dir}
use task_fence.Core.Error.{Result, ok, err, unsupported, ◌>>=◌, ◌>>◌}
use task_fence.Core.Task.{
  TaskId, Utf8PathBuf, SandboxKind, label, GatewayMode, SshSandboxConfig, ResolvedTask,
}
use task_fence.Core.Event.{AgentInvocation, PreparedSshRun, PreparedGateway, PreparedRun}
use task_fence.Runner.Gateway.{is_none_left}
use task_fence.Runner.Capability.{remote_ssh_report, ensure_sufficient_for_task}
use task_fence.Runner.Mounts.{refuse}
use task_fence.Runner.Docker.Args.{words, docker_container_name}

unfoldable pub ensure_remote_ssh_task : ResolvedTask → Result (Unit {0})
ensure_remote_ssh_task task = ssh_kind task.sandbox.kind
  where
    ssh_kind : SandboxKind → Result (Unit {0})
    ssh_kind SandboxKind.remote_ssh = ok tt
    ssh_kind kind = err (
        unsupported
          (format (List.◌∷◌ "RemoteSshRunner cannot run " (words (label kind) " sandbox tasks"))))

-- `ok_or_else`
abbrev pub required : {A : Type 0} → String → Option A → Result A
required message none = refuse message
required message (some a) = ok a

-- `PreparedGateway::default()`
abbrev default_gateway : PreparedGateway
default_gateway = record {
  mode = GatewayMode.spool_only;
  spool_container_path = none;
  egress = none;
}

abbrev pub prepared_ssh_run : SshSandboxConfig → Result PreparedSshRun
prepared_ssh_run ssh = do
  workspace ← required "sandbox.ssh.workspace is required" ssh.workspace
  identity_file ← required "sandbox.ssh.identity_file is required" ssh.identity_file
  ok (record {
    host = ssh.host;
    user = ssh.user;
    port = ssh.port;
    workspace = workspace;
    identity_file = identity_file;
    known_hosts_file = ssh.known_hosts_file;
  })

-- With its `SshRunPlan`, which is what is prepared.
unfoldable pub build_run_plan : ResolvedTask → Result PreparedRun
unfolding ensure_remote_ssh_task remote_ssh_report ensure_sufficient_for_task
build_run_plan task = do
  ensure_remote_ssh_task task
  ensure_sufficient_for_task (remote_ssh_report task) task
  ssh ← required "sandbox.ssh is required" task.sandbox.ssh
  prepared_ssh ← prepared_ssh_run ssh
  ok (record {
    task_id = task.id;
    runner_kind = SandboxKind.remote_ssh;
    image = none;
    mounts = List.[];
    env = List.[];
    network = task.permissions.network;
    gateway = default_gateway;
    limits = task.sandbox.limits;
    ssh = some prepared_ssh;
  })

abbrev pub is_newline : Char → Bool
is_newline c = is_char b'\r' c || is_char b'\n' c

unfoldable pub reject_ssh_arg : String → String → Result (Unit {0})
unfolding any_char format
reject_ssh_arg field value =
    if any_char (is_char 0) value || any_char is_newline value
    then refuse (format (words field " must not contain NUL or newlines"))
    else ok tt

unfoldable pub reject_ssh_segment : String → String → Result (Unit {0})
unfolding any_char is_control format
reject_ssh_segment field value =
    if is_empty value
      || any_char (is_char b'@') value
      || any_char (is_char 0) value
      || any_char is_control value
    then refuse
        (format (words field " must be a non-empty SSH segment without control characters or '@'"))
    else ok tt

unfoldable pub reject_ssh_path : String → Utf8PathBuf → Result (Unit {0})
unfolding reject_ssh_arg is_absolute contains_parent_dir
reject_ssh_path field path =
    reject_ssh_arg field path
    >> (if not (is_absolute path) || contains_parent_dir path
        then refuse
            (format (List.◌∷◌ field (words " must be an absolute path without '..': " path)))
        else ok tt)

unfoldable pub remote_ssh_runner_ref : TaskId → String
remote_ssh_runner_ref id = format (words "remote-ssh:" (docker_container_name id))

abbrev target_of : Option String → String → String
target_of none host = host
target_of (some user) host = format (List.◌∷◌ user (words "@" host))

unfoldable pub ssh_target : PreparedSshRun → String
ssh_target ssh = target_of ssh.user ssh.host

-- `replace('\'', "'\\''")`
unfoldable pub escape_quotes : String → String
escape_quotes [] = []
escape_quotes (c ∷ s) =
    let rest = escape_quotes s in
    if is_char b'\'' c then "'" ∷ "\\" ∷ "'" ∷ "'" ∷ rest else c ∷ rest

unfoldable pub shell_quote : String → Result String
unfolding reject_ssh_arg escape_quotes format
shell_quote value =
    reject_ssh_arg "remote shell argument" value
    >> ok (format (List.◌∷◌ "'" (words (escape_quotes value) "'")))

-- The loop over the agent's arguments.
unfoldable pub quote_all : List String → Result (List String)
unfolding shell_quote
quote_all List.[] = ok List.[]
quote_all (List.◌∷◌ arg args) = do
  part ← shell_quote arg
  parts ← quote_all args
  ok (List.◌∷◌ part parts)

unfoldable pub remote_command : PreparedSshRun → AgentInvocation → Result String
unfolding shell_quote quote_all join
remote_command ssh invocation = do
  part ← shell_quote invocation.executable
  parts ← quote_all invocation.args
  workspace ← shell_quote ssh.workspace
  ok (
      format
        (List.◌∷◌ "cd " (List.◌∷◌ workspace (words " && exec " (join " " (List.◌∷◌ part parts))))))

-- `if let Some(value) = … { check(value)? }`
abbrev check_some : (String → Result (Unit {0})) → Option String → Result (Unit {0})
check_some check none = ok tt
check_some check (some value) = check value

unfoldable pub reject_ssh_args : List String → Result (Unit {0})
reject_ssh_args List.[] = ok tt
reject_ssh_args (List.◌∷◌ arg args) = reject_ssh_arg "agent argument" arg >> reject_ssh_args args

abbrev known_hosts_args : Option Utf8PathBuf → List String
known_hosts_args none = List.[]
known_hosts_args (some path) = words "-o" (format (words "UserKnownHostsFile=" path))

abbrev port_args : Option ℕ → List String
port_args none = List.[]
port_args (some port) = words "-p" (to_decimal port)

abbrev option_args : List String
option_args = List.◌++◌ (words "-o" "BatchMode=yes") (
    List.◌++◌ (words "-o" "ForwardAgent=no") (
      List.◌++◌ (words "-o" "PermitLocalCommand=no")
        (List.◌++◌ (words "-o" "IdentitiesOnly=yes") (words "-o" "StrictHostKeyChecking=yes"))))

unfoldable pub build_ssh_args : PreparedRun → AgentInvocation → Result (List String)
unfolding reject_ssh_segment reject_ssh_path reject_ssh_args ssh_target remote_command to_decimal
build_ssh_args prepared invocation = do
  ssh ← required "prepared SSH plan is missing" prepared.ssh
  reject_ssh_segment "sandbox.ssh.host" ssh.host
  check_some (reject_ssh_segment "sandbox.ssh.user") ssh.user
  reject_ssh_path "sandbox.ssh.workspace" ssh.workspace
  reject_ssh_path "sandbox.ssh.identity_file" ssh.identity_file
  check_some (reject_ssh_path "sandbox.ssh.known_hosts_file") ssh.known_hosts_file
  reject_ssh_arg "agent executable" invocation.executable
  reject_ssh_path "agent working directory" invocation.working_dir
  reject_ssh_args invocation.args
  if not (is_none_left prepared.env) || not (is_none_left invocation.env)
      then refuse "remote SSH runner does not forward environment variables"
      else do
        command ← remote_command ssh invocation
        ok (
            List.◌++◌ option_args (
              List.◌++◌ (words "-i" ssh.identity_file) (
                List.◌++◌ (known_hosts_args ssh.known_hosts_file) (
                  List.◌++◌ (port_args ssh.port)
                    (List.◌∷◌ "--" (words (ssh_target ssh) command))))))
