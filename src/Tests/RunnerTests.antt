-- ===== src/Tests/RunnerTests.antt =====
-- A task that runs in Docker, one that runs over SSH, and a system whose processes end at once.
use task_fence.Prelude.{
  ℕ, String, ◌+◌, ◌≡◌, refl, ◌⊎◌, Bool, true, false, ◌||◌, Option, none, some, List, [], ◌∷◌, map,
  All, if◌then◌else◌,
}
use task_fence.Prelude.Int.{pos}
use task_fence.Core.Effect.{◌>>=◌}
use task_fence.Core.Error.{ok}
use task_fence.Core.Task.{
  NetworkDefault, SandboxKind, uncontrolled_allow, SshSandboxConfig, PermissionConfig, ResolvedTask,
}
use task_fence.Core.Event.{AgentInvocation, MountPlan, PreparedSshRun, PreparedRun, RunningTask}
use task_fence.Runner.Mounts.{DockerRunner, build_mount_plan}
use task_fence.Runner.Mounts.Safe.{IsPermittedMount}
use task_fence.Runner.Mounts.Plan.{ArePlansApart, build_mount_plan-AllPermitted}
use task_fence.Runner.Docker.{build_env_plan}
use task_fence.Runner.Docker.Variables.{IsHostVariable, is_gateway_name, build_env_plan-All}
use task_fence.Runner.Ssh.{build_run_plan, remote_command}
use task_fence.Runner.Ssh.Words.{word, and_then, blank, read_words}
use task_fence.Runner.Ssh.Command.{remote_command-read_words}
use task_fence.Runner.Ssh.Guard.{IsGuarded, build_run_plan-IsGuarded}
use task_fence.Runner.Process.{ProcessStatus, Processes, ProcessMessages}
use task_fence.Std.Io.{done}
use task_fence.Runner.Runs.Expanded.{ExpandedRunner, Stores, start}
use task_fence.Runner.Runs.Collect.{IsCollected, start-collect}
use task_fence.Tests.Fixture.{permissions, task_with}

abbrev host : DockerRunner
host = record {
  host_env = ("HOME", "/home/ann") ∷ ("PATH", "/usr/bin") ∷ [];
  host_home = some "/home/ann";
  docker_command = "docker";
}

abbrev debug : String → String
debug s = s

abbrev docker_task : ResolvedTask
docker_task = task_with (record permissions {
  paths = record { read = "/work/docs" ∷ "/work/src" ∷ []; write = "/work/out" ∷ [] };
})

mounts : (ms : List MountPlan) × (build_mount_plan host debug docker_task ≡ ok ms)
unfolding build_mount_plan
mounts = (_, refl)

build_mount_plan-AllPermitted_example :
    All (IsPermittedMount host debug docker_task) mounts.0
    × All (λ a. All (ArePlansApart a) mounts.0) mounts.0
build_mount_plan-AllPermitted_example =
    build_mount_plan-AllPermitted host debug docker_task mounts.0 mounts.1

build_env_plan-All_example :
    All
      (λ entry. IsHostVariable host docker_task entry ⊎ (is_gateway_name entry.0 ≡ true))
      (("PATH", "/usr/bin") ∷ [])
unfolding build_env_plan
build_env_plan-All_example =
    build_env_plan-All host debug docker_task (("PATH", "/usr/bin") ∷ []) refl

abbrev open_permissions : PermissionConfig
open_permissions = record permissions {
  network = record { default = NetworkDefault.allow; allow_domains = [] };
  env = record { allow = [] };
}

abbrev ssh_host : SshSandboxConfig
ssh_host = record {
  host = "build.example";
  user = some "ann";
  port = some 22;
  workspace = some "/srv/work";
  identity_file = some "/keys/id";
  known_hosts_file = some "/keys/known_hosts";
  isolated_workspace = true;
  isolated_secrets = true;
  terminates_remote_processes = true;
  enforces_resource_limits = false;
  network_policy = some uncontrolled_allow;
}

abbrev ssh_task : ResolvedTask
ssh_task =
    let base = task_with open_permissions in
    record base {
      sandbox = record {
        kind = SandboxKind.remote_ssh;
        image = none;
        ssh = some ssh_host;
        limits = record { timeout_minutes = some 5; cpu = none; memory = none; disk = none };
      };
      audit = record (base.audit) { capture = record (base.audit.capture) { file_diff = false } };
    }

ssh_plan : (prepared : PreparedRun) × (build_run_plan ssh_task ≡ ok prepared)
unfolding build_run_plan
ssh_plan = (_, refl)

build_run_plan-IsGuarded_example :
    IsGuarded ssh_task × (ssh_plan.0.mounts ≡ []) × (ssh_plan.0.env ≡ [])
build_run_plan-IsGuarded_example = build_run_plan-IsGuarded ssh_task ssh_plan.0 ssh_plan.1

abbrev ssh_run : PreparedSshRun
ssh_run = record {
  host = "build.example";
  user = some "ann";
  port = some 22;
  workspace = "/srv/my work";
  identity_file = "/keys/id";
  known_hosts_file = none;
}

abbrev invocation : AgentInvocation
invocation = record {
  executable = "agent";
  args = "it's; rm -rf /" ∷ "" ∷ [];
  env = [];
  working_dir = "/workspace";
}

abbrev command : String
command = "cd '/srv/my work' && exec 'agent' 'it'\\''s; rm -rf /' ''"

remote_command-read_words_example :
    read_words blank command
    ≡ some (
        word "cd"
        ∷ word "/srv/my work"
        ∷ and_then
        ∷ word "exec"
        ∷ map word ("agent" ∷ "it's; rm -rf /" ∷ "" ∷ []))
unfolding remote_command
remote_command-read_words_example = remote_command-read_words ssh_run invocation command refl

-- A system whose world is its clock and whether the child has ended. No time passes but in a sleep; a child
-- ends when it is first asked for, or only when it is killed; the wait for it and the reads of its pipes
-- never return before that.
abbrev World : Type 0
World = ℕ × Bool

abbrev once_ended : {A : Type 0} → A → World → Option (A × World)
once_ended a w = if w.1 then some (a, w) else none

abbrev status_once : Bool → Option ProcessStatus
status_once ended = if ended then some (record { code = some (pos 0); signal = none }) else none

abbrev system : Bool → Processes World
system ends = record {
  spawn = λ executable args w. (done 1, w);
  take_stdout = λ child w. (true, w);
  take_stderr = λ child w. (true, w);
  read_stdout = λ child w. w;
  read_stderr = λ child w. w;
  try_wait = λ child w. (done (status_once (ends || w.1)), (w.0, ends || w.1));
  kill = λ child w. (done tt, (w.0, true));
  wait = λ child. once_ended (done (record { code = none; signal = some 9 }));
  output = λ executable args w. some (done tt, w);
  join_stdout = λ child. once_ended (some "out");
  join_stderr = λ child. once_ended (some "");
  instant = λ w. w.0;
  latest = 1000000;
  sleep = λ d w. (w.0 + d, w.1);
}

abbrev HasEnded : ℕ → World → Type 0
HasEnded child w = w.1 ≡ true

abbrev messages : ProcessMessages
messages = record {
  unavailable_message = "ssh executable is unavailable";
  start_label = "ssh";
  wait_label = "ssh";
  kill_label = "ssh";
  stdout_label = "ssh stdout";
  stderr_label = "ssh stderr";
}

abbrev expanded : ExpandedRunner
expanded = record { docker = host; ssh_command = "ssh" }

abbrev stores : Stores
stores = record {
  docker = record { completed = []; poisoned = false };
  remote_ssh = record { completed = []; poisoned = false };
}

abbrev prepared : PreparedRun
prepared = record (ssh_plan.0) { ssh = some ssh_run }

started :
    (r : RunningTask) × (s : Stores) × (start
        (system true)
        1
        expanded
        prepared
        invocation
        stores
        (7, false)
      ≡ some (ok r, s, (7, true)))
unfolding start build_run_plan ssh_plan ◌>>=◌ task_fence.Core.Blocking.◌>>=◌
    task_fence.Core.Blocking.pure
started = (_, _, refl)

start-collect_example :
    IsCollected
      (system true)
      1
      expanded
      prepared
      invocation
      (7, false)
      (7, true)
      started.0
      started.1
start-collect_example =
    start-collect (system true) 1 expanded prepared invocation (7, false) (7, true) stores started.1
      started.0 started.2
