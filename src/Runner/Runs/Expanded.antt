-- ===== src/Runner/Runs/Expanded.antt =====
-- crates/taskfence-runner/src/lib.rs: `UnsupportedRunner` and `ExpandedRunner` as runners. `debug` is what
-- `{:?}` prints.
use task_fence.Prelude.{ℕ, String, Bool, Option, none, some, [], ◌∷◌, if◌then◌else◌}
use task_fence.Std.Text.{starts_with}
use task_fence.Std.Format.{format}
use task_fence.Core.Error.{Result, ok, ◌>>◌}
use task_fence.Core.Task.{SandboxKind, label, ResolvedTask}
use task_fence.Core.Event.{AgentInvocation, PreparedRun, RunningTask, RunOutput}
use task_fence.Runner.Capability.{
  RunnerKind, from_sandbox, kind_label, unavailable, unsupported_runner_missing_controls,
  ensure_sufficient_for_task, ensure_capable,
}
use task_fence.Runner.Mounts.{DockerRunner, refuse}
use task_fence.Runner.Docker.{prepare_docker}
use task_fence.Runner.Ssh
use task_fence.Runner.Ssh.{remote_ssh_runner_ref, build_ssh_args}
use task_fence.Runner.Process.{Processes}
use task_fence.Runner.Runs.{Completed, start_docker, stop_docker, start_ssh, collect_exit}

-- What every operation of `UnsupportedRunner` but `prepare` gives.
unfoldable pub not_implemented : {A : Type 0} → String → Result A
unfolding format
not_implemented kind = refuse (format (kind ∷ " runner execution is not implemented" ∷ []))

unfoldable pub prepare_unsupported : RunnerKind → ResolvedTask → Result PreparedRun
unfolding unavailable unsupported_runner_missing_controls ensure_sufficient_for_task not_implemented
prepare_unsupported kind task =
    ensure_sufficient_for_task (unavailable kind (unsupported_runner_missing_controls kind)) task
    >> not_implemented (kind_label kind)

-- `ExpandedRunner`, without what its two runners have completed.
pub record ExpandedRunner : Type 0 where
  pub docker : DockerRunner
  pub ssh_command : String

pub record Stores : Type 0 where
  pub docker : Completed
  pub remote_ssh : Completed

abbrev prepare_on :
    DockerRunner → (String → String) → ResolvedTask → SandboxKind → Result PreparedRun
prepare_on docker debug task SandboxKind.docker = prepare_docker docker debug task
prepare_on docker debug task SandboxKind.remote_ssh = Ssh.build_run_plan task
prepare_on docker debug task kind = prepare_unsupported (from_sandbox kind) task

unfoldable pub prepare : ExpandedRunner → (String → String) → ResolvedTask → Result PreparedRun
unfolding ensure_capable prepare_docker Ssh.build_run_plan prepare_unsupported from_sandbox
prepare expanded debug task =
    ensure_capable task >> prepare_on expanded.docker debug task task.sandbox.kind

unfoldable pub is_ssh_run : RunningTask → Bool
is_ssh_run running = starts_with running.runner_ref "remote-ssh:"

-- What one of the two runners leaves, beside the other's store.
abbrev pub beside :
    {A W : Type 0}
    → (Completed → Stores)
    → Option (Result A × Completed × W)
    → Option (Result A × Stores × W)
beside put none = none
beside put (some (result, c, w)) = some (result, put c, w)

module _ {W : Type 0} (p : Processes W) (fuel : ℕ) (expanded : ExpandedRunner) where
  abbrev pub start_on :
      SandboxKind
      → PreparedRun
      → AgentInvocation
      → Stores
      → W
      → Option (Result RunningTask × Stores × W)
  start_on SandboxKind.docker prepared invocation s w =
      beside (λ c. record s { docker = c })
        (start_docker p fuel expanded.docker prepared invocation s.docker w)
  start_on SandboxKind.remote_ssh prepared invocation s w =
      beside (λ c. record s { remote_ssh = c })
        (start_ssh p fuel expanded.ssh_command prepared invocation s.remote_ssh w)
  start_on kind prepared invocation s w = some (not_implemented (label kind), s, w)

  unfoldable pub start :
      PreparedRun → AgentInvocation → Stores → W → Option (Result RunningTask × Stores × W)
  unfolding start_docker start_ssh not_implemented
  start prepared invocation s w = start_on prepared.runner_kind prepared invocation s w

  unfoldable pub stop : RunningTask → W → Option (Result (Unit {0}) × W)
  unfolding is_ssh_run stop_docker
  stop running w =
      if is_ssh_run running then some (ok tt, w) else stop_docker p expanded.docker running w

-- `ExpandedRunner::collect_exit`
unfoldable pub collect : RunningTask → Stores → Result RunOutput × Stores
unfolding is_ssh_run collect_exit
collect running s =
    if is_ssh_run running
    then (
      (collect_exit "remote SSH" running s.remote_ssh).0,
      record s { remote_ssh = (collect_exit "remote SSH" running s.remote_ssh).1 },
    )
    else (
      (collect_exit "Docker" running s.docker).0,
      record s { docker = (collect_exit "Docker" running s.docker).1 },
    )
