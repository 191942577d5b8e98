-- ===== src/Runner/Runs.antt =====
-- crates/taskfence-runner/src/lib.rs: `DockerRunner` and `RemoteSshRunner` as runners. The
-- system's processes are the parameter `p`; the fuel is that of the wait for a process.
pub mod Kept
pub mod Expanded
pub mod Collect
use task_fence.Prelude.{
  ℕ, ◌*◌, String, Bool, true, false, Option, none, some, List, [], ◌∷◌, ltb, if◌then◌else◌,
}
use task_fence.Std.Format.{format}
use task_fence.Std.Map.{BTreeMap, get, insert, remove}
use task_fence.Core.Error.{Result, ok, err, runner, ◌>>=◌, ◌>>◌}
use task_fence.Core.Task.{SandboxKind, label}
use task_fence.Core.Event.{AgentInvocation, PreparedRun, RunningTask, RunOutput}
use task_fence.Runner.Capability.{unavailable}
use task_fence.Runner.Mounts.{DockerRunner, refuse}
use task_fence.Runner.Docker.Args.{docker_container_name, build_docker_run_args}
use task_fence.Runner.Ssh
use task_fence.Runner.Ssh.{remote_ssh_runner_ref, build_ssh_args}
use task_fence.Runner.Process.{Processes, ProcessMessages}
use task_fence.Runner.Process.Loop.{answered, run_command_with_timeout}
use task_fence.Std.Io.{not_found, other, Io, done, failed}

-- The outputs of a runner's runs, behind their mutex.
pub record Completed : Type 0 where
  pub completed : BTreeMap RunOutput
  pub poisoned : Bool

unfoldable pub lock_completed : String → Completed → Result (BTreeMap RunOutput)
unfolding format
lock_completed name c =
    if c.poisoned
    then refuse (format (name ∷ " runner completion store is poisoned" ∷ []))
    else ok c.completed

-- `minutes.saturating_mul(60)` of a `u64`, as a duration.
abbrev pub timeout_of : Option ℕ → Option ℕ
timeout_of none = none
timeout_of (some minutes) = some (
    if ltb 18446744073709551615 (minutes * 60)
    then 18446744073709551615 * 1000
    else minutes * 60 * 1000)

abbrev docker_messages : ProcessMessages
docker_messages = record {
  unavailable_message = "docker executable is unavailable";
  start_label = "docker";
  wait_label = "docker";
  kill_label = "docker";
  stdout_label = "docker stdout";
  stderr_label = "docker stderr";
}

abbrev ssh_messages : ProcessMessages
ssh_messages = record {
  unavailable_message = "ssh executable is unavailable";
  start_label = "ssh";
  wait_label = "ssh";
  kill_label = "ssh";
  stdout_label = "ssh stdout";
  stderr_label = "ssh stderr";
}

module _ (name : String) where
  -- What is done with the output: it is inserted under the run's reference.
  abbrev pub remember :
      {W : Type 0}
      → RunningTask
      → RunOutput
      → Completed
      → Result (BTreeMap RunOutput)
      → W
      → Result RunningTask × Completed × W
  remember running output c (err e) w = (err e, c, w)
  remember running output c (ok outputs) w =
      (ok running, record c { completed = insert running.runner_ref output outputs }, w)

  abbrev pub finished :
      {W : Type 0}
      → RunningTask
      → Completed
      → Option (Result RunOutput × W)
      → Option (Result RunningTask × Completed × W)
  finished running c none = none
  finished running c (some (err e, w)) = some (err e, c, w)
  finished running c (some (ok output, w)) =
      some (remember running output c (lock_completed name c) w)

  abbrev pub found :
      RunningTask → Completed → BTreeMap RunOutput → Option RunOutput → Result RunOutput × Completed
  found running c outputs none = (
    refuse (format ("no completed " ∷ name ∷ " run was found for " ∷ running.runner_ref ∷ [])),
    c,
  )
  found running c outputs (some output) =
      (ok output, record c { completed = remove running.runner_ref outputs })

  abbrev pub collect_locked :
      RunningTask → Completed → Result (BTreeMap RunOutput) → Result RunOutput × Completed
  collect_locked running c (err e) = (err e, c)
  collect_locked running c (ok outputs) = found running c outputs (get running.runner_ref outputs)

  -- `collect_exit` of the runner with this name.
  unfoldable pub collect_exit : RunningTask → Completed → Result RunOutput × Completed
  unfolding lock_completed format remove get
  collect_exit running c = collect_locked running c (lock_completed name c)

module _ {W : Type 0} (p : Processes W) where
  -- The run of a command, whose arguments may have been refused.
  abbrev pub run_with :
      String
      → RunningTask
      → (List String → W → Option (Result RunOutput × W))
      → Result (List String)
      → Completed
      → W
      → Option (Result RunningTask × Completed × W)
  run_with name running run (err e) c w = some (err e, c, w)
  run_with name running run (ok args) c w = finished name running c (run args w)

  unfoldable pub run_docker_command :
      ℕ → DockerRunner → String → Option ℕ → List String → W → Option (Result RunOutput × W)
  unfolding run_command_with_timeout
  run_docker_command fuel docker runner_ref timeout =
      run_command_with_timeout p fuel timeout docker_messages
        (some (docker.docker_command, runner_ref)) docker.docker_command

  unfoldable pub start_docker :
      ℕ
      → DockerRunner
      → PreparedRun
      → AgentInvocation
      → Completed
      → W
      → Option (Result RunningTask × Completed × W)
  unfolding run_docker_command docker_container_name build_docker_run_args lock_completed insert
  start_docker fuel docker prepared invocation c w =
      let runner_ref = docker_container_name prepared.task_id in
      run_with "Docker" (record { task_id = prepared.task_id; runner_ref = runner_ref })
        (run_docker_command fuel docker runner_ref (timeout_of prepared.limits.timeout_minutes))
        (build_docker_run_args runner_ref prepared invocation) c w

  unfoldable pub run_ssh_command :
      ℕ → String → Option ℕ → List String → W → Option (Result RunOutput × W)
  unfolding run_command_with_timeout
  run_ssh_command fuel ssh_command timeout =
      run_command_with_timeout p fuel timeout ssh_messages none ssh_command

  abbrev is_remote_ssh : SandboxKind → Bool
  is_remote_ssh SandboxKind.remote_ssh = true
  is_remote_ssh _ = false

  unfoldable pub start_ssh :
      ℕ
      → String
      → PreparedRun
      → AgentInvocation
      → Completed
      → W
      → Option (Result RunningTask × Completed × W)
  unfolding run_ssh_command remote_ssh_runner_ref build_ssh_args lock_completed insert
  start_ssh fuel ssh_command prepared invocation c w =
      let runner_ref = remote_ssh_runner_ref prepared.task_id in
      if is_remote_ssh prepared.runner_kind
      then run_with "remote SSH" (record { task_id = prepared.task_id; runner_ref = runner_ref })
          (run_ssh_command fuel ssh_command (timeout_of prepared.limits.timeout_minutes))
          (build_ssh_args prepared invocation) c w
      else some (
        refuse (
            format
              ("RemoteSshRunner cannot run " ∷ label prepared.runner_kind ∷ " sandbox tasks" ∷ [])),
        c,
        w,
      )

  abbrev stopped : String → Io (Unit {0}) → Result (Unit {0})
  stopped runner_ref (done u) = ok tt
  stopped runner_ref (failed (not_found m)) = refuse "docker executable is unavailable"
  stopped runner_ref (failed (other m)) =
      refuse (format ("failed to stop Docker container " ∷ runner_ref ∷ ": " ∷ m ∷ []))

  unfoldable pub stop_docker : DockerRunner → RunningTask → W → Option (Result (Unit {0}) × W)
  stop_docker docker running w =
      answered (stopped running.runner_ref)
        (p.output docker.docker_command ("rm" ∷ "-f" ∷ running.runner_ref ∷ []) w)
