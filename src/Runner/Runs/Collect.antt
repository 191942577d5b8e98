-- ===== src/Runner/Runs/Collect.antt =====
-- What a run leaves: the output that is collected for it.
use Prim.Native.String.append
use task_fence.Prelude.{
  ℕ, String, ◌≡◌, refl, ap, ◌∙◌, Bool, true, false, ◌⊎◌, inl, inr, Option, none, some, List,
}
use task_fence.Std.Text.{starts_with, starts_with-append}
use task_fence.Std.Format.{format}
use task_fence.Core.Error.{Result, ok, err}
use task_fence.Core.Task.{TaskId, SandboxKind}
use task_fence.Core.Event.{AgentInvocation, PreparedRun, RunningTask, RunOutput}
use task_fence.Runner.Docker.Args.{docker_container_name, truncate, build_docker_run_args}
use task_fence.Runner.Ssh.{remote_ssh_runner_ref, build_ssh_args}
use task_fence.Runner.Process.{Processes}
use task_fence.Runner.Runs.{
  Completed, collect_exit, timeout_of, run_with, run_docker_command, start_docker, run_ssh_command,
  start_ssh,
}
use task_fence.Runner.Runs.Expanded.{
  ExpandedRunner, Stores, is_ssh_run, beside, not_implemented, start_on, start, collect,
}
use task_fence.Runner.Runs.Kept.{finished-IsKept}

-- The references of the two runners' runs.
module _ (id : TaskId) where
  docker-is_ssh_run :
      is_ssh_run (record { task_id = id; runner_ref = docker_container_name id }) ≡ false
  unfolding is_ssh_run docker_container_name truncate format starts_with
  docker-is_ssh_run = rw (append.cons "t" "askfence-") refl

  ssh-is_ssh_run :
      is_ssh_run (record { task_id = id; runner_ref = remote_ssh_runner_ref id }) ≡ true
  unfolding is_ssh_run remote_ssh_runner_ref format
  ssh-is_ssh_run = starts_with-append "remote-ssh:" _

-- The runner that an exit is collected from.
module _ (r : RunningTask) (s' : Stores) (c' : Completed) (output : RunOutput) where
  collected-docker :
      is_ssh_run r ≡ false
      → s'.docker ≡ c'
      → (collect_exit "Docker" r c').0 ≡ ok output
      → (collect r s').0 ≡ ok output
  unfolding collect
  collected-docker local h e = rw local (rw h e)

  collected-ssh :
      is_ssh_run r ≡ true
      → s'.remote_ssh ≡ c'
      → (collect_exit "remote SSH" r c').0 ≡ ok output
      → (collect r s').0 ≡ ok output
  unfolding collect
  collected-ssh remote h e = rw remote (rw h e)

module _ {W : Type 0} (p : Processes W) (fuel : ℕ) (expanded : ExpandedRunner)
    (prepared : PreparedRun) (invocation : AgentInvocation) (w w' : W) where
  abbrev timeout : Option ℕ
  timeout = timeout_of prepared.limits.timeout_minutes

  -- The command of a run, in Docker or over SSH, with the arguments that are built for what was prepared
  -- and the invocation, and the output it gave.
  abbrev pub HasGiven : RunOutput → Type 0
  HasGiven output =
      ((args : List String) × (build_docker_run_args (docker_container_name prepared.task_id)
            prepared invocation
          ≡ ok args)
        × (run_docker_command p fuel expanded.docker (docker_container_name prepared.task_id)
              timeout args w
            ≡ some (ok output, w')))
      ⊎ ((args : List String) × (build_ssh_args prepared invocation ≡ ok args)
          × (run_ssh_command p fuel expanded.ssh_command timeout args w ≡ some (ok output, w')))

  -- What a started run is known to be.
  abbrev pub IsStarted : RunningTask → Bool → (Result RunOutput × Completed) → Type 0
  IsStarted r remote collected =
      (output : RunOutput) × HasGiven output
      × (r.task_id ≡ prepared.task_id)
      × (is_ssh_run r ≡ remote)
      × (collected.0 ≡ ok output)

  module _ (r : RunningTask) (c c' : Completed) where
    docker-IsStarted :
        (args : Result (List String))
        → build_docker_run_args (docker_container_name prepared.task_id) prepared invocation ≡ args
        → run_with p "Docker"
            (record {
              task_id = prepared.task_id;
              runner_ref = docker_container_name prepared.task_id;
            })
            (run_docker_command p fuel expanded.docker
              (docker_container_name prepared.task_id)
              timeout)
            args
            c
            w
          ≡ some (ok r, c', w')
        → IsStarted r false (collect_exit "Docker" r c')
    docker-IsStarted (err x) built e = cc e
    docker-IsStarted (ok args) built e =
        let (output, q, running, k) = finished-IsKept "Docker" _ c' w' r c _ e in
        (
          output,
          inl (args, built, q),
          ap (λ r. r.task_id) running,
          ap is_ssh_run running ∙ docker-is_ssh_run prepared.task_id,
          k,
        )

    ssh-IsStarted :
        (args : Result (List String))
        → build_ssh_args prepared invocation ≡ args
        → run_with p "remote SSH"
            (record {
              task_id = prepared.task_id;
              runner_ref = remote_ssh_runner_ref prepared.task_id;
            })
            (run_ssh_command p fuel expanded.ssh_command timeout)
            args
            c
            w
          ≡ some (ok r, c', w')
        → IsStarted r true (collect_exit "remote SSH" r c')
    ssh-IsStarted (err x) built e = cc e
    ssh-IsStarted (ok args) built e =
        let (output, q, running, k) = finished-IsKept "remote SSH" _ c' w' r c _ e in
        (
          output,
          inr (args, built, q),
          ap (λ r. r.task_id) running,
          ap is_ssh_run running ∙ ssh-is_ssh_run prepared.task_id,
          k,
        )

    start_docker-IsStarted :
        start_docker p fuel expanded.docker prepared invocation c w ≡ some (ok r, c', w')
        → IsStarted r false (collect_exit "Docker" r c')
    unfolding start_docker
    start_docker-IsStarted e =
        docker-IsStarted
          (build_docker_run_args (docker_container_name prepared.task_id) prepared invocation) refl
          e

    start_ssh-IsStarted :
        prepared.runner_kind ≡ SandboxKind.remote_ssh
        → start_ssh p fuel expanded.ssh_command prepared invocation c w ≡ some (ok r, c', w')
        → IsStarted r true (collect_exit "remote SSH" r c')
    unfolding start_ssh
    start_ssh-IsStarted k e = ssh-IsStarted (build_ssh_args prepared invocation) refl (rw k at e)

  -- What one runner leaves beside the other's store comes from that runner.
  beside-inner :
      (put : Completed → Stores) (q : Option (Result RunningTask × Completed × W)) (r : RunningTask)
      (s' : Stores)
      → beside put q ≡ some (ok r, s', w')
      → (c' : Completed) × (q ≡ some (ok r, c', w')) × (s' ≡ put c')
  beside-inner put none r s' e = cc e
  beside-inner put (some (err x, c, v)) r s' e = cc e
  beside-inner put (some (ok r', c, v)) r s' e =
      let er : r' ≡ r = cc e in
      let es : s' ≡ put c = cc e in
      let ew : v ≡ w' = cc e in (c, (λ i. some (ok (er i), c, ew i)), es)

  abbrev pub IsCollected : RunningTask → Stores → Type 0
  IsCollected r s' =
      (output : RunOutput) × HasGiven output
      × (r.task_id ≡ prepared.task_id)
      × ((collect r s').0 ≡ ok output)

  start_on-IsCollected :
      (kind : SandboxKind) (s s' : Stores) (r : RunningTask)
      → prepared.runner_kind ≡ kind
      → start_on p fuel expanded kind prepared invocation s w ≡ some (ok r, s', w')
      → IsCollected r s'
  unfolding not_implemented
  start_on-IsCollected SandboxKind.docker s s' r k e =
      let (c', q, es) = beside-inner _ _ r s' e in
      let (output, given, id, local, out) = start_docker-IsStarted r s.docker c' q in
      (output, given, id, collected-docker r s' c' output local (ap (λ t. t.docker) es) out)
  start_on-IsCollected SandboxKind.remote_ssh s s' r k e =
      let (c', q, es) = beside-inner _ _ r s' e in
      let (output, given, id, remote, out) = start_ssh-IsStarted r s.remote_ssh c' k q in
      (output, given, id, collected-ssh r s' c' output remote (ap (λ t. t.remote_ssh) es) out)
  start_on-IsCollected kind s s' r k e = cc e

-- A run that is started leaves its output to be collected: the exit that is collected next for it is the
-- output that its command gave when it was run, in Docker or over SSH, with the arguments that are built
-- for what was prepared and the invocation, and it bears the id of the task that was prepared.
pub start-collect :
    {W : Type 0} (p : Processes W) (fuel : ℕ) (expanded : ExpandedRunner) (prepared : PreparedRun)
    (invocation : AgentInvocation) (w w' : W) (s s' : Stores) (r : RunningTask)
    → start p fuel expanded prepared invocation s w ≡ some (ok r, s', w')
    → IsCollected p fuel expanded prepared invocation w w' r s'
unfolding start
start-collect p fuel expanded prepared invocation w w' s s' r e =
    start_on-IsCollected p fuel expanded prepared invocation w w' prepared.runner_kind s s' r refl e
