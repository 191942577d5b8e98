-- ===== src/Runner/Fake.antt =====
-- crates/taskfence-runner/src/lib.rs: `FakeRunner`, which runs nothing and remembers what it was asked.
use task_fence.Prelude.{
  String, Bool, true, false, Option, none, some, List, [], ◌∷◌, ◌++◌, if◌then◌else◌,
}
use task_fence.Prelude.Int.{ℤ, pos}
use task_fence.Std.Format.{format}
use task_fence.Core.Error.{Result, ok}
use task_fence.Core.Effect.{Effect, pure, lift, gets, modify, ◌>>=◌, ◌>>◌}
use task_fence.Core.Task.{ResolvedTask}
use task_fence.Core.Event.{AgentInvocation, PreparedRun, RunningTask, ExitStatus, RunOutput}
use task_fence.Runner.Gateway.{build_prepared_gateway}
use task_fence.Runner.Mounts.{refuse}

-- `FakeRunner` without its state.
pub record FakeRunner : Type 0 where
  pub exit_status : ExitStatus
  pub prepare_error : Option String
  pub start_error : Option String
  pub collect_error : Option String

-- The state, behind its mutex.
pub record FakeRunnerState : Type 0 where
  pub prepared_runs : List PreparedRun
  pub invocations : List AgentInvocation
  pub stopped_tasks : List RunningTask
  pub poisoned : Bool

unfoldable pub with_exit_status : ExitStatus → FakeRunner
with_exit_status status = record {
  exit_status = status;
  prepare_error = none;
  start_error = none;
  collect_error = none;
}

unfoldable pub succeeding : FakeRunner
unfolding with_exit_status
succeeding = with_exit_status (record { code = some (pos 0); timed_out = false; signal = none })

unfoldable pub failing : ℤ → FakeRunner
unfolding with_exit_status
failing code = with_exit_status (record { code = some code; timed_out = false; signal = none })

unfoldable pub timed_out : FakeRunner
unfolding with_exit_status
timed_out = with_exit_status (record { code = none; timed_out = true; signal = some "timeout" })

unfoldable pub with_prepare_error : String → FakeRunner → FakeRunner
with_prepare_error message fake = record fake { prepare_error = some message }

unfoldable pub with_start_error : String → FakeRunner → FakeRunner
with_start_error message fake = record fake { start_error = some message }

unfoldable pub with_collect_error : String → FakeRunner → FakeRunner
with_collect_error message fake = record fake { collect_error = some message }

-- `if let Some(message) = … { return Err(…) }`
abbrev unless_error : {A : Type 0} → Option String → A → Result A
unless_error none a = ok a
unless_error (some message) a = refuse message

unfoldable pub lock_state : Effect FakeRunnerState FakeRunnerState
lock_state = gets (λ s. s) >>= λ s.
    if s.poisoned then lift (refuse "fake runner state lock poisoned") else pure s

unfoldable pub prepared_runs : Effect FakeRunnerState (List PreparedRun)
unfolding lock_state
prepared_runs = do s ← lock_state; pure s.prepared_runs

unfoldable pub invocations : Effect FakeRunnerState (List AgentInvocation)
unfolding lock_state
invocations = do s ← lock_state; pure s.invocations

unfoldable pub stopped_tasks : Effect FakeRunnerState (List RunningTask)
unfolding lock_state
stopped_tasks = do s ← lock_state; pure s.stopped_tasks

module _ (fake : FakeRunner) where
  unfoldable pub prepare : ResolvedTask → Result PreparedRun
  unfolding build_prepared_gateway
  prepare task = unless_error fake.prepare_error (record {
    task_id = task.id;
    runner_kind = task.sandbox.kind;
    image = task.sandbox.image;
    mounts = [];
    env = [];
    network = task.permissions.network;
    gateway = build_prepared_gateway task;
    limits = task.sandbox.limits;
    ssh = none;
  })

  unfoldable pub start : PreparedRun → AgentInvocation → Effect FakeRunnerState RunningTask
  unfolding lock_state format
  start prepared invocation = do
    lift (unless_error fake.start_error tt)
    s ← lock_state
    modify (λ s. record s {
      prepared_runs = s.prepared_runs ++ prepared ∷ [];
      invocations = s.invocations ++ invocation ∷ [];
    })
    pure (record {
      task_id = prepared.task_id;
      runner_ref = format ("fake-runner:" ∷ prepared.task_id ∷ []);
    })

  unfoldable pub collect_exit : RunningTask → Result RunOutput
  collect_exit running =
      unless_error fake.collect_error
        (record { exit_status = fake.exit_status; stdout = ""; stderr = "" })

unfoldable pub stop : RunningTask → Effect FakeRunnerState (Unit {0})
unfolding lock_state
stop running = do
  s ← lock_state
  modify (λ s. record s { stopped_tasks = s.stopped_tasks ++ running ∷ [] })
