-- ===== src/Core/Orchestrator.antt =====
-- crates/taskfence-core/src/lib.rs: `Orchestrator::run`, cut at its matches.
pub mod Calls
pub mod Checks
pub mod Keeps
pub mod Log
pub mod Events
pub mod Authorised
pub mod Denied
pub mod Status
pub mod Outcome
pub mod Success
use task_fence.Prelude.{
  ℕ, String, Bool, true, false, not, ◌&&◌, Option, none, some, List, [], ◌∷◌, ◌++◌, any, eqb,
  if◌then◌else◌,
}
use task_fence.Prelude.Int.{ℤ, pos}
use task_fence.Std.Text.{is_empty}
use task_fence.Std.Format.{join}
use task_fence.Core.Error.{TaskFenceError, policy, approval, Result, ok, err, to_string}
use task_fence.Core.Task.{
  TaskId, ApprovalId, Utf8PathBuf, TaskStatus, created, validating, preparing, running,
  waiting_for_approval, stopping, collecting_artifacts, reporting, succeeded, failed, denied,
  timed_out, cancelled, ResolvedTask,
}
use task_fence.Core.Action.{
  OffsetDateTime, CommandAction, Action, command, ActionDecision, allow, require_approval, deny,
  ApprovalDecision, ApprovalRecord,
}
use task_fence.Core.Command.{parse}
use task_fence.Core.Event.{
  AgentInvocation, PreparedRun, RunningTask, LogStream, LogChunk, ExitStatus, RunOutput,
  ArtifactRefs, WorkspaceBaseline, TaskResult, AuditEvent, task_created, task_status_changed,
  policy_decision, approval_requested, approval_resolved, log, runner_exit, artifact, error,
}
use task_fence.Core.Effect.{Effect, pure, raise, attempt, ◌>>=◌, ◌>>◌}
use task_fence.Core.Orchestrator.Calls.{
  Orchestrator, RunState, Run, call, call_with, push_event, read_events,
  command_action_from_invocation, index, is_status, has_status,
}
use task_fence.Core.Orchestrator.Checks.{
  record_event, transition, record_error, generate_report, record_stream, record_run_logs,
  check_approval, obey, evaluate_or_request_approval,
}

-- `run_output.exit_status.code == Some(0)`
abbrev pub is_zero : Option ℤ → Bool
is_zero (some (pos n)) = eqb n 0
is_zero _ = false

abbrev pub is_some : {A : Type 0} → Option A → Bool
is_some none = false
is_some (some a) = true

unfoldable pub final_status : Option String → ExitStatus → TaskStatus
final_status failure_message exit_status =
    if is_some failure_message
    then failed
    else if exit_status.timed_out
    then timed_out
    else if is_zero exit_status.code
    then succeeded
    else failed

-- `if failure_message.is_none() { failure_message = Some(message) }`
abbrev pub or_message : Option String → String → Option String
or_message none message = some message
or_message (some earlier) message = some earlier

module _ {W : Type 0} (o : Orchestrator W) where
  abbrev pub failure : ResolvedTask → Option ExitStatus → ArtifactRefs → String → TaskResult
  failure task exit_status artifacts message = record {
    task_id = task.id;
    status = failed;
    exit_status = exit_status;
    artifacts = artifacts;
    message = some message;
  }

  -- The return of a run that ends with the given status, or with a failure to write the report.
  unfoldable pub close :
      ResolvedTask
      → Option ExitStatus
      → ArtifactRefs
      → TaskStatus
      → Option String
      → Result (Unit {0})
      → Run W TaskResult
  close task exit_status artifacts status message (ok _) = pure (record {
    task_id = task.id;
    status = status;
    exit_status = exit_status;
    artifacts = artifacts;
    message = message;
  })
  close task exit_status artifacts status message (err report_err) = do
    record_error o task.id (to_string report_err)
    transition o task.id failed
    pure (failure task exit_status artifacts (to_string report_err))

  -- `let status = if has_status(…) { Denied } else { transition Failed; Failed }`
  unfoldable pub pre_run_status : TaskId → Bool → Run W TaskStatus
  pre_run_status task_id true = pure denied
  pre_run_status task_id false = do transition o task_id failed; pure failed

  unfoldable pub finish_pre_run_failure :
      ResolvedTask → ArtifactRefs → TaskFenceError → Run W TaskResult
  unfolding pre_run_status close
  finish_pre_run_failure task artifacts e = do
    events ← read_events
    status ← pre_run_status task.id (has_status events denied)
    record_error o task.id (to_string e)
    reported ← attempt (generate_report o task artifacts)
    close task none artifacts status (some (to_string e)) reported

  -- The end of a run whose agent could not be started or followed.
  unfoldable pub fail_run : ResolvedTask → ArtifactRefs → TaskFenceError → Run W TaskResult
  fail_run task artifacts e = do
    record_error o task.id (to_string e)
    transition o task.id failed
    attempt (generate_report o task artifacts)
    pure (failure task none artifacts (to_string e))

  -- `failure_message` after the logs were recorded.
  unfoldable pub logs_message : TaskId → Result (Unit {0}) → Run W (Option String)
  logs_message task_id (ok _) = pure none
  logs_message task_id (err e) = do record_error o task_id (to_string e); pure (some (to_string e))

  -- `failure_message` after the diff was collected.
  unfoldable pub diff_message :
      TaskId → Option String → Result (Option Utf8PathBuf) → Run W (Option String)
  diff_message task_id message (ok (some diff_path)) = do
    at ← call o.now_utc
    record_event o (artifact task_id at "diff" diff_path)
    pure message
  diff_message task_id message (ok none) = pure message
  diff_message task_id message (err e) = do
    record_error o task_id (to_string e)
    pure (or_message message (to_string e))

  unfoldable pub collect_diff_message :
      ResolvedTask → WorkspaceBaseline → Option String → Run W (Option String)
  unfolding diff_message
  collect_diff_message task baseline message =
      if task.audit.capture.file_diff
      then (do
        collected ← attempt (call (o.collect_diff task baseline))
        diff_message task.id message collected)
      else pure message

  -- The end of a run from `Reporting` on.
  unfoldable pub end_run :
      ResolvedTask → ArtifactRefs → RunOutput → Option String → Run W TaskResult
  unfolding close
  end_run task artifacts output message = do
    transition o task.id reporting
    transition o task.id (final_status message output.exit_status)
    reported ← attempt (generate_report o task artifacts)
    close task (some output.exit_status) artifacts (final_status message output.exit_status) message
        reported

  -- What follows a collected exit.
  unfoldable pub finish_run :
      ResolvedTask → ArtifactRefs → WorkspaceBaseline → RunOutput → Run W TaskResult
  unfolding logs_message collect_diff_message end_run
  finish_run task artifacts baseline output = do
    logged ← attempt (record_run_logs o task output)
    log_message ← logs_message task.id logged
    at ← call o.now_utc
    record_event o (runner_exit task.id at output.exit_status)
    transition o task.id collecting_artifacts
    message ← collect_diff_message task baseline log_message
    end_run task artifacts output message

  unfoldable pub after_exit :
      ResolvedTask
      → ArtifactRefs
      → WorkspaceBaseline
      → RunningTask
      → Result RunOutput
      → Run W TaskResult
  unfolding finish_run fail_run
  after_exit task artifacts baseline running_task (ok output) =
      finish_run task artifacts baseline output
  after_exit task artifacts baseline running_task (err e) = do
    attempt (call (o.stop running_task))
    fail_run task artifacts e

  unfoldable pub after_start :
      ResolvedTask → ArtifactRefs → WorkspaceBaseline → Result RunningTask → Run W TaskResult
  unfolding after_exit
  after_start task artifacts baseline (ok running_task) = do
    exited ← attempt (call (o.collect_exit running_task))
    after_exit task artifacts baseline running_task exited
  after_start task artifacts baseline (err e) = fail_run task artifacts e

  -- What follows the check of the agent's command.
  unfoldable pub after_check :
      ResolvedTask → AgentInvocation → ArtifactRefs → Result (Unit {0}) → Run W TaskResult
  unfolding after_start finish_pre_run_failure
  after_check task invocation artifacts (err e) = finish_pre_run_failure task artifacts e
  after_check task invocation artifacts (ok _) = do
    baseline ← call (o.capture_baseline task)
    prepared ← call (o.prepare task)
    transition o task.id running
    started ← attempt (call (o.start prepared invocation))
    after_start task artifacts baseline started

  unfoldable pub run : ResolvedTask → Run W TaskResult
  unfolding after_check evaluate_or_request_approval
  run task = do
    transition o task.id created
    at ← call o.now_utc
    record_event o (task_created task.id at task.goal)
    transition o task.id validating
    invocation ← call (o.build_invocation task)
    transition o task.id preparing
    artifacts ← call (o.create_task_dir task)
    call (o.write_resolved_task task)
    checked ←
        attempt (
          evaluate_or_request_approval o task (command (command_action_from_invocation invocation)))
    after_check task invocation artifacts checked

  -- A run starts with no events.
  unfoldable pub run_task : ResolvedTask → W → Result TaskResult × RunState W
  run_task task w = run task (record { world = w; events = [] })
