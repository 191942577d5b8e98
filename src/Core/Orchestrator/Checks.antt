-- ===== src/Core/Orchestrator/Checks.antt =====
-- crates/taskfence-core/src/lib.rs: how a run records its events, and the check of the agent's command
-- against policy and approval.
use task_fence.Prelude.{String, Bool, not, ◌&&◌, Option, none, some, if◌then◌else◌}
use task_fence.Std.Text.{is_empty}
use task_fence.Core.Error.{policy, approval}
use task_fence.Core.Task.{TaskId, TaskStatus, waiting_for_approval, denied, ResolvedTask}
use task_fence.Core.Action.{Action, ActionDecision, allow, require_approval, deny, ApprovalDecision}
use task_fence.Core.Event.{
  LogStream, RunOutput, ArtifactRefs, AuditEvent, task_status_changed, policy_decision,
  approval_requested, approval_resolved, log, artifact, error,
}
use task_fence.Core.Effect.{pure, raise, ◌>>=◌, ◌>>◌}
use task_fence.Core.Orchestrator.Calls.{Orchestrator, Run, call, call_with, push_event}

module _ {W : Type 0} (o : Orchestrator W) where
  unfoldable pub record_event : AuditEvent → Run W (Unit {0})
  record_event event = do call (o.record_audit event); push_event event

  unfoldable pub transition : TaskId → TaskStatus → Run W (Unit {0})
  transition task_id status = do
    call (o.set_status task_id status)
    at ← call o.now_utc
    record_event (task_status_changed task_id at status)

  unfoldable pub record_error : TaskId → String → Run W (Unit {0})
  record_error task_id message = do at ← call o.now_utc; record_event (error task_id at message)

  unfoldable pub generate_report : ResolvedTask → ArtifactRefs → Run W (Unit {0})
  generate_report task artifacts = do
    report_path ← call_with (o.generate task artifacts)
    at ← call o.now_utc
    record_event (artifact task.id at "report" report_path)

  -- One of the two branches of `record_run_logs`.
  unfoldable pub record_stream :
      ResolvedTask → LogStream → String → Bool → String → Run W (Unit {0})
  record_stream task stream kind capture text =
      if capture && not (is_empty text)
      then (do
        path ← call (o.write_log task stream text)
        at ← call o.now_utc
        record_event (artifact task.id at kind path)
        timestamp ← call o.now_utc
        record_event (log task.id (record { stream = stream; text = text; timestamp = timestamp })))
      else pure tt

  unfoldable pub record_run_logs : ResolvedTask → RunOutput → Run W (Unit {0})
  record_run_logs task output = do
    record_stream task LogStream.stdout "stdout" task.audit.capture.stdout output.stdout
    record_stream task LogStream.stderr "stderr" task.audit.capture.stderr output.stderr

  -- The match on `resolved.decision`.
  unfoldable pub check_approval : TaskId → Option ApprovalDecision → Run W (Unit {0})
  check_approval task_id (some ApprovalDecision.approved) = pure tt
  check_approval task_id (some ApprovalDecision.denied) = do
    transition task_id denied
    raise (approval "approval denied or timed out")
  check_approval task_id (some ApprovalDecision.timed_out) = do
    transition task_id denied
    raise (approval "approval denied or timed out")
  check_approval task_id none = do
    transition task_id denied
    raise (approval "approval denied or timed out")

  -- The match on `decision`.
  unfoldable pub obey : ResolvedTask → Action → ActionDecision → Run W (Unit {0})
  unfolding check_approval
  obey task action (allow rule_id reason) = pure tt
  obey task action (deny rule_id reason) = do transition task.id denied; raise (policy reason)
  obey task action (require_approval kind rule_id reason risk) = do
    transition task.id waiting_for_approval
    requested ← call (o.request task action (require_approval kind rule_id reason risk))
    record_event (approval_requested requested)
    resolved ← call (o.wait requested.id)
    record_event (approval_resolved resolved)
    check_approval task.id resolved.decision

  unfoldable pub evaluate_or_request_approval : ResolvedTask → Action → Run W (Unit {0})
  unfolding obey
  evaluate_or_request_approval task action = do
    decision ← call (o.evaluate task action)
    at ← call o.now_utc
    record_event (policy_decision task.id at action decision)
    obey task action decision
