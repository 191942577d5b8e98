-- ===== src/Core/Orchestrator/Calls.antt =====
-- crates/taskfence-core/src/lib.rs: the traits that `Orchestrator` holds, and the calls of a run. The
-- traits' implementations are a record of operations over a world that they read and change.
use task_fence.Prelude.{ℕ, String, Bool, false, Option, List, [], ◌∷◌, ◌++◌, any, eqb}
use task_fence.Std.Format.{join}
use task_fence.Core.Error.{ok}
use task_fence.Core.Task.{
  TaskId, ApprovalId, Utf8PathBuf, TaskStatus, created, validating, preparing, running,
  waiting_for_approval, stopping, collecting_artifacts, reporting, succeeded, failed, denied,
  timed_out, cancelled, ResolvedTask,
}
use task_fence.Core.Action.{OffsetDateTime, CommandAction, Action, ActionDecision, ApprovalRecord}
use task_fence.Core.Command.{parse}
use task_fence.Core.Event.{
  AgentInvocation, PreparedRun, RunningTask, LogStream, RunOutput, ArtifactRefs, WorkspaceBaseline,
  AuditEvent, task_status_changed,
}
use task_fence.Core.Effect.{Effect}

-- The trait objects that an orchestrator holds, and the clock.
pub record Orchestrator (W : Type 0) : Type 0 where
  pub evaluate : ResolvedTask → Action → Effect W ActionDecision
  pub request : ResolvedTask → Action → ActionDecision → Effect W ApprovalRecord
  pub wait : ApprovalId → Effect W ApprovalRecord
  pub record_audit : AuditEvent → Effect W (Unit {0})
  pub create_task_dir : ResolvedTask → Effect W ArtifactRefs
  pub write_resolved_task : ResolvedTask → Effect W Utf8PathBuf
  pub write_log : ResolvedTask → LogStream → String → Effect W Utf8PathBuf
  pub capture_baseline : ResolvedTask → Effect W WorkspaceBaseline
  pub collect_diff : ResolvedTask → WorkspaceBaseline → Effect W (Option Utf8PathBuf)
  pub build_invocation : ResolvedTask → Effect W AgentInvocation
  pub prepare : ResolvedTask → Effect W PreparedRun
  pub start : PreparedRun → AgentInvocation → Effect W RunningTask
  pub stop : RunningTask → Effect W (Unit {0})
  pub collect_exit : RunningTask → Effect W RunOutput
  pub generate : ResolvedTask → ArtifactRefs → List AuditEvent → Effect W Utf8PathBuf
  pub set_status : TaskId → TaskStatus → Effect W (Unit {0})
  pub now_utc : Effect W OffsetDateTime

-- The world, and the vector `events` of a run.
pub record RunState (W : Type 0) : Type 0 where
  pub world : W
  pub events : List AuditEvent

abbrev pub Run : Type 0 → Type 0 → Type 0
Run W A = Effect (RunState W) A

module _ {W A : Type 0} where
  unfoldable pub call : Effect W A → Run W A
  call m s = ((m s.world).0, record s { world = (m s.world).1 })

  -- A call that reads `events`.
  unfoldable pub call_with : (List AuditEvent → Effect W A) → Run W A
  unfolding call
  call_with m s = call (m s.events) s

unfoldable pub push_event : {W : Type 0} → AuditEvent → Run W (Unit {0})
push_event event s = (ok tt, record s { events = s.events ++ event ∷ [] })

unfoldable pub read_events : {W : Type 0} → Run W (List AuditEvent)
read_events s = (ok s.events, s)

unfoldable pub command_action_from_invocation : AgentInvocation → CommandAction
command_action_from_invocation invocation =
    let raw = join " " (invocation.executable ∷ invocation.args) in
    record {
      executable = invocation.executable;
      args = invocation.args;
      raw = raw;
      shell_wrapped = (parse raw).shell_wrapped;
    }

-- `==` of statuses.
abbrev pub index : TaskStatus → ℕ
index created = 0
index validating = 1
index preparing = 2
index running = 3
index waiting_for_approval = 4
index stopping = 5
index collecting_artifacts = 6
index reporting = 7
index succeeded = 8
index failed = 9
index denied = 10
index timed_out = 11
index cancelled = 12

abbrev pub is_status : TaskStatus → AuditEvent → Bool
is_status expected (task_status_changed id at status) = eqb (index status) (index expected)
is_status expected _ = false

unfoldable pub has_status : List AuditEvent → TaskStatus → Bool
has_status events expected = any (is_status expected) events
