-- ===== src/Core/Orchestrator/Log.antt =====
-- The events of a run are what its audit logger recorded.
use task_fence.Prelude.{String, ◌≡◌, List, [], ◌∷◌, ◌++◌, arith, ◌∙◌, sym}
use mathlib.Core.List.{append_assoc, append-nil}
use task_fence.Core.Error.{Result, ok, err}
use task_fence.Core.Task.{TaskId, ApprovalId, TaskStatus, ResolvedTask}
use task_fence.Core.Action.{Action, ActionDecision}
use task_fence.Core.Event.{
  AgentInvocation, PreparedRun, RunningTask, LogStream, ArtifactRefs, WorkspaceBaseline, AuditEvent,
}
use task_fence.Core.Effect.{Effect, Keeps, ◌>>=◌}
use task_fence.Core.Orchestrator.Calls.{Orchestrator, RunState, call, call_with, push_event}
use task_fence.Core.Orchestrator.Checks.{record_event}
use task_fence.Core.Orchestrator.{run_task}
use task_fence.Core.Orchestrator.Keeps.{KeptBefore, KeptAfter, run-Keeps}

module _ {W : Type 0} (log : W → List AuditEvent) where
  -- The call leaves the log alone.
  abbrev pub Silent : {A : Type 0} → Effect W A → Type 0
  Silent m = (w : W) → log (m w).1 ≡ log w

  abbrev appended : Result (Unit {0}) → W → AuditEvent → List AuditEvent
  appended (ok _) w e = log w ++ e ∷ []
  appended (err _) w e = log w

  -- The contract of an audit logger: it appends the event, or fails and appends nothing; nothing else
  -- writes to the log.
  pub record IsAuditLog (o : Orchestrator W) : Type 0 where
    pub record_audit :
        (e : AuditEvent) (w : W) → log (o.record_audit e w).1 ≡ appended (o.record_audit e w).0 w e
    pub evaluate : (t : ResolvedTask) (a : Action) → Silent (o.evaluate t a)
    pub request : (t : ResolvedTask) (a : Action) (d : ActionDecision) → Silent (o.request t a d)
    pub wait : (id : ApprovalId) → Silent (o.wait id)
    pub create_task_dir : (t : ResolvedTask) → Silent (o.create_task_dir t)
    pub write_resolved_task : (t : ResolvedTask) → Silent (o.write_resolved_task t)
    pub write_log :
        (t : ResolvedTask) (st : LogStream) (text : String) → Silent (o.write_log t st text)
    pub capture_baseline : (t : ResolvedTask) → Silent (o.capture_baseline t)
    pub collect_diff : (t : ResolvedTask) (b : WorkspaceBaseline) → Silent (o.collect_diff t b)
    pub build_invocation : (t : ResolvedTask) → Silent (o.build_invocation t)
    pub prepare : (t : ResolvedTask) → Silent (o.prepare t)
    pub start : (p : PreparedRun) (i : AgentInvocation) → Silent (o.start p i)
    pub stop : (r : RunningTask) → Silent (o.stop r)
    pub collect_exit : (r : RunningTask) → Silent (o.collect_exit r)
    pub generate :
        (t : ResolvedTask) (a : ArtifactRefs) (es : List AuditEvent) → Silent (o.generate t a es)
    pub set_status : (id : TaskId) (st : TaskStatus) → Silent (o.set_status id st)
    pub now_utc : Silent o.now_utc

  -- The log holds what it held before the run, and then the events.
  abbrev Logged : List AuditEvent → RunState W → Type 0
  Logged before s = log s.world ≡ before ++ s.events

  call-Logged :
      {A : Type 0} (before : List AuditEvent) (m : Effect W A)
      → Silent m
      → Keeps (Logged before) (call m)
  unfolding call
  call-Logged before m h = record { after = λ s e. h s.world ∙ e }

  generate-Logged :
      {A : Type 0} (before : List AuditEvent) (m : List AuditEvent → Effect W A)
      → ((es : List AuditEvent) → Silent (m es))
      → Keeps (Logged before) (call_with m)
  unfolding call_with
  generate-Logged before m h = record { after = λ s e. h s.events s.world ∙ e }

  module _ (o : Orchestrator W) (h : IsAuditLog o) (before : List AuditEvent) where
    record_event-Logged : (e : AuditEvent) → Keeps (Logged before) (record_event o e)
    unfolding record_event call push_event ◌>>=◌
    record_event-Logged e = record {
      after =
          λ s k. ground (arith, h.record_audit e s.world, append_assoc before s.events (e ∷ []));
    }

    kept_before : KeptBefore o (Logged before)
    kept_before = record {
      evaluate = λ t a. call-Logged before _ (h.evaluate t a);
      request = λ t a d. call-Logged before _ (h.request t a d);
      wait = λ id. call-Logged before _ (h.wait id);
      create_task_dir = λ t. call-Logged before _ (h.create_task_dir t);
      write_resolved_task = λ t. call-Logged before _ (h.write_resolved_task t);
      build_invocation = λ t. call-Logged before _ (h.build_invocation t);
      generate = λ t a. generate-Logged before _ (h.generate t a);
      set_status = λ id st. call-Logged before _ (h.set_status id st);
      now_utc = call-Logged before _ h.now_utc;
      record_event = λ e _. record_event-Logged e;
    }

    kept_after : KeptAfter o (Logged before)
    kept_after = record {
      before = kept_before;
      write_log = λ t st text. call-Logged before _ (h.write_log t st text);
      capture_baseline = λ t. call-Logged before _ (h.capture_baseline t);
      collect_diff = λ t b. call-Logged before _ (h.collect_diff t b);
      prepare = λ t. call-Logged before _ (h.prepare t);
      start = λ p i. call-Logged before _ (h.start p i);
      stop = λ r. call-Logged before _ (h.stop r);
      collect_exit = λ r. call-Logged before _ (h.collect_exit r);
      record_running = λ e _. record_event-Logged e;
    }

-- Whatever the outcome of a run, also an error, the audit log holds what it held before, followed by
-- the run's events in order, which are what the report is made from.
pub run_task-logged :
    {W : Type 0} (log : W → List AuditEvent) (o : Orchestrator W) (t : ResolvedTask) (w : W)
    → IsAuditLog log o
    → log (run_task o t w).1.world ≡ log w ++ (run_task o t w).1.events
unfolding run_task
run_task-logged log o t w h =
    (run-Keeps o (Logged log (log w)) (kept_after log o h (log w)) t).after
      (record { world = w; events = [] }) (sym (append-nil (log w)))
