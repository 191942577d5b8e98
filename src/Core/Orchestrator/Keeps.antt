-- ===== src/Core/Orchestrator/Keeps.antt =====
-- Invariants of a run, from what the calls into the world and the recorded events keep.
use task_fence.Prelude.{
  String, ◌≡◌, refl, eqb, Bool, true, false, Option, none, some, Bool-cases, inl, inr,
}
use task_fence.Core.Error.{TaskFenceError, Result, ok, err}
use task_fence.Core.Task.{
  TaskId, ApprovalId, TaskStatus, created, validating, preparing, running, collecting_artifacts,
  Utf8PathBuf, ResolvedTask,
}
use task_fence.Core.Action.{
  Action, command, ActionDecision, allow, deny, require_approval, ApprovalDecision,
}
use task_fence.Core.Event.{
  AgentInvocation, PreparedRun, RunningTask, LogStream, RunOutput, ArtifactRefs, WorkspaceBaseline,
  ExitStatus, AuditEvent,
}
use task_fence.Core.Effect.{
  Keeps, Keeps-bind, Keeps-bind_given, Keeps-pure, Keeps-attempt, Keeps-if, keeps_rules, ◌>>=◌,
  attempt,
}
use task_fence.Core.Orchestrator.Calls.{
  Orchestrator, RunState, read_events, call, call_with, command_action_from_invocation, index,
  is_status,
}
use task_fence.Core.Orchestrator.Checks.{
  record_event, transition, record_error, generate_report, record_stream, record_run_logs,
  check_approval, obey, evaluate_or_request_approval,
}
use task_fence.Core.Orchestrator.{
  close, pre_run_status, finish_pre_run_failure, fail_run, logs_message, diff_message,
  collect_diff_message, end_run, finish_run, after_exit, after_start, after_check, run,
}

-- What the steps before the agent is started keep.
pub record KeptBefore {W : Type 0} (o : Orchestrator W) (J : RunState W → Type 0) : Type 0 where
  pub evaluate : (t : ResolvedTask) (a : Action) → Keeps J (call (o.evaluate t a))
  pub request :
      (t : ResolvedTask) (a : Action) (d : ActionDecision) → Keeps J (call (o.request t a d))
  pub wait : (id : ApprovalId) → Keeps J (call (o.wait id))
  pub create_task_dir : (t : ResolvedTask) → Keeps J (call (o.create_task_dir t))
  pub write_resolved_task : (t : ResolvedTask) → Keeps J (call (o.write_resolved_task t))
  pub build_invocation : (t : ResolvedTask) → Keeps J (call (o.build_invocation t))
  pub generate : (t : ResolvedTask) (a : ArtifactRefs) → Keeps J (call_with (o.generate t a))
  pub set_status : (id : TaskId) (st : TaskStatus) → Keeps J (call (o.set_status id st))
  pub now_utc : Keeps J (call o.now_utc)
  pub record_event : (e : AuditEvent) → is_status running e ≡ false → Keeps J (record_event o e)

-- What the rest of a run keeps too.
pub record KeptAfter {W : Type 0} (o : Orchestrator W) (J : RunState W → Type 0) : Type 0 where
  pub before : KeptBefore o J
  pub write_log :
      (t : ResolvedTask) (st : LogStream) (text : String) → Keeps J (call (o.write_log t st text))
  pub capture_baseline : (t : ResolvedTask) → Keeps J (call (o.capture_baseline t))
  pub collect_diff :
      (t : ResolvedTask) (b : WorkspaceBaseline) → Keeps J (call (o.collect_diff t b))
  pub prepare : (t : ResolvedTask) → Keeps J (call (o.prepare t))
  pub start : (p : PreparedRun) (i : AgentInvocation) → Keeps J (call (o.start p i))
  pub stop : (r : RunningTask) → Keeps J (call (o.stop r))
  pub collect_exit : (r : RunningTask) → Keeps J (call (o.collect_exit r))
  pub record_running : (e : AuditEvent) → is_status running e ≡ true → Keeps J (record_event o e)

module _ {W : Type 0} (o : Orchestrator W) (J : RunState W → Type 0) (k : KeptBefore o J) where
  transition-Keeps :
      (id : TaskId) (st : TaskStatus)
      → eqb (index st) (index running) ≡ false
      → Keeps J (transition o id st)
  unfolding transition
  transition-Keeps id st h =
      Keeps-bind _ _ (k.set_status id st) (λ _. Keeps-bind _ _ k.now_utc (λ at. k.record_event _ h))

  record_error-Keeps : (id : TaskId) (message : String) → Keeps J (record_error o id message)
  unfolding record_error
  record_error-Keeps id message = search (keeps_rules, k.now_utc, k.record_event)

  generate_report-Keeps : (t : ResolvedTask) (a : ArtifactRefs) → Keeps J (generate_report o t a)
  unfolding generate_report
  generate_report-Keeps t a =
      Keeps-bind _ _ (k.generate t a)
        (λ path. Keeps-bind _ _ k.now_utc (λ at. k.record_event _ refl))

  check_approval-Keeps :
      (id : TaskId) (d : Option ApprovalDecision) → Keeps J (check_approval o id d)
  unfolding check_approval
  check_approval-Keeps id none = search (keeps_rules, transition-Keeps)
  check_approval-Keeps id (some ApprovalDecision.approved) = search keeps_rules
  check_approval-Keeps id (some ApprovalDecision.denied) = search (keeps_rules, transition-Keeps)
  check_approval-Keeps id (some ApprovalDecision.timed_out) = search (keeps_rules, transition-Keeps)

  obey-Keeps : (t : ResolvedTask) (a : Action) (d : ActionDecision) → Keeps J (obey o t a d)
  unfolding obey
  obey-Keeps t a (allow rule reason) = search keeps_rules
  obey-Keeps t a (deny rule reason) = search (keeps_rules, transition-Keeps)
  obey-Keeps t a (require_approval kind rule reason risk) =
      search
        (keeps_rules, transition-Keeps, k.request, k.wait, k.record_event, check_approval-Keeps)
        depth 9

  pub evaluate_or_request_approval-Keeps :
      (t : ResolvedTask) (a : Action) → Keeps J (evaluate_or_request_approval o t a)
  unfolding evaluate_or_request_approval
  evaluate_or_request_approval-Keeps t a = Keeps-bind _ _ (k.evaluate t a) (λ d.
      Keeps-bind _ _ k.now_utc
        (λ at. Keeps-bind _ _ (k.record_event _ refl) (λ _. obey-Keeps t a d)))

  close-Keeps :
      (t : ResolvedTask) (x : Option ExitStatus) (a : ArtifactRefs) (st : TaskStatus)
      (m : Option String) (r : Result (Unit {0}))
      → Keeps J (close o t x a st m r)
  unfolding close
  close-Keeps t x a st m (ok _) = search keeps_rules
  close-Keeps t x a st m (err e) = search (keeps_rules, record_error-Keeps, transition-Keeps)

  pre_run_status-Keeps : (id : TaskId) (b : Bool) → Keeps J (pre_run_status o id b)
  unfolding pre_run_status
  pre_run_status-Keeps id true = search keeps_rules
  pre_run_status-Keeps id false = search (keeps_rules, transition-Keeps)

  read_events-Keeps : Keeps J (read_events {W = W})
  unfolding read_events
  read_events-Keeps = record { after = λ s h. h }

  pub finish_pre_run_failure-Keeps :
      (t : ResolvedTask) (a : ArtifactRefs) (e : TaskFenceError)
      → Keeps J (finish_pre_run_failure o t a e)
  unfolding finish_pre_run_failure
  finish_pre_run_failure-Keeps t a e =
      search
        (
          keeps_rules, read_events-Keeps, pre_run_status-Keeps, record_error-Keeps,
          generate_report-Keeps, close-Keeps,
        )
        depth 9

  -- The part of `run` up to the check of the agent's command.
  fail_run-Keeps :
      (t : ResolvedTask) (a : ArtifactRefs) (e : TaskFenceError) → Keeps J (fail_run o t a e)
  unfolding fail_run
  fail_run-Keeps t a e =
      search (keeps_rules, record_error-Keeps, transition-Keeps, generate_report-Keeps) depth 9

  -- A run keeps what the steps before the start keep, if what follows keeps it, from the check of the
  -- command on that the agent's adapter has built.
  pub run_rule :
      (t : ResolvedTask)
      → ((i : AgentInvocation) (w : W)
          → (o.build_invocation t w).0 ≡ ok i
          → (a : ArtifactRefs)
          → Keeps J (
              attempt
                (evaluate_or_request_approval o t (command (command_action_from_invocation i)))
              >>= after_check o t i a))
      → Keeps J (run o t)
  unfolding run call
  run_rule t h = Keeps-bind _ _ (transition-Keeps t.id created refl) (λ _.
      Keeps-bind _ _ k.now_utc (λ at. Keeps-bind _ _ (k.record_event _ refl) (λ _.
        Keeps-bind _ _ (transition-Keeps t.id validating refl) (λ _.
          Keeps-bind_given _ _ (k.build_invocation t) (λ i s built.
            Keeps-bind _ _ (transition-Keeps t.id preparing refl) (λ _.
              Keeps-bind _ _ (k.create_task_dir t)
                (λ a. Keeps-bind _ _ (k.write_resolved_task t) (λ _. h i s.world built a))))))))

any_record-Keeps :
    {W : Type 0} {o : Orchestrator W} {J : RunState W → Type 0} (k : KeptAfter o J) (e : AuditEvent)
    → Keeps J (record_event o e)
any_record-Keeps k e = elim (Bool-cases (is_status running e)) [
  | inl yes_running ↦ k.record_running e yes_running
  | inr not_running ↦ k.before.record_event e not_running
]

module _ {W : Type 0} (o : Orchestrator W) (J : RunState W → Type 0) (k : KeptAfter o J) where
  any_transition-Keeps : (id : TaskId) (st : TaskStatus) → Keeps J (transition o id st)
  unfolding transition
  any_transition-Keeps id st =
      Keeps-bind _ _ (k.before.set_status id st)
        (λ _. Keeps-bind _ _ k.before.now_utc (λ at. any_record-Keeps k _))

  record_stream-Keeps :
      (t : ResolvedTask) (st : LogStream) (kind : String) (b : Bool) (text : String)
      → Keeps J (record_stream o t st kind b text)
  unfolding record_stream
  record_stream-Keeps t st kind b text =
      Keeps-if _ _ _
        (Keeps-bind _ _ (k.write_log t st text) (λ path. Keeps-bind _ _ k.before.now_utc (λ at.
          Keeps-bind _ _ (k.before.record_event _ refl)
            (λ _. Keeps-bind _ _ k.before.now_utc (λ later. k.before.record_event _ refl)))))
        (Keeps-pure tt)

  logs_message-Keeps : (id : TaskId) (r : Result (Unit {0})) → Keeps J (logs_message o id r)
  unfolding logs_message
  logs_message-Keeps id (ok _) = search keeps_rules
  logs_message-Keeps id (err e) = search (keeps_rules, record_error-Keeps o J k.before)

  diff_message-Keeps :
      (id : TaskId) (m : Option String) (r : Result (Option Utf8PathBuf))
      → Keeps J (diff_message o id m r)
  unfolding diff_message
  diff_message-Keeps id m (ok (some path)) =
      Keeps-bind _ _ k.before.now_utc
        (λ at. Keeps-bind _ _ (k.before.record_event _ refl) (λ _. Keeps-pure m))
  diff_message-Keeps id m (ok none) = search keeps_rules
  diff_message-Keeps id m (err e) = search (keeps_rules, record_error-Keeps o J k.before)

  collect_diff_message-Keeps :
      (t : ResolvedTask) (b : WorkspaceBaseline) (m : Option String)
      → Keeps J (collect_diff_message o t b m)
  unfolding collect_diff_message
  collect_diff_message-Keeps t b m =
      Keeps-if _ _ _
        (Keeps-bind _ _ (Keeps-attempt _ (k.collect_diff t b)) (λ r. diff_message-Keeps t.id m r))
        (Keeps-pure m)

  record_run_logs-Keeps : (t : ResolvedTask) (r : RunOutput) → Keeps J (record_run_logs o t r)
  unfolding record_run_logs
  record_run_logs-Keeps t r = search (keeps_rules, record_stream-Keeps)

  end_run-Keeps :
      (t : ResolvedTask) (a : ArtifactRefs) (r : RunOutput) (m : Option String)
      → Keeps J (end_run o t a r m)
  unfolding end_run
  end_run-Keeps t a r m =
      search
        (
          keeps_rules,
          any_transition-Keeps,
          generate_report-Keeps o J k.before,
          close-Keeps o J k.before,
        )
        depth 9

  finish_run-Keeps :
      (t : ResolvedTask) (a : ArtifactRefs) (b : WorkspaceBaseline) (r : RunOutput)
      → Keeps J (finish_run o t a b r)
  unfolding finish_run
  finish_run-Keeps t a b r = Keeps-bind _ _ (Keeps-attempt _ (record_run_logs-Keeps t r)) (λ logged.
      Keeps-bind _ _ (logs_message-Keeps t.id logged) (λ m. Keeps-bind _ _ k.before.now_utc (λ at.
        Keeps-bind _ _ (k.before.record_event _ refl) (λ _.
          Keeps-bind _ _ (any_transition-Keeps t.id collecting_artifacts) (λ _.
            Keeps-bind _ _ (collect_diff_message-Keeps t b m) (λ m'. end_run-Keeps t a r m'))))))

  after_exit-Keeps :
      (t : ResolvedTask) (a : ArtifactRefs) (b : WorkspaceBaseline) (g : RunningTask)
      (r : Result RunOutput)
      → Keeps J (after_exit o t a b g r)
  unfolding after_exit
  after_exit-Keeps t a b g (ok out) = finish_run-Keeps t a b out
  after_exit-Keeps t a b g (err e) =
      Keeps-bind _ _ (Keeps-attempt _ (k.stop g)) (λ _. fail_run-Keeps o J k.before t a e)

  after_start-Keeps :
      (t : ResolvedTask) (a : ArtifactRefs) (b : WorkspaceBaseline) (r : Result RunningTask)
      → Keeps J (after_start o t a b r)
  unfolding after_start
  after_start-Keeps t a b (ok g) =
      Keeps-bind _ _ (Keeps-attempt _ (k.collect_exit g)) (λ r. after_exit-Keeps t a b g r)
  after_start-Keeps t a b (err e) = fail_run-Keeps o J k.before t a e

  pub after_check-Keeps :
      (t : ResolvedTask) (i : AgentInvocation) (a : ArtifactRefs) (r : Result (Unit {0}))
      → Keeps J (after_check o t i a r)
  unfolding after_check
  after_check-Keeps t i a (err e) = finish_pre_run_failure-Keeps o J k.before t a e
  after_check-Keeps t i a (ok _) = Keeps-bind _ _ (k.capture_baseline t) (λ b.
      Keeps-bind _ _ (k.prepare t) (λ p.
        Keeps-bind _ _ (any_transition-Keeps t.id running)
          (λ _. Keeps-bind _ _ (Keeps-attempt _ (k.start p i)) (λ r. after_start-Keeps t a b r))))

  -- Every run keeps what all its calls and all its events keep.
  pub run-Keeps : (t : ResolvedTask) → Keeps J (run o t)
  run-Keeps t = run_rule o J k.before t (λ i w built a.
      Keeps-bind _ _ (Keeps-attempt _ (evaluate_or_request_approval-Keeps o J k.before t _))
        (λ r. after_check-Keeps t i a r))
