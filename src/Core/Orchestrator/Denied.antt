-- ===== src/Core/Orchestrator/Denied.antt =====
-- A run whose command is not let through starts no agent.
use task_fence.Prelude.{◌≡◌, ◌≢◌, refl, false, List, []}
use task_fence.Core.Error.{Result, ok, err}
use task_fence.Core.Task.{
  TaskId, ApprovalId, TaskStatus, denied, waiting_for_approval, ResolvedTask,
}
use task_fence.Core.Action.{Action, ActionDecision, allow, deny, require_approval, ApprovalRecord}
use task_fence.Core.Event.{
  AgentInvocation, ArtifactRefs, AuditEvent, policy_decision, approval_requested, approval_resolved,
}
use task_fence.Core.Effect.{
  Effect, Keeps, Keeps-bind, Ensures, Ensures-bind, bind-eq-ok, pure, raise, attempt,
}
use task_fence.Core.Orchestrator.Calls.{Orchestrator, RunState, call, call_with, push_event}
use task_fence.Core.Orchestrator.Checks.{
  record_event, transition, obey, evaluate_or_request_approval,
}
use task_fence.Core.Orchestrator.{after_check, run_task}
use task_fence.Core.Orchestrator.Keeps.{
  KeptBefore, run_rule, finish_pre_run_failure-Keeps, evaluate_or_request_approval-Keeps,
}
use task_fence.Core.Orchestrator.Authorised.{is_allowed, is_approved, check_approval-eq-ok}

module _ {W : Type 0} (P : W → Type 0) where
  abbrev pub KeepsWorld : {A : Type 0} → Effect W A → Type 0
  KeepsWorld m = (w : W) → P w → P (m w).1

  -- Every call that a run makes before it starts the agent keeps `P`. Nothing is said of `start`,
  -- `stop`, `collect_exit`, `prepare`, `write_log`, `capture_baseline` and `collect_diff`.
  pub record KeptWithoutStart (o : Orchestrator W) : Type 0 where
    pub evaluate : (t : ResolvedTask) (a : Action) → KeepsWorld (o.evaluate t a)
    pub request :
        (t : ResolvedTask) (a : Action) (d : ActionDecision) → KeepsWorld (o.request t a d)
    pub wait : (id : ApprovalId) → KeepsWorld (o.wait id)
    pub record_audit : (e : AuditEvent) → KeepsWorld (o.record_audit e)
    pub create_task_dir : (t : ResolvedTask) → KeepsWorld (o.create_task_dir t)
    pub write_resolved_task : (t : ResolvedTask) → KeepsWorld (o.write_resolved_task t)
    pub build_invocation : (t : ResolvedTask) → KeepsWorld (o.build_invocation t)
    pub generate :
        (t : ResolvedTask) (a : ArtifactRefs) (es : List AuditEvent)
        → KeepsWorld (o.generate t a es)
    pub set_status : (id : TaskId) (st : TaskStatus) → KeepsWorld (o.set_status id st)
    pub now_utc : KeepsWorld o.now_utc

  call-World :
      {A : Type 0} (m : Effect W A) → KeepsWorld m → Keeps (λ (s : RunState W). P s.world) (call m)
  unfolding call
  call-World m h = record { after = λ s p. h s.world p }

  call_with-World :
      {A : Type 0} (m : List AuditEvent → Effect W A)
      → ((es : List AuditEvent) → KeepsWorld (m es))
      → Keeps (λ (s : RunState W). P s.world) (call_with m)
  unfolding call_with
  call_with-World m h = record { after = λ s p. h s.events s.world p }

  record_event-World :
      (o : Orchestrator W) (e : AuditEvent)
      → KeepsWorld (o.record_audit e)
      → Keeps (λ (s : RunState W). P s.world) (record_event o e)
  unfolding record_event push_event
  record_event-World o e h =
      Keeps-bind _ _ (call-World (o.record_audit e) h) (λ _. record { after = λ s p. p })

  kept_before : (o : Orchestrator W) → KeptWithoutStart o → KeptBefore o (λ s. P s.world)
  kept_before o h = record {
    evaluate = λ t a. call-World _ (h.evaluate t a);
    request = λ t a d. call-World _ (h.request t a d);
    wait = λ id. call-World _ (h.wait id);
    create_task_dir = λ t. call-World _ (h.create_task_dir t);
    write_resolved_task = λ t. call-World _ (h.write_resolved_task t);
    build_invocation = λ t. call-World _ (h.build_invocation t);
    generate = λ t a. call_with-World _ (h.generate t a);
    set_status = λ id st. call-World _ (h.set_status id st);
    now_utc = call-World _ h.now_utc;
    record_event = λ e _. record_event-World o e (h.record_audit e);
  }

-- The policy never allows an action of the task, and no approval is ever given.
pub record NeverPasses {W : Type 0} (o : Orchestrator W) (t : ResolvedTask) : Type 0 where
  pub no_allow :
      (a : Action) (w : W) (d : ActionDecision) → (o.evaluate t a w).0 ≡ ok d → is_allowed d ≡ false
  pub no_approval :
      (id : ApprovalId) (w : W) (r : ApprovalRecord)
      → (o.wait id w).0 ≡ ok r
      → is_approved r.decision ≡ false

module _ {W : Type 0} (o : Orchestrator W) (t : ResolvedTask) (h : NeverPasses o t) where
  obey_fails :
      (a : Action) (d : ActionDecision) (s : RunState W) {u : Unit {0}}
      → is_allowed d ≡ false
      → (obey o t a d s).0 ≢ ok u
  unfolding obey pure raise call
  obey_fails a (allow rule reason) s d k = cc d
  obey_fails a (deny rule reason) s d k =
      let (u, _, e, _) = bind-eq-ok (transition o t.id denied) _ s k in cc e
  obey_fails a (require_approval kind rule reason risk) s d k =
      let (_, _, h₁, _) = bind-eq-ok (transition o t.id waiting_for_approval) _ s k in
      let (asked, _, h₂, _) =
        bind-eq-ok (call (o.request t a (require_approval kind rule reason risk))) _ _ h₁ in
      let (_, _, h₃, _) = bind-eq-ok (record_event o (approval_requested asked)) _ _ h₂ in
      let (answer, got, h₄, _) = bind-eq-ok (call (o.wait asked.id)) _ _ h₃ in
      let (_, _, h₅, _) = bind-eq-ok (record_event o (approval_resolved answer)) _ _ h₄ in
      let (yes_approved, _) = check_approval-eq-ok o t.id answer.decision _ h₅ in
      cc (yes_approved, h.no_approval asked.id _ answer got)

  evaluate_fails :
      (a : Action) (s : RunState W) {u : Unit {0}} → (evaluate_or_request_approval o t a s).0 ≢ ok u
  unfolding evaluate_or_request_approval call
  evaluate_fails a s k =
      let (d, got, h₁, _) = bind-eq-ok (call (o.evaluate t a)) _ s k in
      let (at, _, h₂, _) = bind-eq-ok (call o.now_utc) _ _ h₁ in
      let (_, _, h₃, _) = bind-eq-ok (record_event o (policy_decision t.id at a d)) _ _ h₂ in
      obey_fails a d _ (h.no_allow a s.world d got) h₃

module _ {W : Type 0} (P : W → Type 0) (o : Orchestrator W) (t : ResolvedTask) (h : NeverPasses o t)
    (k : KeptWithoutStart P o) where
  -- The check of the command leaves an error, so nothing but `finish_pre_run_failure` follows.
  abbrev Stopped : Result (Result (Unit {0})) → RunState W → Type 0
  Stopped (ok (ok _)) s = ⊥
  Stopped (ok (err e)) s = P s.world
  Stopped (err e) s = P s.world

  Stopped-cases :
      (r : Result (Unit {0})) (s : RunState W)
      → P s.world
      → ((u : Unit {0}) → r ≢ ok u)
      → Stopped (ok r) s
  Stopped-cases (ok u) s p no_ok = no_ok u refl
  Stopped-cases (err e) s p no_ok = p

  check-Stopped :
      (a : Action) → Ensures (λ s. P s.world) (attempt (evaluate_or_request_approval o t a)) Stopped
  unfolding attempt
  check-Stopped a s p =
      Stopped-cases (evaluate_or_request_approval o t a s).0
        (evaluate_or_request_approval o t a s).1
        ((evaluate_or_request_approval-Keeps o _ (kept_before P o k) t a).after s p)
        (λ u. evaluate_fails o t h a s)

  rest-Stopped :
      (i : AgentInvocation) (a : ArtifactRefs) (r : Result (Unit {0}))
      → Ensures (Stopped (ok r)) (after_check o t i a r) (λ _ s. P s.world)
  unfolding after_check
  rest-Stopped i a (ok u) s p = absurd p
  rest-Stopped i a (err e) s p =
      (finish_pre_run_failure-Keeps o _ (kept_before P o k) t a e).after s p

  -- Where the policy never allows an action of the task and no approval is given, every property of the
  -- world that the calls before the start of the agent keep is kept by the whole run, whatever preparing,
  -- starting, following or stopping an agent would do.
  pub run_task-not_started : (w : W) → P w → P (run_task o t w).1.world
  unfolding run_task
  run_task-not_started w p =
      (run_rule o (λ s. P s.world) (kept_before P o k) t
          (λ i v built a. record {
            after =
                Ensures-bind (λ s. P s.world) Stopped (λ _ s. P s.world) _ _ (check-Stopped _)
                  (rest-Stopped i a) (λ e s q. q);
          })).after
        (record { world = w; events = [] }) p
