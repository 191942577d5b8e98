-- ===== src/Core/Orchestrator/Authorised.antt =====
-- An agent is started only after its command was authorised.
use task_fence.Prelude.{
  ◌≡◌, refl, sym, ap, subst, ◌∙◌, Bool, true, false, Option, none, some, List, [], ◌∷◌, ◌++◌,
  Somewhere, Somewhere-append, Preceded, Preceded-append,
}
use task_fence.Core.Error.{Result, ok, err}
use task_fence.Core.Task.{TaskId, running, denied, waiting_for_approval, ResolvedTask}
use task_fence.Core.Action.{
  OffsetDateTime, Action, command, ApprovalRecord, ActionDecision, allow, deny, require_approval,
  ApprovalDecision,
}
use task_fence.Core.Event.{
  AgentInvocation, ArtifactRefs, AuditEvent, policy_decision, approval_requested, approval_resolved,
}
use task_fence.Core.Effect.{Ensures, Ensures-bind, bind-eq-ok, pure, raise, attempt}
use task_fence.Core.Orchestrator.Calls.{
  Orchestrator, RunState, call, command_action_from_invocation, is_status,
}
use task_fence.Core.Orchestrator.Checks.{
  record_event, transition, check_approval, obey, evaluate_or_request_approval,
}
use task_fence.Core.Orchestrator.{after_check, run_task}
use task_fence.Core.Orchestrator.Events.{recorded, events-record_event, events_before, events_after}
use task_fence.Core.Orchestrator.Keeps.{
  KeptBefore, KeptAfter, run_rule, after_check-Keeps, finish_pre_run_failure-Keeps,
  evaluate_or_request_approval-Keeps,
}

abbrev pub is_approved : Option ApprovalDecision → Bool
is_approved (some ApprovalDecision.approved) = true
is_approved _ = false

abbrev pub is_allowed : ActionDecision → Bool
is_allowed (allow rule reason) = true
is_allowed _ = false

module _ {W : Type 0} (o : Orchestrator W) where
  pub check_approval-eq-ok :
      (id : TaskId) (d : Option ApprovalDecision) (s : RunState W) {u : Unit {0}}
      → (check_approval o id d s).0 ≡ ok u
      → (is_approved d ≡ true) × (check_approval o id d s ≡ (ok tt, s))
  unfolding check_approval pure raise
  check_approval-eq-ok id (some ApprovalDecision.approved) s h = (refl, refl)
  check_approval-eq-ok id (some ApprovalDecision.denied) s h =
      let (u, _, k, _) = bind-eq-ok (transition o id denied) _ s h in cc k
  check_approval-eq-ok id (some ApprovalDecision.timed_out) s h =
      let (u, _, k, _) = bind-eq-ok (transition o id denied) _ s h in cc k
  check_approval-eq-ok id none s h =
      let (u, _, k, _) = bind-eq-ok (transition o id denied) _ s h in cc k

approved_of :
    (d : Option ApprovalDecision) → is_approved d ≡ true → d ≡ some ApprovalDecision.approved
approved_of (some ApprovalDecision.approved) h = refl
approved_of (some ApprovalDecision.denied) h = cc h
approved_of (some ApprovalDecision.timed_out) h = cc h
approved_of none h = cc h

module _ {W : Type 0} (o : Orchestrator W) (t : ResolvedTask) where
  -- The command of an invocation that the agent's adapter builds for the task.
  abbrev pub IsAgentCommand : Action → Type 0
  IsAgentCommand action =
      (i : AgentInvocation) × (w : W) × ((o.build_invocation t w).0 ≡ ok i)
      × (action ≡ command (command_action_from_invocation i))

  -- What the approval engine gives for a request of such a command.
  abbrev pub IsAnswer : ApprovalRecord → Type 0
  IsAnswer answer =
      (action : Action) × IsAgentCommand action
      × (d : ActionDecision) × (asked : ApprovalRecord) × ((w : W) × ((o.request t action d w).0
            ≡ ok asked))
      × ((w : W) × ((o.wait asked.id w).0 ≡ ok answer))

  -- The event that lets a command run: a decision to allow the agent's command, or an approval of it.
  abbrev pub Authorises : AuditEvent → Type 0
  Authorises (policy_decision id at action (allow rule reason)) =
      (id ≡ t.id)
      × IsAgentCommand action
      × ((w : W) × ((o.evaluate t action w).0 ≡ ok (allow rule reason)))
  Authorises (approval_resolved answer) =
      (answer.decision ≡ some ApprovalDecision.approved) × IsAnswer answer
  Authorises _ = ⊥

  -- Every `Running` status in `es`, which follows `earlier`, comes after an event that authorises.
  abbrev pub GuardedAfter : List AuditEvent → List AuditEvent → Type 0
  GuardedAfter = Preceded (λ e. is_status running e ≡ true) Authorises

  authorised_by_event :
      (e : AuditEvent) (s : RunState W) {u : Unit {0}}
      → (record_event o e s).0 ≡ ok u
      → Authorises e
      → Somewhere Authorises (record_event o e s).1.events
  authorised_by_event e s h k =
      (s.events, e, [], events-record_event o e s ∙ ap (λ r. recorded r s.events e) h, k)

  decision-Authorises :
      (at : OffsetDateTime) (a : Action) (d : ActionDecision) (w : W)
      → is_allowed d ≡ true
      → IsAgentCommand a
      → (o.evaluate t a w).0 ≡ ok d
      → Authorises (policy_decision t.id at a d)
  decision-Authorises at a (allow rule reason) w h c given = (refl, c, (w, given))
  decision-Authorises at a (deny rule reason) w h c given = cc h
  decision-Authorises at a (require_approval kind rule reason risk) w h c given = cc h

  -- A command that passes the check has been authorised by an event.
  obey_authorised :
      (a : Action) (d : ActionDecision) (s : RunState W) {u : Unit {0}}
      → IsAgentCommand a
      → (obey o t a d s).0 ≡ ok u
      → (is_allowed d ≡ true → Somewhere Authorises s.events)
      → Somewhere Authorises (obey o t a d s).1.events
  unfolding obey pure raise call
  obey_authorised a (allow rule reason) s c h k = k refl
  obey_authorised a (deny rule reason) s c h k =
      let (u, _, e, _) = bind-eq-ok (transition o t.id denied) _ s h in cc e
  obey_authorised a (require_approval kind rule reason risk) s c h k =
      let (_, _, h₁, e₁) = bind-eq-ok (transition o t.id waiting_for_approval) _ s h in
      let (asked, got, h₂, e₂) =
        bind-eq-ok (call (o.request t a (require_approval kind rule reason risk))) _ _ h₁ in
      let (_, _, h₃, e₃) = bind-eq-ok (record_event o (approval_requested asked)) _ _ h₂ in
      let (answer, answered, h₄, e₄) = bind-eq-ok (call (o.wait asked.id)) _ _ h₃ in
      let (_, done, h₅, e₅) = bind-eq-ok (record_event o (approval_resolved answer)) _ _ h₄ in
      let (yes_approved, e₆) = check_approval-eq-ok o t.id answer.decision _ h₅ in
      subst (λ (r : Result (Unit {0}) × RunState W). Somewhere Authorises r.1.events)
        (sym (e₁ ∙ e₂ ∙ e₃ ∙ e₄ ∙ e₅ ∙ e₆))
        (authorised_by_event (approval_resolved answer) _ done (
          approved_of answer.decision yes_approved,
          (a, c, require_approval kind rule reason risk, asked, (_, got), (_, answered)),
        ))

  evaluate_authorised :
      (a : Action) (s : RunState W) {u : Unit {0}}
      → IsAgentCommand a
      → (evaluate_or_request_approval o t a s).0 ≡ ok u
      → Somewhere Authorises (evaluate_or_request_approval o t a s).1.events
  unfolding evaluate_or_request_approval call
  evaluate_authorised a s c h =
      let (d, given, h₁, e₁) = bind-eq-ok (call (o.evaluate t a)) _ s h in
      let (at, _, h₂, e₂) = bind-eq-ok (call o.now_utc) _ _ h₁ in
      let (_, done, h₃, e₃) = bind-eq-ok (record_event o (policy_decision t.id at a d)) _ _ h₂ in
      subst (λ (r : Result (Unit {0}) × RunState W). Somewhere Authorises r.1.events)
        (sym (e₁ ∙ e₂ ∙ e₃))
        (obey_authorised a d _ c h₃ (λ allowed.
          authorised_by_event (policy_decision t.id at a d) _ done
            (decision-Authorises at a d s.world allowed c given)))

  abbrev Guarded : List AuditEvent → Type 0
  Guarded es = GuardedAfter [] es

  abbrev Passed : List AuditEvent → Type 0
  Passed es = GuardedAfter [] es × Somewhere Authorises es

  Guarded-step :
      (e : AuditEvent) (es : List AuditEvent)
      → is_status running e ≡ false
      → Guarded es
      → Guarded (es ++ e ∷ [])
  Guarded-step e es quiet h = Preceded-append _ _ [] es e h (λ r. cc (quiet, r))

  Passed-step : (e : AuditEvent) (es : List AuditEvent) → Passed es → Passed (es ++ e ∷ [])
  Passed-step e es (h, seen) =
      (Preceded-append _ _ [] es e h (λ r. seen), Somewhere-append _ es e seen)

  before_start : KeptBefore o (λ s. Guarded s.events)
  before_start = events_before o Guarded Guarded-step

  after_start_kept : KeptAfter o (λ s. Passed s.events)
  after_start_kept = events_after o Passed Passed-step

  -- What the check of the command leaves for the rest of the run.
  abbrev Checked : Result (Result (Unit {0})) → RunState W → Type 0
  Checked (ok (ok _)) s = Passed s.events
  Checked (ok (err e)) s = Guarded s.events
  Checked (err e) s = Guarded s.events

  Checked-cases :
      (r : Result (Unit {0})) (s : RunState W)
      → Guarded s.events
      → ((u : Unit {0}) → r ≡ ok u → Somewhere Authorises s.events)
      → Checked (ok r) s
  Checked-cases (ok u) s h k = (h, k u refl)
  Checked-cases (err e) s h k = h

  check-Checked :
      (a : Action)
      → IsAgentCommand a
      → Ensures (λ s. Guarded s.events) (attempt (evaluate_or_request_approval o t a)) Checked
  unfolding attempt
  check-Checked a c s h =
      Checked-cases (evaluate_or_request_approval o t a s).0
        (evaluate_or_request_approval o t a s).1
        ((evaluate_or_request_approval-Keeps o _ before_start t a).after s h)
        (λ u e. evaluate_authorised a s c e)

  rest-Guarded :
      (i : AgentInvocation) (a : ArtifactRefs) (r : Result (Unit {0}))
      → Ensures (Checked (ok r)) (after_check o t i a r) (λ _ s. Guarded s.events)
  unfolding after_check
  rest-Guarded i a (ok u) s h = ((after_check-Keeps o _ after_start_kept t i a (ok u)).after s h).0
  rest-Guarded i a (err e) s h = (finish_pre_run_failure-Keeps o _ before_start t a e).after s h

-- In the events of any run, and so also of one that fails, every `Running` status stands after a decision
-- of the policy to allow the command that the agent's adapter has built for the task, or after an approval
-- that was given by the approval engine to a request for that command.
pub run_task-guarded :
    {W : Type 0} (o : Orchestrator W) (t : ResolvedTask) (w : W)
    → GuardedAfter o t [] (run_task o t w).1.events
unfolding run_task after_check
run_task-guarded o t w =
    (run_rule o (λ s. Guarded o t s.events) (before_start o t) t
        (λ i v built a. record {
          after =
              Ensures-bind (λ s. Guarded o t s.events) (Checked o t) (λ _ s. Guarded o t s.events) _
                _ (check-Checked o t _ (i, v, built, refl)) (rest-Guarded o t i a) (λ e s h. h);
        })).after
      (record { world = w; events = [] }) tt
