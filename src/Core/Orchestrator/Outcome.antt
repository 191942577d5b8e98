-- ===== src/Core/Orchestrator/Outcome.antt =====
-- The status that a run returns, also where the command was not let through.
use task_fence.Prelude.{
  ◌≡◌, refl, sym, subst, Bool, true, false, ◌||◌, Option, none, some, List, [], ◌∷◌, ◌++◌,
  any-append, arith, eqb,
}
use task_fence.Core.Error.{TaskFenceError, Result, ok, err}
use task_fence.Core.Task.{
  TaskId, TaskStatus, created, validating, preparing, waiting_for_approval, failed, denied,
  ResolvedTask,
}
use task_fence.Core.Action.{Action, ActionDecision, allow, deny, require_approval, ApprovalDecision}
use task_fence.Core.Event.{
  AgentInvocation, ArtifactRefs, TaskResult, AuditEvent, task_status_changed,
}
use task_fence.Core.Effect.{
  Keeps, Keeps-bind, Keeps-attempt, Ensures, Ensures-bind, ◌>>=◌, ◌>>◌, pure, raise, attempt,
}
use task_fence.Core.Orchestrator.Calls.{
  Orchestrator, RunState, Run, index, read_events, is_status, has_status,
}
use task_fence.Core.Orchestrator.Checks.{
  record_event, transition, check_approval, obey, evaluate_or_request_approval,
}
use task_fence.Core.Orchestrator.{
  pre_run_status, finish_pre_run_failure, after_check, run, run_task,
}
use task_fence.Core.Orchestrator.Events.{
  recorded, call-Events, record_event-Events, events-record_event,
}
use task_fence.Core.Orchestrator.Status.{
  status_of, last_status, last_status-append, record_error-IsLast, generate_report-IsLast, Reports,
  Arrived, transition-Arrived, rest-Reports, kept-Reports, close-Reports, after_start-Reports,
}

has_status-append :
    (es : List AuditEvent) (e : AuditEvent) (st : TaskStatus)
    → has_status (es ++ e ∷ []) st ≡ (has_status es st || is_status st e)
unfolding has_status
has_status-append es e st = any-append (is_status st) es e

abbrev NoDenied : List AuditEvent → Type 0
NoDenied es = has_status es denied ≡ false

-- `Denied` is no status of a run but its last.
abbrev DeniedLast : List AuditEvent → Type 0
DeniedLast es = has_status es denied ≡ true → last_status es ≡ some denied

DeniedLast-of_NoDenied : (es : List AuditEvent) → NoDenied es → DeniedLast es
DeniedLast-of_NoDenied es h = ground arith

denied-step :
    (e : AuditEvent) (es : List AuditEvent) → status_of e ≡ some denied → DeniedLast (es ++ e ∷ [])
denied-step e es k h = ground (arith, last_status-append es e)

module _ {W : Type 0} (o : Orchestrator W) where
  quiet-NoDenied :
      (e : AuditEvent)
      → is_status denied e ≡ false
      → Keeps (λ (s : RunState W). NoDenied s.events) (record_event o e)
  quiet-NoDenied e q =
      record_event-Events o NoDenied e (λ es h. ground (arith, has_status-append es e denied))

  transition-NoDenied :
      (id : TaskId) (st : TaskStatus)
      → eqb (index st) (index denied) ≡ false
      → Keeps (λ (s : RunState W). NoDenied s.events) (transition o id st)
  unfolding transition
  transition-NoDenied id st h =
      Keeps-bind _ _ (call-Events o NoDenied (o.set_status id st))
        (λ _. Keeps-bind _ _ (call-Events o NoDenied o.now_utc) (λ at. quiet-NoDenied _ h))

  -- A first step that records no denial, and then steps after which a denial is the last status.
  first-DeniedLast :
      {A B : Type 0} (m : Run W A) (f : A → Run W B)
      → Keeps (λ (s : RunState W). NoDenied s.events) m
      → ((a : A) → Ensures (λ s. NoDenied s.events) (f a) (λ _ s. DeniedLast s.events))
      → Ensures (λ s. NoDenied s.events) (m >>= f) (λ _ s. DeniedLast s.events)
  first-DeniedLast m f k h =
      Ensures-bind (λ s. NoDenied s.events) (λ _ s. NoDenied s.events) (λ _ s. DeniedLast s.events)
        m f k.after h (λ e s n. DeniedLast-of_NoDenied s.events n)

  recorded-DeniedLast :
      (r : Result (Unit {0})) (es : List AuditEvent) (e : AuditEvent)
      → status_of e ≡ some denied
      → NoDenied es
      → DeniedLast (recorded r es e)
  recorded-DeniedLast (ok u) es e k n = denied-step e es k
  recorded-DeniedLast (err f) es e k n = DeniedLast-of_NoDenied es n

  deny-DeniedLast :
      (id : TaskId) (e : TaskFenceError)
      → Ensures
          (λ s. NoDenied s.events)
          (transition o id denied >> raise {A = Unit {0}} e)
          (λ _ s. DeniedLast s.events)
  unfolding transition raise
  deny-DeniedLast id e =
      Ensures-bind (λ s. NoDenied s.events) (λ _ s. DeniedLast s.events)
        (λ _ s. DeniedLast s.events) _ _
        (first-DeniedLast _ _ (call-Events o NoDenied (o.set_status id denied)) (λ _.
          first-DeniedLast _ _ (call-Events o NoDenied o.now_utc) (λ at s n.
            subst DeniedLast (sym (events-record_event o (task_status_changed id at denied) s))
              (recorded-DeniedLast _ s.events _ refl n))))
        (λ _ s d. d) (λ _ s d. d)

  check_approval-DeniedLast :
      (id : TaskId) (d : Option ApprovalDecision)
      → Ensures (λ s. NoDenied s.events) (check_approval o id d) (λ _ s. DeniedLast s.events)
  unfolding check_approval pure
  check_approval-DeniedLast id (some ApprovalDecision.approved) =
      λ s n. DeniedLast-of_NoDenied s.events n
  check_approval-DeniedLast id (some ApprovalDecision.denied) = deny-DeniedLast id _
  check_approval-DeniedLast id (some ApprovalDecision.timed_out) = deny-DeniedLast id _
  check_approval-DeniedLast id none = deny-DeniedLast id _

  obey-DeniedLast :
      (t : ResolvedTask) (a : Action) (d : ActionDecision)
      → Ensures (λ s. NoDenied s.events) (obey o t a d) (λ _ s. DeniedLast s.events)
  unfolding obey pure
  obey-DeniedLast t a (allow rule reason) = λ s n. DeniedLast-of_NoDenied s.events n
  obey-DeniedLast t a (deny rule reason) = deny-DeniedLast t.id _
  obey-DeniedLast t a (require_approval kind rule reason risk) =
      first-DeniedLast _ _ (transition-NoDenied t.id waiting_for_approval refl) (λ _.
        first-DeniedLast _ _ (call-Events o NoDenied _) (λ asked.
          first-DeniedLast _ _ (quiet-NoDenied _ refl) (λ _.
            first-DeniedLast _ _ (call-Events o NoDenied (o.wait asked.id)) (λ answer.
              first-DeniedLast _ _ (quiet-NoDenied _ refl)
                (λ _. check_approval-DeniedLast t.id answer.decision)))))

  evaluate-DeniedLast :
      (t : ResolvedTask) (a : Action)
      → Ensures
          (λ s. NoDenied s.events)
          (evaluate_or_request_approval o t a)
          (λ _ s. DeniedLast s.events)
  unfolding evaluate_or_request_approval
  evaluate-DeniedLast t a = first-DeniedLast _ _ (call-Events o NoDenied (o.evaluate t a)) (λ d.
      first-DeniedLast _ _ (call-Events o NoDenied o.now_utc)
        (λ at. first-DeniedLast _ _ (quiet-NoDenied _ refl) (λ _. obey-DeniedLast t a d)))

  abbrev Settled : Result TaskStatus → RunState W → Type 0
  Settled (ok st) s = last_status s.events ≡ some st
  Settled (err e) s = Unit

  pre_run-Settled :
      (id : TaskId) (b : Bool) (s : RunState W)
      → (b ≡ true → last_status s.events ≡ some denied)
      → Settled (pre_run_status o id b s).0 (pre_run_status o id b s).1
  unfolding pre_run_status pure
  pre_run-Settled id true s h = h refl
  pre_run-Settled id false s h =
      Ensures-bind (λ s. Unit {0}) (Arrived o failed) Settled _ _ (transition-Arrived o id failed)
        (λ _ s' k. k) (λ e s' k. tt) s tt

  finish_pre_run_failure-Reports :
      (t : ResolvedTask) (a : ArtifactRefs) (e : TaskFenceError)
      → Ensures (λ s. DeniedLast s.events) (finish_pre_run_failure o t a e) Reports
  unfolding finish_pre_run_failure read_events
  finish_pre_run_failure-Reports t a e =
      Ensures-bind (λ s. DeniedLast s.events) Noted Reports _ _ (λ s d. (refl, d))
        (λ events.
          Ensures-bind (Noted (ok events)) Settled Reports _ _
            (λ s n.
              pre_run-Settled t.id (has_status events denied) s
                (λ h. n.1 (subst (λ es. has_status es denied ≡ true) n.0 h)))
            (λ st. kept-Reports o _ _ _ (record_error-IsLast o _ t.id _) (λ _.
              kept-Reports o _ _ _ (Keeps-attempt _ (generate_report-IsLast o _ t a))
                (λ r. close-Reports o t none a st _ r)))
            (λ _ s k. tt))
        (λ _ s k. tt)
    where
      Noted : Result (List AuditEvent) → RunState W → Type 0
      Noted (ok events) s = (events ≡ s.events) × DeniedLast s.events
      Noted (err e) s = Unit

  -- What the check of the command leaves for the rest of the run.
  abbrev Examined : Result (Result (Unit {0})) → RunState W → Type 0
  Examined (ok r) s = DeniedLast s.events
  Examined (err e) s = Unit

  after_check-Reports :
      (t : ResolvedTask) (i : AgentInvocation) (a : ArtifactRefs) (r : Result (Unit {0}))
      → Ensures (λ s. DeniedLast s.events) (after_check o t i a r) Reports
  unfolding after_check
  after_check-Reports t i a (err e) = finish_pre_run_failure-Reports t a e
  after_check-Reports t i a (ok u) = λ s d.
      rest-Reports o _ _
        (λ b.
          rest-Reports o _ _ (λ p.
            rest-Reports o _ _ (λ _. rest-Reports o _ _ (λ r. after_start-Reports o t a b r))))
        s tt

  -- A step that records no denial, before the check.
  early-Reports :
      {A : Type 0} (m : Run W A) (f : A → Run W TaskResult)
      → Keeps (λ (s : RunState W). NoDenied s.events) m
      → ((a : A) → Ensures (λ s. NoDenied s.events) (f a) Reports)
      → Ensures (λ s. NoDenied s.events) (m >>= f) Reports
  early-Reports m f k h =
      Ensures-bind (λ s. NoDenied s.events) (λ _ s. NoDenied s.events) Reports m f k.after h
        (λ e s n. tt)

  check-Examined :
      (t : ResolvedTask) (a : Action)
      → Ensures (λ s. NoDenied s.events) (attempt (evaluate_or_request_approval o t a)) Examined
  unfolding attempt
  check-Examined t a s n = evaluate-DeniedLast t a s n

  run-Reports : (t : ResolvedTask) → Ensures (λ s. NoDenied s.events) (run o t) Reports
  unfolding run
  run-Reports t = early-Reports _ _ (transition-NoDenied t.id created refl) (λ _.
      early-Reports _ _ (call-Events o NoDenied o.now_utc) (λ at.
        early-Reports _ _ (quiet-NoDenied _ refl) (λ _.
          early-Reports _ _ (transition-NoDenied t.id validating refl) (λ _.
            early-Reports _ _ (call-Events o NoDenied (o.build_invocation t)) (λ i.
              early-Reports _ _ (transition-NoDenied t.id preparing refl) (λ _.
                early-Reports _ _ (call-Events o NoDenied (o.create_task_dir t)) (λ a.
                  early-Reports _ _ (call-Events o NoDenied (o.write_resolved_task t)) (λ _.
                    Ensures-bind (λ s. NoDenied s.events) Examined Reports _ _ (check-Examined t _)
                      (λ r. after_check-Reports t i a r) (λ e s n. tt)))))))))

  reported :
      (r : Result TaskResult) (s : RunState W) (result : TaskResult)
      → Reports r s
      → r ≡ ok result
      → last_status s.events ≡ some result.status
  reported (ok r) s result h e = ground arith
  reported (err f) s result h e = cc

  -- The status of the result of a run is the last status among the run's events.
  pub run_task-last_status :
      (t : ResolvedTask) (w : W) (result : TaskResult)
      → (run_task o t w).0 ≡ ok result
      → last_status (run_task o t w).1.events ≡ some result.status
  unfolding run_task has_status
  run_task-last_status t w result h = reported _ _ result (run-Reports t _ refl) h
