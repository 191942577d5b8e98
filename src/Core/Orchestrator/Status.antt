-- ===== src/Core/Orchestrator/Status.antt =====
-- The status that a run returns is the last one that it recorded, and success means a clean exit.
use task_fence.Prelude.{String, ◌≡◌, refl, Option, none, some, List, [], ◌∷◌, ◌++◌, arith}
use task_fence.Core.Error.{TaskFenceError, Result, ok, err}
use task_fence.Core.Task.{TaskId, TaskStatus, failed, ResolvedTask}
use task_fence.Core.Event.{
  RunningTask, RunOutput, ExitStatus, ArtifactRefs, WorkspaceBaseline, TaskResult, AuditEvent,
  task_status_changed,
}
use task_fence.Core.Effect.{Keeps, Keeps-bind, Keeps-attempt, Ensures, Ensures-bind, ◌>>=◌, pure}
use task_fence.Core.Orchestrator.Calls.{Orchestrator, RunState, Run}
use task_fence.Core.Orchestrator.Checks.{record_event, transition, record_error, generate_report}
use task_fence.Core.Orchestrator.{
  final_status, close, fail_run, end_run, finish_run, after_exit, after_start,
}
use task_fence.Core.Orchestrator.Events.{
  recorded, call-Events, call_with-Events, record_event-Events, events-record_event,
}

abbrev pub status_of : AuditEvent → Option TaskStatus
status_of (task_status_changed id at status) = some status
status_of _ = none

abbrev pub or_else : Option TaskStatus → Option TaskStatus → Option TaskStatus
or_else none other = other
or_else (some status) other = some status

-- The status of the last event that has one.
abbrev pub last_status : List AuditEvent → Option TaskStatus
last_status [] = none
last_status (e ∷ es) = or_else (last_status es) (status_of e)

pub last_status-append :
    (es : List AuditEvent) (e : AuditEvent)
    → last_status (es ++ e ∷ []) ≡ or_else (status_of e) (last_status es)
last_status-append [] e = ground arith
last_status-append (d ∷ es) e = ground (arith, last_status-append es e)

module _ {W : Type 0} (o : Orchestrator W) (x : Option TaskStatus) where
  abbrev pub IsLast : RunState W → Type 0
  IsLast s = last_status s.events ≡ x

  quiet-IsLast : (e : AuditEvent) → status_of e ≡ none → Keeps IsLast (record_event o e)
  quiet-IsLast e q =
      record_event-Events o (λ es. last_status es ≡ x) e
        (λ es h. ground (arith, last_status-append es e))

  pub record_error-IsLast : (id : TaskId) (m : String) → Keeps IsLast (record_error o id m)
  unfolding record_error
  record_error-IsLast id m =
      Keeps-bind _ _ (call-Events o (λ es. last_status es ≡ x) o.now_utc)
        (λ at. quiet-IsLast _ refl)

  pub generate_report-IsLast :
      (t : ResolvedTask) (a : ArtifactRefs) → Keeps IsLast (generate_report o t a)
  unfolding generate_report
  generate_report-IsLast t a =
      Keeps-bind _ _ (call_with-Events o (λ es. last_status es ≡ x) (o.generate t a)) (λ path.
        Keeps-bind _ _ (call-Events o (λ es. last_status es ≡ x) o.now_utc)
          (λ at. quiet-IsLast _ refl))

-- A task result names the last status among the events; an error says nothing.
abbrev pub Reports : {W : Type 0} → Result TaskResult → RunState W → Type 0
Reports (ok r) s = last_status s.events ≡ some r.status
Reports (err e) s = Unit

module _ {W : Type 0} (o : Orchestrator W) where
  -- After a transition that succeeds its status is the last.
  abbrev pub Arrived : TaskStatus → Result (Unit {0}) → RunState W → Type 0
  Arrived st (ok _) s = last_status s.events ≡ some st
  Arrived st (err e) s = Unit

  Arrived-cases :
      (st : TaskStatus) (e : AuditEvent) (es : List AuditEvent) (r : Result (Unit {0}))
      (s : RunState W)
      → s.events ≡ recorded r es e
      → status_of e ≡ some st
      → Arrived st r s
  Arrived-cases st e es (ok u) s h k = ground (arith, last_status-append es e)
  Arrived-cases st e es (err f) s h k = tt

  arrived :
      (st : TaskStatus) (e : AuditEvent) (s : RunState W)
      → status_of e ≡ some st
      → Arrived st (record_event o e s).0 (record_event o e s).1
  arrived st e s h = Arrived-cases st e s.events _ _ (events-record_event o e s) h

  pub transition-Arrived :
      (id : TaskId) (st : TaskStatus) → Ensures (λ s. Unit {0}) (transition o id st) (Arrived st)
  unfolding transition
  transition-Arrived id st =
      Ensures-bind (λ s. Unit {0}) (λ r s. Unit {0}) (Arrived st) _ _ (λ s h. tt)
        (λ _.
          Ensures-bind (λ s. Unit {0}) (λ r s. Unit {0}) (Arrived st) _ _ (λ s h. tt)
            (λ at s h. arrived st _ s refl) (λ e s h. tt))
        (λ e s h. tt)

  -- Nothing is asked of what comes before the part that reports.
  pub rest-Reports :
      {A : Type 0} (m : Run W A) (f : A → Run W TaskResult)
      → ((a : A) → Ensures (λ s. Unit {0}) (f a) Reports)
      → Ensures (λ s. Unit {0}) (m >>= f) Reports
  rest-Reports m f h =
      Ensures-bind (λ s. Unit {0}) (λ r s. Unit {0}) Reports m f (λ s u. tt) h (λ e s u. tt)

  -- A step that keeps the last status, before the part that reports it.
  pub kept-Reports :
      {A : Type 0} (x : Option TaskStatus) (m : Run W A) (f : A → Run W TaskResult)
      → Keeps (IsLast o x) m
      → ((a : A) → Ensures (IsLast o x) (f a) Reports)
      → Ensures (IsLast o x) (m >>= f) Reports
  kept-Reports x m f k h =
      Ensures-bind (IsLast o x) (λ r s. IsLast o x s) Reports m f k.after h (λ e s u. tt)

  transition-Reports :
      (id : TaskId) (st : TaskStatus) (f : Unit {0} → Run W TaskResult)
      → ((u : Unit {0}) → Ensures (IsLast o (some st)) (f u) Reports)
      → Ensures (λ s. Unit {0}) (transition o id st >>= f) Reports
  transition-Reports id st f h =
      Ensures-bind (λ s. Unit {0}) (Arrived st) Reports _ _ (transition-Arrived id st) h
        (λ e s u. tt)

  pub close-Reports :
      (t : ResolvedTask) (x : Option ExitStatus) (a : ArtifactRefs) (st : TaskStatus)
      (m : Option String) (r : Result (Unit {0}))
      → Ensures (IsLast o (some st)) (close o t x a st m r) Reports
  unfolding close pure
  close-Reports t x a st m (ok u) s h = h
  close-Reports t x a st m (err e) s h =
      rest-Reports _ _ (λ _. transition-Reports t.id failed _ (λ _ s' k. k)) s tt

  fail_run-Reports :
      (t : ResolvedTask) (a : ArtifactRefs) (e : TaskFenceError)
      → Ensures (λ s. Unit {0}) (fail_run o t a e) Reports
  unfolding fail_run pure
  fail_run-Reports t a e = rest-Reports _ _ (λ _. transition-Reports t.id failed _ (λ _.
      kept-Reports (some failed) _ _ (Keeps-attempt _ (generate_report-IsLast o _ t a))
        (λ _ s k. k)))

  end_run-Reports :
      (t : ResolvedTask) (a : ArtifactRefs) (r : RunOutput) (m : Option String)
      → Ensures (λ s. Unit {0}) (end_run o t a r m) Reports
  unfolding end_run
  end_run-Reports t a r m = rest-Reports _ _ (λ _.
      transition-Reports t.id (final_status m r.exit_status) _ (λ _.
        kept-Reports _ _ _ (Keeps-attempt _ (generate_report-IsLast o _ t a)) (λ reported.
          close-Reports t (some r.exit_status) a (final_status m r.exit_status) m reported)))

  finish_run-Reports :
      (t : ResolvedTask) (a : ArtifactRefs) (b : WorkspaceBaseline) (r : RunOutput)
      → Ensures (λ s. Unit {0}) (finish_run o t a b r) Reports
  unfolding finish_run
  finish_run-Reports t a b r = rest-Reports _ _ (λ _. rest-Reports _ _ (λ _. rest-Reports _ _ (λ _.
      rest-Reports _ _
        (λ _. rest-Reports _ _ (λ _. rest-Reports _ _ (λ m. end_run-Reports t a r m))))))

  after_exit-Reports :
      (t : ResolvedTask) (a : ArtifactRefs) (b : WorkspaceBaseline) (g : RunningTask)
      (r : Result RunOutput)
      → Ensures (λ s. Unit {0}) (after_exit o t a b g r) Reports
  unfolding after_exit
  after_exit-Reports t a b g (ok out) = finish_run-Reports t a b out
  after_exit-Reports t a b g (err e) = rest-Reports _ _ (λ _. fail_run-Reports t a e)

  pub after_start-Reports :
      (t : ResolvedTask) (a : ArtifactRefs) (b : WorkspaceBaseline) (r : Result RunningTask)
      → Ensures (λ s. Unit {0}) (after_start o t a b r) Reports
  unfolding after_start
  after_start-Reports t a b (ok g) = rest-Reports _ _ (λ r. after_exit-Reports t a b g r)
  after_start-Reports t a b (err e) = fail_run-Reports t a e
