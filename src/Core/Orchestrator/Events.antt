-- ===== src/Core/Orchestrator/Events.antt =====
-- Invariants of the events of a run: calls into the world leave the events alone.
use task_fence.Prelude.{◌≡◌, refl, false, List, [], ◌∷◌, ◌++◌, arith, subst, sym}
use task_fence.Core.Error.{Result, ok, err}
use task_fence.Core.Task.{running}
use task_fence.Core.Event.{AuditEvent}
use task_fence.Core.Effect.{Effect, Keeps, ◌>>=◌}
use task_fence.Core.Orchestrator.Calls.{
  Orchestrator, RunState, call, call_with, push_event, is_status,
}
use task_fence.Core.Orchestrator.Checks.{record_event}
use task_fence.Core.Orchestrator.Keeps.{KeptBefore, KeptAfter}

-- The events after `record_event`: one more where it succeeds, and the same where it fails.
abbrev pub recorded : Result (Unit {0}) → List AuditEvent → AuditEvent → List AuditEvent
recorded (ok _) es e = es ++ e ∷ []
recorded (err _) es e = es

module _ {W : Type 0} where
  pub events-call : {A : Type 0} (m : Effect W A) (s : RunState W) → (call m s).1.events ≡ s.events
  unfolding call
  events-call m s = refl

  pub events-call_with :
      {A : Type 0} (m : List AuditEvent → Effect W A) (s : RunState W)
      → (call_with m s).1.events ≡ s.events
  unfolding call_with
  events-call_with m s = refl

  pub events-record_event :
      (o : Orchestrator W) (e : AuditEvent) (s : RunState W)
      → (record_event o e s).1.events ≡ recorded (record_event o e s).0 s.events e
  unfolding record_event call push_event ◌>>=◌
  events-record_event o e s = ground arith

module _ {W : Type 0} (o : Orchestrator W) (P : List AuditEvent → Type 0) where
  pub call-Events : {A : Type 0} (m : Effect W A) → Keeps (λ (s : RunState W). P s.events) (call m)
  unfolding call
  call-Events m = record { after = λ s h. h }

  pub call_with-Events :
      {A : Type 0} (m : List AuditEvent → Effect W A)
      → Keeps (λ (s : RunState W). P s.events) (call_with m)
  unfolding call_with
  call_with-Events m = record { after = λ s h. h }

  recorded-Events :
      (r : Result (Unit {0})) (es : List AuditEvent) (e : AuditEvent)
      → P (es ++ e ∷ [])
      → P es
      → P (recorded r es e)
  recorded-Events (ok _) es e h k = h
  recorded-Events (err _) es e h k = k

  pub record_event-Events :
      (e : AuditEvent)
      → ((es : List AuditEvent) → P es → P (es ++ e ∷ []))
      → Keeps (λ (s : RunState W). P s.events) (record_event o e)
  record_event-Events e step = record {
    after = λ s h.
        subst P (sym (events-record_event o e s))
          (recorded-Events (record_event o e s).0 s.events e (step s.events h) h);
  }

  -- What every event but a `Running` status keeps is kept before the start of the agent.
  pub events_before :
      ((e : AuditEvent) (es : List AuditEvent)
        → is_status running e ≡ false
        → P es
        → P (es ++ e ∷ []))
      → KeptBefore o (λ s. P s.events)
  events_before step = record {
    evaluate = λ t a. call-Events (o.evaluate t a);
    request = λ t a d. call-Events (o.request t a d);
    wait = λ id. call-Events (o.wait id);
    create_task_dir = λ t. call-Events (o.create_task_dir t);
    write_resolved_task = λ t. call-Events (o.write_resolved_task t);
    build_invocation = λ t. call-Events (o.build_invocation t);
    generate = λ t a. call_with-Events (o.generate t a);
    set_status = λ id st. call-Events (o.set_status id st);
    now_utc = call-Events o.now_utc;
    record_event = λ e quiet. record_event-Events e (λ es h. step e es quiet h);
  }

  -- What every event keeps is kept by the rest of a run too.
  pub events_after :
      ((e : AuditEvent) (es : List AuditEvent) → P es → P (es ++ e ∷ []))
      → KeptAfter o (λ s. P s.events)
  events_after step = record {
    before = events_before (λ e es _ h. step e es h);
    write_log = λ t st text. call-Events (o.write_log t st text);
    capture_baseline = λ t. call-Events (o.capture_baseline t);
    collect_diff = λ t b. call-Events (o.collect_diff t b);
    prepare = λ t. call-Events (o.prepare t);
    start = λ p i. call-Events (o.start p i);
    stop = λ r. call-Events (o.stop r);
    collect_exit = λ r. call-Events (o.collect_exit r);
    record_running = λ e _. record_event-Events e (λ es h. step e es h);
  }
