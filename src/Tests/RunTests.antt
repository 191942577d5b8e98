-- ===== src/Tests/RunTests.antt =====
-- Runs of the task that is allowed, of the one that is denied, and of one that nobody approves.
use task_fence.Prelude.{◌≡◌, refl, Bool, false, none, some, List, [], ◌++◌, arith}
use task_fence.Core.Error.{ok}
use task_fence.Core.Task.{succeeded}
use task_fence.Core.Action.{ActionDecision, allow, require_approval, ApprovalDecision, RiskLevel}
use task_fence.Core.Event.{AuditEvent, TaskResult, ExitStatus}
use task_fence.Core.Effect.{pure, ◌>>=◌}
use task_fence.Core.Orchestrator.Calls.{Orchestrator, call, call_with, push_event}
use task_fence.Core.Orchestrator.Checks.{
  record_event, transition, record_run_logs, record_stream, generate_report,
}
use task_fence.Core.Orchestrator.{final_status, run, run_task}
use task_fence.Core.Orchestrator.Log.{IsAuditLog, run_task-logged}
use task_fence.Core.Orchestrator.Authorised.{GuardedAfter, run_task-guarded}
use task_fence.Core.Orchestrator.Denied.{NeverPasses, KeptWithoutStart, run_task-not_started}
use task_fence.Core.Orchestrator.Status.{last_status}
use task_fence.Core.Orchestrator.Outcome.{run_task-last_status}
use task_fence.Core.Orchestrator.Success.{IsClean, run_task-succeeded}
use task_fence.Tests.Fixture.{task, logging, starting}

abbrev asks : ActionDecision
asks = require_approval "command" none "asked for" RiskLevel.high

abbrev allowing : Orchestrator (List AuditEvent)
allowing = logging (allow none "listed") none

-- Policy asks for an approval, and the answer is `denied`.
abbrev refused : Orchestrator Bool
refused = starting asks (some ApprovalDecision.denied)

run_task-guarded_example : GuardedAfter allowing task [] (run_task allowing task []).1.events
run_task-guarded_example = run_task-guarded allowing task []

refused-NeverPasses : NeverPasses refused task
unfolding pure
refused-NeverPasses = record {
  no_allow = λ a w d h. ground (arith, h);
  no_approval = λ id w r h. ground (arith, h);
}

refused-KeptWithoutStart : KeptWithoutStart (λ w. w ≡ false) refused
unfolding pure
refused-KeptWithoutStart = record {
  evaluate = λ t a w p. p;
  request = λ t a d w p. p;
  wait = λ id w p. p;
  record_audit = λ e w p. p;
  create_task_dir = λ t w p. p;
  write_resolved_task = λ t w p. p;
  build_invocation = λ t w p. p;
  generate = λ t a es w p. p;
  set_status = λ id st w p. p;
  now_utc = λ w p. p;
}

run_task-not_started_example : (run_task refused task false).1.world ≡ false
run_task-not_started_example =
    run_task-not_started (λ w. w ≡ false) refused task refused-NeverPasses refused-KeptWithoutStart
      false refl

allowing-IsAuditLog : IsAuditLog (λ w. w) allowing
unfolding pure
allowing-IsAuditLog = record {
  record_audit = λ e w. refl;
  evaluate = λ t a w. refl;
  request = λ t a d w. refl;
  wait = λ id w. refl;
  create_task_dir = λ t w. refl;
  write_resolved_task = λ t w. refl;
  write_log = λ t st text w. refl;
  capture_baseline = λ t w. refl;
  collect_diff = λ t b w. refl;
  build_invocation = λ t w. refl;
  prepare = λ t w. refl;
  start = λ p i w. refl;
  stop = λ r w. refl;
  collect_exit = λ r w. refl;
  generate = λ t a es w. refl;
  set_status = λ id st w. refl;
  now_utc = λ w. refl;
}

run_task-logged_example :
    (run_task allowing task []).1.world ≡ [] ++ (run_task allowing task []).1.events
run_task-logged_example = run_task-logged (λ w. w) allowing task [] allowing-IsAuditLog

run_task_done :
    (result : TaskResult) × ((run_task allowing task []).0 ≡ ok result)
    × (result.status ≡ succeeded)
unfolding run_task run pure ◌>>=◌ transition call record_event push_event record_run_logs
    record_stream generate_report call_with final_status
run_task_done = (_, refl, refl)

run_task-last_status_example :
    last_status (run_task allowing task []).1.events ≡ some run_task_done.0.status
run_task-last_status_example = run_task-last_status allowing task [] run_task_done.0 run_task_done.1

run_task-succeeded_example :
    (run_task_done.0.message ≡ none)
    × ((x : ExitStatus) × (run_task_done.0.exit_status ≡ some x) × IsClean x)
run_task-succeeded_example =
    run_task-succeeded allowing task [] run_task_done.0 run_task_done.1 run_task_done.2
