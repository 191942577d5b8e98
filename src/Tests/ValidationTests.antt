-- ===== src/Tests/ValidationTests.antt =====
-- A task that policy asks an approval for is valid.
use task_fence.Prelude.{◌≡◌, refl, false, List, [], none}
use task_fence.Core.Error.{ok}
use task_fence.Core.Action.{command, require_approval, RiskLevel}
use task_fence.Core.Event.{AuditEvent, TaskValidation}
use task_fence.Core.Effect.{pure, proceed, ◌>>=◌}
use task_fence.Core.Orchestrator.Calls.{Orchestrator, command_action_from_invocation}
use task_fence.Core.Validation.{validate_task_for_run, check_decision, prepare_validated}
use task_fence.Core.Validation.Laws.{is_denied, validate_task_for_run-valid}
use task_fence.Tests.Fixture.{task, logging}

abbrev asking : Orchestrator (List AuditEvent)
asking = logging (require_approval "command" none "asked for" RiskLevel.high) none

validated : (v : TaskValidation) × ((validate_task_for_run asking task []).0 ≡ ok v)
unfolding validate_task_for_run check_decision prepare_validated pure proceed ◌>>=◌
validated = (_, refl)

validate_task_for_run-valid_example :
    ((asking.build_invocation task []).0 ≡ ok validated.0.invocation)
    × ((asking.evaluate task
          (command validated.0.command_action)
          (asking.build_invocation task []).1).0
        ≡ ok validated.0.command_decision)
    × (validated.0.command_action ≡ command_action_from_invocation validated.0.invocation)
    × (is_denied validated.0.command_decision ≡ false)
    × (validated.0.task_id ≡ task.id)
validate_task_for_run-valid_example =
    validate_task_for_run-valid asking task [] validated.0 validated.1
