-- ===== src/Core/Validation.antt =====
-- crates/taskfence-core/src/lib.rs: `validate_task_for_run`, over the adapter, the policy and the runner of
-- an orchestrator.
pub mod Laws
use task_fence.Prelude.{String, Option, [], ◌∷◌}
use task_fence.Std.Format.{format}
use task_fence.Core.Error.{policy}
use task_fence.Core.Task.{ResolvedTask}
use task_fence.Core.Action.{
  command, CommandAction, RiskLevel, low, medium, high, critical, ActionDecision, allow,
  require_approval, deny,
}
use task_fence.Core.Event.{AgentInvocation, TaskValidation}
use task_fence.Core.Effect.{Effect, pure, raise, ◌>>=◌}
use task_fence.Core.Orchestrator.Calls.{Orchestrator, command_action_from_invocation}

-- `{risk:?}`
abbrev debug_risk : RiskLevel → String
debug_risk low = "Low"
debug_risk medium = "Medium"
debug_risk high = "High"
debug_risk critical = "Critical"

unfoldable pub action_decision_summary : ActionDecision → String
action_decision_summary (allow rule reason) = format ("allow: " ∷ reason ∷ [])
action_decision_summary (require_approval kind rule reason risk) =
    format ("requires " ∷ kind ∷ " approval: " ∷ reason ∷ "; risk " ∷ debug_risk risk ∷ [])
action_decision_summary (deny rule reason) = format ("deny: " ∷ reason ∷ [])

module _ {W : Type 0} (o : Orchestrator W) where
  -- From the preparation on.
  unfoldable pub prepare_validated :
      ResolvedTask → AgentInvocation → ActionDecision → Effect W TaskValidation
  prepare_validated task invocation decision = do
    prepared ← o.prepare task
    pure (record {
      task_id = task.id;
      workspace_host_path = task.workspace_host_path;
      invocation = invocation;
      command_action = command_action_from_invocation invocation;
      command_decision = decision;
      prepared = prepared;
    })

  -- The test of the decision.
  unfoldable pub check_decision :
      ResolvedTask → AgentInvocation → ActionDecision → Effect W TaskValidation
  unfolding prepare_validated action_decision_summary
  check_decision task invocation (deny rule reason) = raise (
      policy (
        format
          ("planned agent command rejected: " ∷ action_decision_summary (deny rule reason) ∷ [])))
  check_decision task invocation (allow rule reason) =
      prepare_validated task invocation (allow rule reason)
  check_decision task invocation (require_approval kind rule reason risk) =
      prepare_validated task invocation (require_approval kind rule reason risk)

  unfoldable pub validate_task_for_run : ResolvedTask → Effect W TaskValidation
  unfolding check_decision
  validate_task_for_run task = do
    invocation ← o.build_invocation task
    decision ← o.evaluate task (command (command_action_from_invocation invocation))
    check_decision task invocation decision
