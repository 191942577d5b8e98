-- ===== src/Gateway/Executor.antt =====
-- crates/taskfence-gateway/src/lib.rs: `GatewayExecutor`, over any mediator, audit logger, adapter and
-- secret broker. `execute_tool_action` is cut at its early returns.
pub mod Phases
pub mod Mediated
pub mod Authorised
pub mod Guarded
pub mod Started
pub mod Finished
pub mod Refused
use task_fence.Prelude.{String, Bool, true, false, Option, none, some, List, [], ◌∷◌, if◌then◌else◌}
use task_fence.Core.Error.{TaskFenceError, Result, to_string}
use task_fence.Core.Error
use task_fence.Core.Task.{ResolvedTask, GatewaySecretReferenceConfig}
use task_fence.Core.Action.{
  ToolAction, Action, network, budget, ActionDecision, allow, require_approval, deny, BudgetUsage,
  BudgetUsageRecord, ToolAdapterIdentity, ToolRequest, ToolExecutionContext, ToolResult,
  ToolExecutionError, policy_denied, approval_denied_or_timed_out, budget_exceeded,
  secret_unavailable, ToolExecution, ApprovalRecord,
}
use task_fence.Core.Event.{
  AuditEvent, policy_decision, tool_execution_started, tool_execution_finished,
  budget_usage_recorded,
}
use task_fence.Core.Effect.{Effect, pure, lift, attempt, ◌>>=◌, ◌>>◌}
use task_fence.Core.Budget.{normalized, budget_limit_for}
use task_fence.Gateway.Outcome.{Outcome, ok, err, tool_execution_error_from_taskfence, to_outcome}
use task_fence.Gateway.Secrets.{SecretBroker, GatewaySecretBinding, attach_references}
use task_fence.Gateway.Egress.{
  GatewayEgressDestination, is_gateway_egress_action, gateway_egress_destination,
}
use task_fence.Gateway.Mediator.{
  GatewayMediator, GatewayMediation, ApprovalEngine, request_approval_of, mediate_tool_action,
}

-- A `ToolAdapter`. Its methods change the world and give a value or a `ToolExecutionError`.
pub record ToolAdapter (W : Type 0) : Type 0 where
  pub identity : ToolAdapterIdentity
  pub secret_references : List GatewaySecretReferenceConfig
  pub planned_budget_usage :
      ResolvedTask → ToolAction → ToolExecutionContext → W → Outcome (List BudgetUsage) × W
  pub execute_with_secrets :
      ResolvedTask
      → ToolAction
      → ToolExecutionContext
      → List GatewaySecretBinding
      → W
      → Outcome ToolResult × W

pub record GatewayExecutor (W : Type 0) : Type 0 where
  pub mediator : GatewayMediator W
  pub record_audit : AuditEvent → Effect W (Unit {0})
  pub adapter : ToolAdapter W
  pub secret_broker : Option (SecretBroker W)

-- A call of the adapter.
unfoldable pub adapter_call : {W A : Type 0} → (W → Outcome A × W) → Effect W (Outcome A)
adapter_call m w = (Result.ok (m w).0, (m w).1)

-- `denial.get_or_insert(…)` where the usage is denied.
abbrev pub keep_denial : Option ToolExecutionError → ActionDecision → Option ToolExecutionError
keep_denial (some earlier) decision = some earlier
keep_denial none (deny rule reason) = some (record { kind = budget_exceeded; message = reason })
keep_denial none (allow rule reason) = none
keep_denial none (require_approval kind rule reason risk) = none

module _ {W : Type 0} (x : GatewayExecutor W) where
  abbrev pub request : ToolAction → ToolRequest
  request action = record { action = action; adapter = some x.adapter.identity }

  unfoldable pub record_finished : ResolvedTask → ToolExecution → Effect W ToolExecution
  record_finished task execution = do
    at ← x.mediator.now_utc
    x.record_audit (tool_execution_finished task.id at execution)
    pure execution

  -- An early return.
  unfoldable pub finish_failed :
      ResolvedTask → ToolRequest → ToolExecutionError → Effect W ToolExecution
  unfolding record_finished
  finish_failed task r e =
      record_finished task (record { request = r; result = none; error = some e })

  -- One round of the loop of `record_budget_usages`, from the normalized usage on.
  unfoldable pub record_usage : ResolvedTask → BudgetUsage → Effect W ActionDecision
  record_usage task usage = do
    decision ← x.mediator.evaluate task (budget usage.kind usage.amount)
    at ← x.mediator.now_utc
    x.record_audit (policy_decision task.id at (budget usage.kind usage.amount) decision)
    recorded_at ← x.mediator.now_utc
    x.record_audit (
        budget_usage_recorded task.id recorded_at
          (record { usage = usage; limit = budget_limit_for task usage.kind; decision = decision }))
    pure decision

  -- The match on `usage.normalized()`, which ends the loop on an error.
  abbrev pub with_normal :
      (BudgetUsage → Effect W (Option ToolExecutionError))
      → Result BudgetUsage
      → Effect W (Option ToolExecutionError)
  with_normal rest (Result.ok usage) = rest usage
  with_normal rest (Result.err e) =
      pure (some (record { kind = budget_exceeded; message = to_string e }))

  -- The loop, with the denial so far.
  unfoldable pub record_usages :
      ResolvedTask
      → Option ToolExecutionError
      → List BudgetUsage
      → Effect W (Option ToolExecutionError)
  unfolding record_usage
  record_usages task denial [] = pure denial
  record_usages task denial (usage ∷ usages) =
      with_normal
        (λ normal. record_usage task normal >>= λ decision.
          record_usages task (keep_denial denial decision) usages)
        (normalized usage)

  unfoldable pub record_budget_usages :
      ResolvedTask → List BudgetUsage → Effect W (Option ToolExecutionError)
  unfolding record_usages
  record_budget_usages task usages = record_usages task none usages

  -- `Ok(_) => Ok(None)`, `Err(err) => Ok(Some(…))`
  abbrev pub refusal : {A : Type 0} → Result A → Option ToolExecutionError
  refusal (Result.ok a) = none
  refusal (Result.err e) = some (tool_execution_error_from_taskfence e)

  -- The match on `self.mediator.approval` under `RequireApproval`.
  unfoldable pub approve_egress :
      Option (ApprovalEngine W)
      → ResolvedTask
      → Action
      → ActionDecision
      → Effect W (Option ToolExecutionError)
  approve_egress none task wrapped decision = pure (
      some (record {
        kind = approval_denied_or_timed_out;
        message = "gateway egress approval engine is not configured";
      }))
  approve_egress (some engine) task wrapped decision = do
    resolved ← attempt (request_approval_of x.mediator engine task wrapped decision)
    pure (refusal resolved)

  -- The match on the decision on the destination.
  unfoldable pub obey_egress :
      ResolvedTask → Action → ActionDecision → Effect W (Option ToolExecutionError)
  unfolding approve_egress
  obey_egress task wrapped (allow rule reason) = pure none
  obey_egress task wrapped (deny rule reason) =
      pure (some (record { kind = policy_denied; message = reason }))
  obey_egress task wrapped (require_approval kind rule reason risk) =
      approve_egress x.mediator.approval task wrapped (require_approval kind rule reason risk)

  unfoldable pub check_destination :
      ResolvedTask → Outcome GatewayEgressDestination → Effect W (Option ToolExecutionError)
  unfolding obey_egress
  check_destination task (err e) = pure (some e)
  check_destination task (ok destination) = do
    decision ← x.mediator.evaluate task (network destination.host destination.port)
    at ← x.mediator.now_utc
    x.record_audit (policy_decision task.id at (network destination.host destination.port) decision)
    obey_egress task (network destination.host destination.port) decision

  unfoldable pub enforce_gateway_egress_policy :
      ResolvedTask → ToolAction → Effect W (Option ToolExecutionError)
  unfolding check_destination
  enforce_gateway_egress_policy task action =
      if is_gateway_egress_action action
      then check_destination task (gateway_egress_destination action)
      else pure none

  -- The match on `self.secret_broker`.
  unfoldable pub bind_with :
      Option (SecretBroker W)
      → ResolvedTask
      → ToolAction
      → Effect W (Outcome (ToolAction × List GatewaySecretBinding))
  bind_with none task action = pure (
      err (record {
        kind = secret_unavailable;
        message = "gateway secret reference broker is not configured";
      }))
  bind_with (some broker) task action = do
    bound ← attempt (attach_references task broker action [] x.adapter.secret_references)
    pure (to_outcome bound)

  -- The action of the request, with the references in place of its secrets.
  unfoldable pub attach_configured_secret_references :
      List GatewaySecretReferenceConfig
      → ResolvedTask
      → ToolAction
      → Effect W (Outcome (ToolAction × List GatewaySecretBinding))
  unfolding bind_with
  attach_configured_secret_references [] task action = pure (ok (action, []))
  attach_configured_secret_references (_ ∷ _) task action = bind_with x.secret_broker task action

  -- The match on what the adapter gives.
  unfoldable pub after_execute :
      ResolvedTask → ToolRequest → Outcome ToolResult → Effect W ToolExecution
  unfolding record_finished record_budget_usages
  after_execute task r (ok result) = do
    budget_error ← record_budget_usages task result.usage
    record_finished task (record { request = r; result = some result; error = budget_error })
  after_execute task r (err e) =
      record_finished task (record { request = r; result = none; error = some e })

  unfoldable pub after_secrets :
      ResolvedTask
      → ToolExecutionContext
      → ToolAction
      → Outcome (ToolAction × List GatewaySecretBinding)
      → Effect W ToolExecution
  unfolding finish_failed after_execute
  after_secrets task context action (err e) = finish_failed task (request action) e
  after_secrets task context action (ok bound) = do
    at ← x.mediator.now_utc
    x.record_audit (tool_execution_started task.id at (request bound.0))
    executed ← adapter_call (x.adapter.execute_with_secrets task bound.0 context bound.1)
    after_execute task (request bound.0) executed

  unfoldable pub after_egress :
      ResolvedTask
      → ToolExecutionContext
      → ToolAction
      → Option ToolExecutionError
      → Effect W ToolExecution
  unfolding finish_failed after_secrets
  after_egress task context action (some e) = finish_failed task (request action) e
  after_egress task context action none = do
    bound ← attach_configured_secret_references x.adapter.secret_references task action
    after_secrets task context action bound

  unfoldable pub after_budget :
      ResolvedTask
      → ToolExecutionContext
      → ToolAction
      → Option ToolExecutionError
      → Effect W ToolExecution
  unfolding finish_failed after_egress
  after_budget task context action (some e) = finish_failed task (request action) e
  after_budget task context action none = do
    refused ← enforce_gateway_egress_policy task action
    after_egress task context action refused

  unfoldable pub after_plan :
      ResolvedTask
      → ToolExecutionContext
      → ToolAction
      → Outcome (List BudgetUsage)
      → Effect W ToolExecution
  unfolding finish_failed after_budget
  after_plan task context action (err e) = finish_failed task (request action) e
  after_plan task context action (ok usages) = do
    denial ← record_budget_usages task usages
    after_budget task context action denial

  unfoldable pub run_mediated :
      ResolvedTask → ToolExecutionContext → ToolAction → Effect W ToolExecution
  unfolding after_plan
  run_mediated task context action = do
    planned ← adapter_call (x.adapter.planned_budget_usage task action context)
    after_plan task context action planned

  -- The match on the decision of the mediation and its approval.
  unfoldable pub after_decision :
      ResolvedTask
      → ToolExecutionContext
      → ToolAction
      → ActionDecision
      → Option ApprovalRecord
      → Effect W ToolExecution
  unfolding run_mediated finish_failed
  after_decision task context action (deny rule reason) resolved =
      finish_failed task (request action) (record { kind = policy_denied; message = reason })
  after_decision task context action (require_approval kind rule reason risk) none =
      finish_failed task (request action) (record {
        kind = approval_denied_or_timed_out;
        message = "gateway approval engine is not configured";
      })
  after_decision task context action (require_approval kind rule reason risk) (some resolved) =
      run_mediated task context action
  after_decision task context action (allow rule reason) resolved = run_mediated task context action

  unfoldable pub after_mediation :
      ResolvedTask
      → ToolExecutionContext
      → ToolAction
      → Result GatewayMediation
      → Effect W ToolExecution
  unfolding finish_failed after_decision
  after_mediation task context raw (Result.err e) =
      finish_failed task (request raw) (tool_execution_error_from_taskfence e)
  after_mediation task context raw (Result.ok mediation) =
      after_decision task context mediation.action mediation.decision mediation.approval

  unfoldable pub execute_tool_action :
      ResolvedTask → ToolAction → ToolExecutionContext → Effect W ToolExecution
  unfolding after_mediation
  execute_tool_action task raw context = do
    mediated ← attempt (mediate_tool_action x.mediator task raw)
    after_mediation task context raw mediated
