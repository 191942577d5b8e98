-- ===== src/Gateway/Executor/Finished.antt =====
-- The last audit event of an execution.
use task_fence.Prelude.{◌≡◌, subst, Option, none, some, List, [], ◌∷◌, ◌++◌}
use task_fence.Core.Error.{Result, ok, err}
use task_fence.Core.Task.{ResolvedTask}
use task_fence.Core.Action.{
  OffsetDateTime, ActionDecision, allow, require_approval, deny, ToolAction, BudgetUsage,
  ToolResult, ToolRequest, ToolExecution, ToolExecutionError, ToolExecutionContext, ApprovalRecord,
}
use task_fence.Core.Event.{AuditEvent, tool_execution_finished}
use task_fence.Core.Effect.{Effect, Ensures, Ensures-bind, pure, ◌>>=◌, ◌>>◌}
use task_fence.Gateway.Outcome.{Outcome}
use task_fence.Gateway.Secrets.{GatewaySecretBinding}
use task_fence.Gateway.Mediator.{GatewayMediation}
use task_fence.Gateway.Executor.{
  GatewayExecutor, record_finished, finish_failed, after_execute, after_secrets, after_egress,
  after_budget, after_plan, run_mediated, after_decision, after_mediation, execute_tool_action,
}
use task_fence.Gateway.Executor.Phases.{Appends, appended}

module _ {W : Type 0} (log : W → List AuditEvent) (x : GatewayExecutor W)
    (h : Appends log x.record_audit) (t : ResolvedTask) where
  -- The result is what the last event of the log reports.
  abbrev Ended : Result ToolExecution → W → Type 0
  Ended (ok e) w =
      (es : List AuditEvent) × (at : OffsetDateTime) × (log w
        ≡ es ++ tool_execution_finished t.id at e ∷ [])
  Ended (err f) w = Unit {0}

  abbrev Ends : Effect W ToolExecution → Type 0
  Ends m = Ensures (λ _. Unit {0}) m Ended

  then-Ends :
      {A : Type 0} (m : Effect W A) (f : A → Effect W ToolExecution)
      → ((a : A) → Ends (f a))
      → Ends (m >>= f)
  then-Ends m f k = Ensures-bind _ (λ _ _. Unit {0}) Ended m f (λ w _. tt) k (λ e w _. tt)

  written-Ends :
      (at : OffsetDateTime) (e : ToolExecution)
      → Ends (x.record_audit (tool_execution_finished t.id at e) >> pure e)
  unfolding pure
  written-Ends at e =
      Ensures-bind _ written Ended _ _
        (λ w _. recorded w (x.record_audit event w).0 (x.record_audit event w).1 (h event w))
        (λ u w k. k) (λ f w k. tt)
    where
      event : AuditEvent
      event = tool_execution_finished t.id at e

      written : Result (Unit {0}) → W → Type 0
      written (ok u) w = Ended (ok e) w
      written (err f) w = Unit {0}

      recorded :
          (w : W) (r : Result (Unit {0})) (after : W)
          → log after ≡ appended log r (log w) event
          → written r after
      recorded w (ok u) after g = (log w, at, g)
      recorded w (err f) after g = tt

  record_finished-Ends : (e : ToolExecution) → Ends (record_finished x t e)
  unfolding record_finished
  record_finished-Ends e = then-Ends _ _ (λ at. written-Ends at e)

  finish_failed-Ends : (r : ToolRequest) (e : ToolExecutionError) → Ends (finish_failed x t r e)
  unfolding finish_failed
  finish_failed-Ends r e = record_finished-Ends _

  after_execute-Ends : (r : ToolRequest) (o : Outcome ToolResult) → Ends (after_execute x t r o)
  unfolding after_execute
  after_execute-Ends r (Outcome.ok result) = then-Ends _ _ (λ e. record_finished-Ends _)
  after_execute-Ends r (Outcome.err e) = record_finished-Ends _

  after_secrets-Ends :
      (c : ToolExecutionContext) (a : ToolAction)
      (b : Outcome (ToolAction × List GatewaySecretBinding))
      → Ends (after_secrets x t c a b)
  unfolding after_secrets
  after_secrets-Ends c a (Outcome.err e) = finish_failed-Ends _ e
  after_secrets-Ends c a (Outcome.ok bound) =
      then-Ends _ _ (λ at. then-Ends _ _ (λ _. then-Ends _ _ (λ o. after_execute-Ends _ o)))

  after_egress-Ends :
      (c : ToolExecutionContext) (a : ToolAction) (e : Option ToolExecutionError)
      → Ends (after_egress x t c a e)
  unfolding after_egress
  after_egress-Ends c a (some e) = finish_failed-Ends _ e
  after_egress-Ends c a none = then-Ends _ _ (after_secrets-Ends c a)

  after_budget-Ends :
      (c : ToolExecutionContext) (a : ToolAction) (e : Option ToolExecutionError)
      → Ends (after_budget x t c a e)
  unfolding after_budget
  after_budget-Ends c a (some e) = finish_failed-Ends _ e
  after_budget-Ends c a none = then-Ends _ _ (after_egress-Ends c a)

  after_plan-Ends :
      (c : ToolExecutionContext) (a : ToolAction) (o : Outcome (List BudgetUsage))
      → Ends (after_plan x t c a o)
  unfolding after_plan
  after_plan-Ends c a (Outcome.err e) = finish_failed-Ends _ e
  after_plan-Ends c a (Outcome.ok us) = then-Ends _ _ (after_budget-Ends c a)

  run_mediated-Ends : (c : ToolExecutionContext) (a : ToolAction) → Ends (run_mediated x t c a)
  unfolding run_mediated
  run_mediated-Ends c a = then-Ends _ _ (after_plan-Ends c a)

  after_decision-Ends :
      (c : ToolExecutionContext) (a : ToolAction) (d : ActionDecision) (r : Option ApprovalRecord)
      → Ends (after_decision x t c a d r)
  unfolding after_decision
  after_decision-Ends c a (deny rule reason) r = finish_failed-Ends _ _
  after_decision-Ends c a (require_approval kind rule reason risk) none = finish_failed-Ends _ _
  after_decision-Ends c a (require_approval kind rule reason risk) (some r) = run_mediated-Ends c a
  after_decision-Ends c a (allow rule reason) r = run_mediated-Ends c a

  after_mediation-Ends :
      (c : ToolExecutionContext) (raw : ToolAction) (m : Result GatewayMediation)
      → Ends (after_mediation x t c raw m)
  unfolding after_mediation
  after_mediation-Ends c raw (err e) = finish_failed-Ends _ _
  after_mediation-Ends c raw (ok m) = after_decision-Ends c m.action m.decision m.approval

  execute-Ends :
      (raw : ToolAction) (c : ToolExecutionContext) → Ends (execute_tool_action x t raw c)
  unfolding execute_tool_action
  execute-Ends raw c = then-Ends _ _ (after_mediation-Ends c raw)

  -- An execution that returns, on any branch, has left its outcome as the last event of the audit log,
  -- if the executor's logger appends what it records.
  pub execute_tool_action-finished :
      (raw : ToolAction) (c : ToolExecutionContext) (w : W) (e : ToolExecution)
      → (execute_tool_action x t raw c w).0 ≡ ok e
      → (es : List AuditEvent) × (at : OffsetDateTime) × (log (execute_tool_action x t raw c w).1
          ≡ es ++ tool_execution_finished t.id at e ∷ [])
  execute_tool_action-finished raw c w e r =
      subst (λ q. Ended q (execute_tool_action x t raw c w).1) r (execute-Ends raw c w tt)
