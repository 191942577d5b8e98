-- ===== src/Gateway/Executor/Started.antt =====
-- The log of a whole execution.
use task_fence.Prelude.{
  AllSome, ◌≡◌, ◌≢◌, refl, sym, ◌∙◌, Option, none, some, List, [], ◌∷◌, ◌++◌, Preceded,
}
use mathlib.Core.List.{append-nil}
use task_fence.Core.Error.{Result, ok, err}
use task_fence.Core.Task.{ResolvedTask, GatewaySecretReferenceConfig}
use task_fence.Core.Action.{
  ActionDecision, allow, require_approval, deny, ToolAction, BudgetUsage, ToolRequest, ToolResult,
  ToolExecution, ToolExecutionError, ToolExecutionContext, ApprovalRecord,
}
use task_fence.Core.Event.{AuditEvent, tool_execution_started}
use task_fence.Core.Effect.{Effect, Keeps, Keeps-bind, Keeps-lift, Keeps-pure, pure, attempt, ◌>>=◌}
use task_fence.Gateway.Outcome.{Outcome}
use task_fence.Gateway.Secrets.{
  SecretBroker, GatewaySecretBinding, attach_references, gateway_secret_reference,
}
use task_fence.Gateway.Mediator.{GatewayMediation}
use task_fence.Gateway.Executor.{
  GatewayExecutor, request, bind_with, attach_configured_secret_references, finish_failed,
  after_execute, after_secrets, after_egress, after_budget, after_plan, run_mediated,
  after_decision, after_mediation, execute_tool_action,
}
use task_fence.Gateway.Executor.Phases.{
  cleared, fresh, violated, phase, Silent, IsGatewayLog, At, Safe, Leads, OnResult, Leads-bind,
  record-At, IsStart,
}
use task_fence.Gateway.Normalize.{normalize_tool_action}
use task_fence.Gateway.Executor.Mediated.{Decided, MayClear, mediate-Leads}
use task_fence.Gateway.Executor.Authorised.{Authorises, normal-MayClear}
use task_fence.Gateway.Executor.Guarded.{
  Clear, Kept, Left, relax, silent-Clear, record_finished-Leads, finish_failed-Leads,
  budget_usages-Left, relax-Left, attempt-Leads, enforce-Left,
}

module _ {W : Type 0} (log : W → List AuditEvent) where
  abbrev SilentBroker : SecretBroker W → Type 0
  SilentBroker b = (t : ResolvedTask) (name scope : _) → Silent log (b t name scope)

  attach_references-Keeps :
      (l : List AuditEvent) (t : ResolvedTask) (broker : SecretBroker W) (a : ToolAction)
      (bs : List GatewaySecretBinding) (refs : List GatewaySecretReferenceConfig)
      → SilentBroker broker
      → Keeps (λ w. log w ≡ l) (attach_references t broker a bs refs)
  unfolding attach_references gateway_secret_reference
  attach_references-Keeps l t broker a bs [] s = Keeps-pure _
  attach_references-Keeps l t broker a bs (r ∷ rs) s =
      Keeps-bind _ _
        (Keeps-bind _ _ (Keeps-lift _) (λ name. Keeps-bind _ _ (Keeps-lift _) (λ scope.
          Keeps-bind _ _ (Keeps-lift _) (λ _. record { after = λ w e. s t name scope w ∙ e }))))
        (λ reference.
          Keeps-bind _ _ (Keeps-lift _) (λ bound. attach_references-Keeps l t broker bound _ rs s))

  bind_with-Silent :
      (x : GatewayExecutor W) (broker : Option (SecretBroker W)) (t : ResolvedTask) (a : ToolAction)
      → AllSome SilentBroker broker
      → Silent log (bind_with x broker t a)
  unfolding bind_with attempt pure ◌>>=◌
  bind_with-Silent x none t a s w = refl
  bind_with-Silent x (some broker) t a s w =
      (attach_references-Keeps (log w) t broker a [] x.adapter.secret_references s).after w refl

  attach-Silent :
      (x : GatewayExecutor W) (refs : List GatewaySecretReferenceConfig) (t : ResolvedTask)
      (a : ToolAction)
      → AllSome SilentBroker x.secret_broker
      → Silent log (attach_configured_secret_references x refs t a)
  unfolding attach_configured_secret_references pure
  attach-Silent x [] t a s w = refl
  attach-Silent x (_ ∷ _) t a s w = bind_with-Silent x x.secret_broker t a s w

module _ {W : Type 0} (log : W → List AuditEvent) (x : GatewayExecutor W) (h : IsGatewayLog log x)
    (auth : AuditEvent → Type 0) (before : List AuditEvent) where
  Ends : Effect W ToolExecution → (W → Type 0) → Type 0
  Ends m P = Leads log auth before P m (λ _. Kept log x h auth before)

  after_execute-Leads :
      (t : ResolvedTask) (r : ToolRequest) (o : Outcome ToolResult)
      → Leads log auth before
          (Clear log x h auth before)
          (after_execute x t r o)
          (λ _. Kept log x h auth before)
  unfolding after_execute
  after_execute-Leads t r (Outcome.ok result) =
      Leads-bind log auth before _ (Left log x h auth before) _ _ _
        (budget_usages-Left log x h auth before t result.usage)
        (λ e w l.
          record_finished-Leads log x h auth before t _ w (relax-Left log x h auth before e w l))
  after_execute-Leads t r (Outcome.err e) =
      λ w c. record_finished-Leads log x h auth before t _ w (relax log x h auth before w c)

  failed-Leads :
      (t : ResolvedTask) (a : ToolAction) (e : ToolExecutionError)
      → Leads log auth before
          (Clear log x h auth before)
          (finish_failed x t (request x a) e)
          (λ _. Kept log x h auth before)
  failed-Leads t a e =
      λ w c. finish_failed-Leads log x h auth before t _ e w (relax log x h auth before w c)

  after_secrets-Leads :
      (t : ResolvedTask) (c : ToolExecutionContext) (a : ToolAction)
      (b : Outcome (ToolAction × List GatewaySecretBinding))
      → Leads log auth before
          (Clear log x h auth before)
          (after_secrets x t c a b)
          (λ _. Kept log x h auth before)
  unfolding after_secrets
  after_secrets-Leads t c a (Outcome.err e) = failed-Leads t a e
  after_secrets-Leads t c a (Outcome.ok bound) =
      Leads-bind log auth before _ (λ _. Clear log x h auth before) _ _ _
        (silent-Clear log x h auth before _ h.now_utc)
        (λ at.
          Leads-bind log auth before _ (λ _. Clear log x h auth before) _ _ _
            (record-At log auth before cleared _
              (tool_execution_started t.id at (request x bound.0)) (λ k. cc k) h.executor_audit
              (λ f _. cc f))
            (λ _.
              Leads-bind log auth before _ (λ _. Clear log x h auth before) _ _ _
                (silent-Clear log x h auth before _ (h.execute t bound.0 c bound.1))
                (λ o. after_execute-Leads t (request x bound.0) o)))

  after_egress-Leads :
      (t : ResolvedTask) (c : ToolExecutionContext) (a : ToolAction) (e : Option ToolExecutionError)
      → Leads log auth before
          (Left log x h auth before e)
          (after_egress x t c a e)
          (λ _. Kept log x h auth before)
  unfolding after_egress
  after_egress-Leads t c a (some e) = finish_failed-Leads log x h auth before t _ e
  after_egress-Leads t c a none =
      Leads-bind log auth before _ (λ _. Clear log x h auth before) _ _ _
        (silent-Clear log x h auth before _
          (attach-Silent log x x.adapter.secret_references t a h.broker))
        (λ b. after_secrets-Leads t c a b)

  after_budget-Leads :
      (t : ResolvedTask) (c : ToolExecutionContext) (a : ToolAction) (e : Option ToolExecutionError)
      → Leads log auth before
          (Left log x h auth before e)
          (after_budget x t c a e)
          (λ _. Kept log x h auth before)
  unfolding after_budget
  after_budget-Leads t c a (some e) = finish_failed-Leads log x h auth before t _ e
  after_budget-Leads t c a none =
      Leads-bind log auth before _ (Left log x h auth before) _ _ _
        (enforce-Left log x h auth before t a) (after_egress-Leads t c a)

  after_plan-Leads :
      (t : ResolvedTask) (c : ToolExecutionContext) (a : ToolAction)
      (o : Outcome (List BudgetUsage))
      → Leads log auth before
          (Clear log x h auth before)
          (after_plan x t c a o)
          (λ _. Kept log x h auth before)
  unfolding after_plan
  after_plan-Leads t c a (Outcome.err e) = failed-Leads t a e
  after_plan-Leads t c a (Outcome.ok us) =
      Leads-bind log auth before _ (Left log x h auth before) _ _ _
        (budget_usages-Left log x h auth before t us) (after_budget-Leads t c a)

  run_mediated-Leads :
      (t : ResolvedTask) (c : ToolExecutionContext) (a : ToolAction)
      → Leads log auth before
          (Clear log x h auth before)
          (run_mediated x t c a)
          (λ _. Kept log x h auth before)
  unfolding run_mediated
  run_mediated-Leads t c a =
      Leads-bind log auth before _ (λ _. Clear log x h auth before) _ _ _
        (silent-Clear log x h auth before _ (h.planned t a c)) (after_plan-Leads t c a)

  after_decision-Leads :
      (t : ResolvedTask) (c : ToolExecutionContext) (a : ToolAction) (d : ActionDecision)
      (r : Option ApprovalRecord)
      → Leads log auth before
          (Decided log x h auth before d r)
          (after_decision x t c a d r)
          (λ _. Kept log x h auth before)
  unfolding after_decision
  after_decision-Leads t c a (deny rule reason) r = finish_failed-Leads log x h auth before t _ _
  after_decision-Leads t c a (require_approval kind rule reason risk) none =
      finish_failed-Leads log x h auth before t _ _
  after_decision-Leads t c a (require_approval kind rule reason risk) (some r) =
      run_mediated-Leads t c a
  after_decision-Leads t c a (allow rule reason) r = run_mediated-Leads t c a

  after_mediation-Leads :
      (t : ResolvedTask) (c : ToolExecutionContext) (raw : ToolAction) (m : Result GatewayMediation)
      → Leads log auth before
          (OnResult log auth before
            (λ mediation. Decided log x h auth before mediation.decision mediation.approval)
            m)
          (after_mediation x t c raw m)
          (λ _. Kept log x h auth before)
  unfolding after_mediation
  after_mediation-Leads t c raw (err e) = finish_failed-Leads log x h auth before t _ _
  after_mediation-Leads t c raw (ok m) = after_decision-Leads t c m.action m.decision m.approval

  execute-Leads :
      (t : ResolvedTask) (raw : ToolAction) (c : ToolExecutionContext)
      → ((action : ToolAction)
          → normalize_tool_action raw ≡ Result.ok action
          → MayClear log x h auth before t action)
      → Leads log auth before
          (At log auth before fresh)
          (execute_tool_action x t raw c)
          (λ _. Kept log x h auth before)
  unfolding execute_tool_action
  execute-Leads t raw c may =
      Leads-bind log auth before _ _ _ _ _
        (attempt-Leads log x h auth before _ _ _ (mediate-Leads log x h auth before t raw may))
        (after_mediation-Leads t c raw)

result-Safe :
    {W : Type 0} (log : W → List AuditEvent) (auth : AuditEvent → Type 0) (before : List AuditEvent)
    (r : Result ToolExecution) (w : W)
    → OnResult log auth before (λ _. Safe log auth before) r w
    → Safe log auth before w
result-Safe log auth before (ok e) w h = h
result-Safe log auth before (err e) w h = h

-- In the events that an execution adds to the audit log, also where it fails, every start of a tool comes
-- after a decision of the policy to allow the normalised call, or after an approval that the engine gave
-- to a request for it, and none comes after a decision to deny a tool call, a budget or a network
-- destination or after an approval that was denied, timed out or is missing.
pub execute_tool_action-guarded :
    {W : Type 0} (log : W → List AuditEvent) (x : GatewayExecutor W) (t : ResolvedTask)
    (raw : ToolAction) (c : ToolExecutionContext) (w : W)
    → IsGatewayLog log x
    → (es : List AuditEvent) × (log (execute_tool_action x t raw c w).1 ≡ log w ++ es)
      × Preceded IsStart (Authorises x t raw) [] es
      × (phase es ≢ violated)
execute_tool_action-guarded log x t raw c w h =
    let auth = Authorises x t raw in
    let (es, grown, sound, safe) =
      result-Safe log auth (log w) (execute_tool_action x t raw c w).0 _ (
        execute-Leads log x h auth (log w) t raw c (normal-MayClear x t raw log h (log w)) w
          ([], sym (append-nil (log w)), ((λ k. cc k), (λ n. tt)), refl)) in
    (es, grown, sound.1 safe, safe)
