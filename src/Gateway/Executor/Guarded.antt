-- ===== src/Gateway/Executor/Guarded.antt =====
-- The log of the steps of an execution, up to the call of the adapter.
use task_fence.Prelude.{AllSome, ◌≢◌, refl, Option, none, some, List, [], ◌∷◌, Bool-cases, inl, inr}
use task_fence.Core.Error.{Result, ok, err}
use task_fence.Core.Task.{ResolvedTask}
use task_fence.Core.Action.{
  Action, network, budget, ActionDecision, allow, require_approval, deny, ToolAction, BudgetUsage,
  ToolRequest, ToolExecution, ToolExecutionError, ApprovalRecord,
}
use task_fence.Core.Event.{
  AuditEvent, policy_decision, budget_usage_recorded, tool_execution_finished,
}
use task_fence.Core.Effect.{Effect, pure, attempt}
use task_fence.Core.Budget.{normalized}
use task_fence.Gateway.Outcome.{Outcome}
use task_fence.Gateway.Egress.{
  GatewayEgressDestination, is_gateway_egress_action, gateway_egress_destination,
}
use task_fence.Gateway.Mediator.{ApprovalEngine}
use task_fence.Gateway.Executor.{
  GatewayExecutor, keep_denial, record_finished, finish_failed, record_usage, with_normal,
  record_usages, record_budget_usages, refusal, approve_egress, obey_egress, check_destination,
  enforce_gateway_egress_policy,
}
use task_fence.Gateway.Executor.Phases.{
  starting, authorising, cleared, violated, advance, kind_of_decision, Silent, IsSilentEngine,
  IsGatewayLog, At, Safe, Safe-of_At, Leads, OnResult, Leads-bind, silent-At, silent-Safe,
  record-At, record-Safe,
}
use task_fence.Gateway.Executor.Mediated.{request_approval_of-Leads}

module _ {W : Type 0} (log : W → List AuditEvent) (x : GatewayExecutor W) (h : IsGatewayLog log x)
    (auth : AuditEvent → Type 0) (before : List AuditEvent) where
  abbrev pub Clear : W → Type 0
  Clear = At log auth before cleared

  abbrev pub Kept : W → Type 0
  Kept = Safe log auth before

  pub relax : (w : W) → Clear w → Kept w
  relax w a = Safe-of_At log auth before w (λ c. cc c) a

  pub silent-Clear :
      {A : Type 0} (m : Effect W A) → Silent log m → Leads log auth before Clear m (λ _. Clear)
  silent-Clear m s = silent-At log auth before cleared m (λ c. cc c) s

  pub record_finished-Leads :
      (t : ResolvedTask) (e : ToolExecution)
      → Leads log auth before Kept (record_finished x t e) (λ _. Kept)
  unfolding record_finished pure
  record_finished-Leads t e =
      Leads-bind log auth before _ (λ _. Kept) _ _ _ (silent-Safe log auth before _ h.now_utc)
        (λ at.
          Leads-bind log auth before _ (λ _. Kept) _ _ _
            (record-Safe log auth before _ (tool_execution_finished t.id at e) (λ c. cc c)
              (λ c. cc c) h.executor_audit)
            (λ _ w k. k))

  pub finish_failed-Leads :
      (t : ResolvedTask) (r : ToolRequest) (e : ToolExecutionError)
      → Leads log auth before Kept (finish_failed x t r e) (λ _. Kept)
  unfolding finish_failed
  finish_failed-Leads t r e = record_finished-Leads t _

  pub neutral_or_denying :
      (a b : _) (d : ActionDecision) → kind_of_decision (budget a b) d ≢ starting
  neutral_or_denying a b (allow rule reason) = λ c. cc c
  neutral_or_denying a b (deny rule reason) = λ c. cc c
  neutral_or_denying a b (require_approval kind rule reason risk) = λ c. cc c

  not_authorising : (a b : _) (d : ActionDecision) → kind_of_decision (budget a b) d ≢ authorising
  not_authorising a b (allow rule reason) = λ c. cc c
  not_authorising a b (deny rule reason) = λ c. cc c
  not_authorising a b (require_approval kind rule reason risk) = λ c. cc c

  pub record_usage-Kept :
      (t : ResolvedTask) (u : BudgetUsage)
      → Leads log auth before Kept (record_usage x t u) (λ _. Kept)
  unfolding record_usage pure
  record_usage-Kept t u =
      Leads-bind log auth before _ (λ _. Kept) _ _ _
        (silent-Safe log auth before _ (h.evaluate t _))
        (λ d.
          Leads-bind log auth before _ (λ _. Kept) _ _ _ (silent-Safe log auth before _ h.now_utc)
            (λ at.
              Leads-bind log auth before _ (λ _. Kept) _ _ _
                (record-Safe log auth before _ (policy_decision t.id at (budget u.kind u.amount) d)
                  (neutral_or_denying u.kind u.amount d) (not_authorising u.kind u.amount d)
                  h.executor_audit)
                (λ _.
                  Leads-bind log auth before _ (λ _. Kept) _ _ _
                    (silent-Safe log auth before _ h.now_utc)
                    (λ later.
                      Leads-bind log auth before _ (λ _. Kept) _ _ _
                        (record-Safe log auth before _ (budget_usage_recorded t.id later _)
                          (λ c. cc c) (λ c. cc c) h.executor_audit)
                        (λ _ w k. k)))))

  -- A usage that is denied leaves the log refused.
  abbrev pub Used : ActionDecision → W → Type 0
  Used d = At log auth before (advance cleared (kind_of_decision (budget "" 0) d))

  pub used_ne_violated :
      (d : ActionDecision) → advance cleared (kind_of_decision (budget "" 0) d) ≢ violated
  used_ne_violated (allow rule reason) = λ c. cc c
  used_ne_violated (deny rule reason) = λ c. cc c
  used_ne_violated (require_approval kind rule reason risk) = λ c. cc c

  pub record_decision-Leads :
      (t : ResolvedTask) (u : BudgetUsage) (at : _) (d : ActionDecision)
      → Leads log auth before Clear
          (x.record_audit (policy_decision t.id at (budget u.kind u.amount) d))
          (λ _. Used d)
  record_decision-Leads t u at (allow rule reason) =
      record-At log auth before cleared _ _ (λ c. cc c) h.executor_audit (λ f _. cc f)
  record_decision-Leads t u at (deny rule reason) =
      record-At log auth before cleared _ _ (λ c. cc c) h.executor_audit (λ f _. cc f)
  record_decision-Leads t u at (require_approval kind rule reason risk) =
      record-At log auth before cleared _ _ (λ c. cc c) h.executor_audit (λ f _. cc f)

  pub record_usage-Clear :
      (t : ResolvedTask) (u : BudgetUsage) → Leads log auth before Clear (record_usage x t u) Used
  unfolding record_usage pure
  record_usage-Clear t u =
      Leads-bind log auth before _ (λ _. Clear) _ _ _ (silent-Clear _ (h.evaluate t _))
        (λ d.
          Leads-bind log auth before _ (λ _. Clear) _ _ _ (silent-Clear _ h.now_utc)
            (λ at.
              Leads-bind log auth before _ (λ _. Used d) _ _ _ (record_decision-Leads t u at d)
                (λ _.
                  Leads-bind log auth before _ (λ _. Used d) _ _ _
                    (silent-At log auth before _ _ (used_ne_violated d) h.now_utc)
                    (λ later.
                      Leads-bind log auth before _ (λ _. Used d) _ _ _
                        (record-At log auth before _ _ (budget_usage_recorded t.id later _)
                          (used_ne_violated d) h.executor_audit (λ _ k. cc k))
                        (λ _ w k. k)))))

  -- The log is clear exactly as long as there is no error.
  abbrev pub Left : Option ToolExecutionError → W → Type 0
  Left none = Clear
  Left (some e) = Kept

  pub keep_denial-Left : (d : ActionDecision) (w : W) → Used d w → Left (keep_denial none d) w
  keep_denial-Left (allow rule reason) w u = u
  keep_denial-Left (deny rule reason) w u = Safe-of_At log auth before w (λ c. cc c) u
  keep_denial-Left (require_approval kind rule reason risk) w u = u

  pub one_usage-Left :
      (t : ResolvedTask) (denial : Option ToolExecutionError) (u : BudgetUsage)
      → Leads log auth before (Left denial) (record_usage x t u) (λ d. Left (keep_denial denial d))
  one_usage-Left t none u = λ w c.
      with_result (record_usage x t u w).0 (record_usage x t u w).1 (record_usage-Clear t u w c)
    where
      with_result :
          (r : Result ActionDecision) (w : W)
          → OnResult log auth before Used r w
          → OnResult log auth before (λ d. Left (keep_denial none d)) r w
      with_result (ok d) w u = keep_denial-Left d w u
      with_result (err e) w k = k
  one_usage-Left t (some e) u = record_usage-Kept t u

  pub relax-Left : (d : Option ToolExecutionError) (w : W) → Left d w → Kept w
  relax-Left none w l = relax w l
  relax-Left (some e) w l = l

  pub with_normal-Left :
      (denial : Option ToolExecutionError)
      (rest : BudgetUsage → Effect W (Option ToolExecutionError)) (n : Result BudgetUsage)
      → ((u : BudgetUsage) → Leads log auth before (Left denial) (rest u) Left)
      → Leads log auth before (Left denial) (with_normal x rest n) Left
  unfolding pure
  with_normal-Left denial rest (ok u) k = k u
  with_normal-Left denial rest (err e) k = λ w l. relax-Left denial w l

  pub record_usages-Left :
      (t : ResolvedTask) (denial : Option ToolExecutionError) (us : List BudgetUsage)
      → Leads log auth before (Left denial) (record_usages x t denial us) Left
  unfolding record_usages pure
  record_usages-Left t denial [] = λ w l. l
  record_usages-Left t denial (u ∷ us) = with_normal-Left denial _ (normalized u) (λ normal.
      Leads-bind log auth before _ (λ d. Left (keep_denial denial d)) _ _ _
        (one_usage-Left t denial normal) (λ d. record_usages-Left t (keep_denial denial d) us))

  pub budget_usages-Left :
      (t : ResolvedTask) (us : List BudgetUsage)
      → Leads log auth before Clear (record_budget_usages x t us) Left
  unfolding record_budget_usages
  budget_usages-Left t us = record_usages-Left t none us

  -- Outcomes of an `attempt`.
  pub attempt-Leads :
      {A : Type 0} (P : W → Type 0) (S : A → W → Type 0) (m : Effect W A)
      → Leads log auth before P m S
      → Leads log auth before P (attempt m) (OnResult log auth before S)
  unfolding attempt
  attempt-Leads P S m k w p = k w p

  pub approve_egress-Left :
      (engine : Option (ApprovalEngine W)) (t : ResolvedTask) (a : Action) (d : ActionDecision)
      → AllSome (IsSilentEngine log) engine
      → Leads log auth before Clear (approve_egress x engine t a d) Left
  unfolding approve_egress pure
  approve_egress-Left none t a d s = λ w c. relax w c
  approve_egress-Left (some engine) t a d s =
      Leads-bind log auth before _ (OnResult log auth before (λ _. Clear)) _ _ _
        (attempt-Leads Clear (λ _. Clear) _
          (request_approval_of-Leads log x h auth before cleared engine t a d (λ c. cc c) refl s
            (λ _ _ _ _ _ _ f _. cc f)))
        refused_or_not
    where
      refused_or_not :
          (r : Result ApprovalRecord)
          → Leads log auth before
              (OnResult log auth before (λ _. Clear) r)
              (pure (refusal x r))
              Left
      refused_or_not (ok r) = λ w c. c
      refused_or_not (err e) = λ w k. k

  pub obey_egress-Left :
      (t : ResolvedTask) (host : _) (port : _) (d : ActionDecision)
      → Leads log auth before
          (At log auth before (advance cleared (kind_of_decision (network host port) d)))
          (obey_egress x t (network host port) d)
          Left
  unfolding obey_egress pure
  obey_egress-Left t host port (allow rule reason) = λ w c. c
  obey_egress-Left t host port (deny rule reason) =
      λ w c. Safe-of_At log auth before w (λ k. cc k) c
  obey_egress-Left t host port (require_approval kind rule reason risk) =
      approve_egress-Left x.mediator.approval t _ _ h.approval

  pub check_destination-Left :
      (t : ResolvedTask) (d : Outcome GatewayEgressDestination)
      → Leads log auth before Clear (check_destination x t d) Left
  unfolding check_destination pure
  check_destination-Left t (Outcome.err e) = λ w c. relax w c
  check_destination-Left t (Outcome.ok to) =
      Leads-bind log auth before _ (λ _. Clear) _ _ _ (silent-Clear _ (h.evaluate t _))
        (λ d.
          Leads-bind log auth before _ (λ _. Clear) _ _ _ (silent-Clear _ h.now_utc)
            (λ at.
              Leads-bind log auth before _
                (λ _.
                  At log auth before
                    (advance cleared (kind_of_decision (network to.host to.port) d)))
                _ _ _
                (record-At log auth before cleared _
                  (policy_decision t.id at (network to.host to.port) d) (λ c. cc c) h.executor_audit
                  (λ f _. cc f))
                (λ _. obey_egress-Left t to.host to.port d)))

  pub enforce-Left :
      (t : ResolvedTask) (a : ToolAction)
      → Leads log auth before Clear (enforce_gateway_egress_policy x t a) Left
  unfolding enforce_gateway_egress_policy pure
  enforce-Left t a = elim (Bool-cases (is_gateway_egress_action a)) [
    | inl yes_egress ↦ rw yes_egress (check_destination-Left t (gateway_egress_destination a))
    | inr no_egress ↦ rw no_egress (λ w c. c)
  ]
