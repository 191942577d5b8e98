-- ===== src/Gateway/Executor/Refused.antt =====
-- Tool calls that policy does not let through.
use task_fence.Prelude.{AllSome, ◌≡◌, refl, Bool, true, false, Option, none, some}
use task_fence.Core.Error.{Result, ok, err}
use task_fence.Core.Task.{ApprovalId, ResolvedTask}
use task_fence.Core.Action.{
  OffsetDateTime, Action, tool_call, ActionDecision, allow, require_approval, deny,
  ApprovalDecision, approved, denied, timed_out, ToolAction, ToolRequest, ToolExecutionError,
  ToolExecutionContext, ApprovalRecord,
}
use task_fence.Core.Event.{AuditEvent, approval_resolved, policy_decision}
use task_fence.Core.Effect.{
  Effect, Ensures, Ensures-bind, Keeps, Keeps-bind, Keeps-lift, Keeps-pure, Keeps-raise, Keeps-if,
  pure, raise, attempt, ◌>>=◌, ◌>>◌,
}
use task_fence.Core.Orchestrator.Authorised.{is_allowed, is_approved}
use task_fence.Gateway.Mediator.{
  ApprovalEngine, GatewayMediation, check_resolved, request_approval_of, check_protocol,
  refuse_unregistered, check_registry, ask, approval_of, mediate_tool_action,
}
use task_fence.Gateway.Executor.{
  GatewayExecutor, record_finished, finish_failed, after_decision, after_mediation,
  execute_tool_action,
}

module _ {W : Type 0} (P : W → Type 0) where
  pub record KeptEngine (a : ApprovalEngine W) : Type 0 where
    pub request : (t : ResolvedTask) (x : Action) (d : ActionDecision) → Keeps P (a.request t x d)
    pub wait : (id : ApprovalId) → Keeps P (a.wait id)
    -- No approval is given.
    pub no_approval :
        (id : ApprovalId) (w : W) (r : ApprovalRecord)
        → (a.wait id w).0 ≡ ok r
        → is_approved r.decision ≡ false

  -- The calls of a mediation keep `P`; policy allows no tool call of the task, and no approval is given.
  -- Nothing is said of the adapter and of the secret broker.
  pub record RefusesTools (x : GatewayExecutor W) (t : ResolvedTask) : Type 0 where
    pub evaluate : (a : Action) → Keeps P (x.mediator.evaluate t a)
    pub mediator_audit : (e : AuditEvent) → Keeps P (x.mediator.record_audit e)
    pub executor_audit : (e : AuditEvent) → Keeps P (x.record_audit e)
    pub now_utc : Keeps P x.mediator.now_utc
    pub registry : AllSome (λ contains. (a : ToolAction) → Keeps P (contains a)) x.mediator.registry
    pub approval : AllSome KeptEngine x.mediator.approval
    pub no_allow :
        (a : ToolAction) (w : W) (d : ActionDecision)
        → (x.mediator.evaluate t (tool_call a) w).0 ≡ ok d
        → is_allowed d ≡ false

module _ {W : Type 0} (P : W → Type 0) (x : GatewayExecutor W) (t : ResolvedTask)
    (h : RefusesTools P x t) where
  abbrev Failed : {A : Type 0} → Result A → W → Type 0
  Failed (ok a) w = ⊥
  Failed (err e) w = P w

  abbrev Fails : {A : Type 0} → (W → Type 0) → Effect W A → Type 0
  Fails Q m = Ensures Q m Failed

  then-Fails :
      {A B : Type 0} (m : Effect W A) (f : A → Effect W B)
      → Keeps P m
      → ((a : A) → Fails P (f a))
      → Fails P (m >>= f)
  then-Fails m f k g = Ensures-bind P (λ _. P) Failed m f k.after g (λ e w p. p)

  check_resolved-Fails :
      (r : ApprovalRecord) (d : Option ApprovalDecision)
      → is_approved d ≡ false
      → Fails P (check_resolved x.mediator r d)
  unfolding raise
  check_resolved-Fails r (some approved) e = λ w p. cc e
  check_resolved-Fails r (some denied) e = λ w p. p
  check_resolved-Fails r (some timed_out) e = λ w p. p
  check_resolved-Fails r none e = λ w p. p

  -- What `wait` leaves.
  abbrev Unapproved : Result ApprovalRecord → W → Type 0
  Unapproved (ok r) w = (is_approved r.decision ≡ false) × P w
  Unapproved (err e) w = P w

  unapproved :
      (r : Result ApprovalRecord) (w : W)
      → ((a : ApprovalRecord) → r ≡ ok a → is_approved a.decision ≡ false)
      → P w
      → Unapproved r w
  unapproved (ok a) w n p = (n a refl, p)
  unapproved (err e) w n p = p

  resolve-Fails :
      (resolved : ApprovalRecord)
      → is_approved resolved.decision ≡ false
      → Fails P (
          x.mediator.record_audit (approval_resolved resolved)
          >> check_resolved x.mediator resolved resolved.decision)
  resolve-Fails resolved e =
      then-Fails _ _ (h.mediator_audit (approval_resolved resolved))
        (λ _. check_resolved-Fails resolved resolved.decision e)

  request_approval_of-Fails :
      (engine : ApprovalEngine W) (a : Action) (d : ActionDecision)
      → KeptEngine P engine
      → Fails P (request_approval_of x.mediator engine t a d)
  unfolding request_approval_of
  request_approval_of-Fails engine a d k = then-Fails _ _ (k.request t a d) (λ requested.
      then-Fails _ _ (h.mediator_audit _) (λ _.
        Ensures-bind P Unapproved Failed _ _
          (λ w p.
            unapproved (engine.wait requested.id w).0 _ (k.no_approval requested.id w)
              ((k.wait requested.id).after w p))
          (λ resolved w u. resolve-Fails resolved u.0 w u.1) (λ e w p. p)))

  -- A mediation that returns gives no leave to run the tool.
  abbrev Stops : ActionDecision → Option ApprovalRecord → Type 0
  Stops (allow rule reason) r = ⊥
  Stops (deny rule reason) r = Unit {0}
  Stops (require_approval kind rule reason risk) none = Unit {0}
  Stops (require_approval kind rule reason risk) (some r) = ⊥

  abbrev Stopped : Result GatewayMediation → W → Type 0
  Stopped (ok m) w = Stops m.decision m.approval × P w
  Stopped (err e) w = P w

  -- The approval of a decision that allows nothing.
  abbrev Refusing : ActionDecision → Result (Option ApprovalRecord) → W → Type 0
  Refusing d (ok r) w = Stops d r × P w
  Refusing d (err e) w = P w

  ask-Refusing :
      (engine : Option (ApprovalEngine W)) (a : Action) (d : ActionDecision)
      → AllSome (KeptEngine P) engine
      → Stops d none
      → Ensures P (ask x.mediator engine t a d) (Refusing d)
  unfolding ask pure
  ask-Refusing none a d k n = λ w p. (n, p)
  ask-Refusing (some engine) a d k n =
      Ensures-bind P Failed (Refusing d) _ _ (request_approval_of-Fails engine a d k)
        (λ r w f. absurd f) (λ e w p. p)

  approval_of-Refusing :
      (a : Action) (d : ActionDecision)
      → is_allowed d ≡ false
      → Ensures P (approval_of x.mediator t a d) (Refusing d)
  unfolding approval_of pure
  approval_of-Refusing a (allow rule reason) n = λ w p. cc n
  approval_of-Refusing a (deny rule reason) n = λ w p. (tt, p)
  approval_of-Refusing a (require_approval kind rule reason risk) n =
      ask-Refusing x.mediator.approval a _ h.approval tt

  -- An event with the time at which it is recorded, and the rest.
  timed-Keeps :
      {B : Type 0} (record_ : AuditEvent → Effect W (Unit {0}))
      → ((e : AuditEvent) → Keeps P (record_ e))
      → (event : OffsetDateTime → AuditEvent) (rest : Effect W B) → Keeps P rest
      → Keeps P (x.mediator.now_utc >>= λ at. record_ (event at) >> rest)
  timed-Keeps record_ k event rest kr =
      Keeps-bind _ _ h.now_utc (λ at. Keeps-bind _ _ (k (event at)) (λ _. kr))

  check_protocol-Keeps : (a : ToolAction) → Keeps P (check_protocol x.mediator t a)
  unfolding check_protocol
  check_protocol-Keeps a =
      Keeps-if _ _ _ (Keeps-pure tt)
        (timed-Keeps x.mediator.record_audit h.mediator_audit _ _ (Keeps-raise _))

  refuse_unregistered-Keeps :
      (b : ToolAction) (known : Bool) → Keeps P (refuse_unregistered x.mediator t b known)
  unfolding refuse_unregistered
  refuse_unregistered-Keeps b true = Keeps-pure tt
  refuse_unregistered-Keeps b false =
      Keeps-bind _ _ (Keeps-lift _)
        (λ key. timed-Keeps x.mediator.record_audit h.mediator_audit _ _ (Keeps-raise _))

  check_registry-Keeps :
      (registry : Option (ToolAction → Effect W Bool)) (a : ToolAction)
      → AllSome (λ contains. (b : ToolAction) → Keeps P (contains b)) registry
      → Keeps P (check_registry x.mediator registry t a)
  unfolding check_registry
  check_registry-Keeps none a k = Keeps-pure tt
  check_registry-Keeps (some contains) a k = Keeps-bind _ _ (k a) (refuse_unregistered-Keeps a)

  -- What the policy leaves.
  abbrev Undecided : Result ActionDecision → W → Type 0
  Undecided (ok d) w = (is_allowed d ≡ false) × P w
  Undecided (err e) w = P w

  undecided :
      (r : Result ActionDecision) (w : W)
      → ((d : ActionDecision) → r ≡ ok d → is_allowed d ≡ false)
      → P w
      → Undecided r w
  undecided (ok d) w n p = (n d refl, p)
  undecided (err e) w n p = p

  obey-Stopped :
      (a : ToolAction) (d : ActionDecision)
      → Ensures
          (λ w. (is_allowed d ≡ false) × P w)
          (do
            at ← x.mediator.now_utc
            x.mediator.record_audit (policy_decision t.id at (tool_call a) d)
            resolved ← approval_of x.mediator t (tool_call a) d
            pure (record { action = a; decision = d; approval = resolved }))
          Stopped
  unfolding pure
  obey-Stopped a d = λ w n.
      Ensures-bind P (λ _. P) Stopped _ _ h.now_utc.after
        (λ at.
          Ensures-bind P (λ _. P) Stopped _ _ (h.mediator_audit _).after
            (λ _.
              Ensures-bind P (Refusing d) Stopped _ _ (approval_of-Refusing (tool_call a) d n.0)
                (λ r v s. s) (λ e v p. p))
            (λ e v p. p))
        (λ e v p. p) w n.1

  mediate-Stopped : (raw : ToolAction) → Ensures P (mediate_tool_action x.mediator t raw) Stopped
  unfolding mediate_tool_action
  mediate-Stopped raw =
      Ensures-bind P (λ _. P) Stopped _ _ (Keeps-lift {P = P} _).after
        (λ a.
          Ensures-bind P (λ _. P) Stopped _ _ (check_protocol-Keeps a).after
            (λ _.
              Ensures-bind P (λ _. P) Stopped _ _
                (check_registry-Keeps x.mediator.registry a h.registry).after
                (λ _.
                  Ensures-bind P Undecided Stopped _ _
                    (λ w p.
                      undecided (x.mediator.evaluate t (tool_call a) w).0 _ (h.no_allow a w)
                        ((h.evaluate (tool_call a)).after w p))
                    (obey-Stopped a) (λ e w p. p))
                (λ e w p. p))
            (λ e w p. p))
        (λ e w p. p)

  finish_failed-Keeps : (r : ToolRequest) (e : ToolExecutionError) → Keeps P (finish_failed x t r e)
  unfolding finish_failed record_finished
  finish_failed-Keeps r e = timed-Keeps x.record_audit h.executor_audit _ _ (Keeps-pure _)

  after_decision-Keeps :
      (c : ToolExecutionContext) (a : ToolAction) (d : ActionDecision) (r : Option ApprovalRecord)
      → Stops d r
      → Keeps P (after_decision x t c a d r)
  unfolding after_decision
  after_decision-Keeps c a (allow rule reason) r s = absurd s
  after_decision-Keeps c a (deny rule reason) r s = finish_failed-Keeps _ _
  after_decision-Keeps c a (require_approval kind rule reason risk) none s = finish_failed-Keeps _ _
  after_decision-Keeps c a (require_approval kind rule reason risk) (some r) s = absurd s

  after_mediation-Ensures :
      (c : ToolExecutionContext) (raw : ToolAction) (m : Result GatewayMediation)
      → Ensures (Stopped m) (after_mediation x t c raw m) (λ _. P)
  unfolding after_mediation
  after_mediation-Ensures c raw (err e) = (finish_failed-Keeps _ _).after
  after_mediation-Ensures c raw (ok m) =
      λ w s. (after_decision-Keeps c m.action m.decision m.approval s.0).after w s.1

-- What a step leaves, as a value.
abbrev Attempted : {A W : Type 0} → (Result A → W → Type 0) → Result (Result A) → W → Type 0
Attempted Q (ok r) w = Q r w
Attempted Q (err e) w = ⊥

attempt-Attempted :
    {A W : Type 0} (P : W → Type 0) (Q : Result A → W → Type 0) (m : Effect W A)
    → Ensures P m Q
    → Ensures P (attempt m) (Attempted Q)
unfolding attempt
attempt-Attempted P Q m h = h

-- Where policy allows no tool call of the task and no approval is given, an execution, whatever the
-- adapter and the secret broker are, changes the world only by calls of the policy, of the two audit
-- logs, of the clock, of the registry and of the approval engine: what all these keep is kept.
pub execute_tool_action-refused :
    {W : Type 0} (P : W → Type 0) (x : GatewayExecutor W) (t : ResolvedTask) (raw : ToolAction)
    (c : ToolExecutionContext) (w : W)
    → RefusesTools P x t
    → P w
    → P (execute_tool_action x t raw c w).1
unfolding execute_tool_action
execute_tool_action-refused P x t raw c w h p =
    Ensures-bind P (Attempted (Stopped P x t h)) (λ _. P) _ _
      (attempt-Attempted P (Stopped P x t h) _ (mediate-Stopped P x t h raw))
      (after_mediation-Ensures P x t h c raw) (λ e v f. absurd f) w p
