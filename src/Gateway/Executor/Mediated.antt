-- ===== src/Gateway/Executor/Mediated.antt =====
-- What a mediation leaves in the log: whether its tool call may start.
use task_fence.Prelude.{
  AllSome, ◌≡◌, ◌≢◌, refl, subst, Bool, true, false, Option, none, some, List, ◌==◌, any,
  Bool-cases, inl, inr,
}
use task_fence.Core.Error.{Result, ok, TaskFenceError}
use task_fence.Gateway.Normalize.{normalize_tool_action}
use task_fence.Core.Task.{ResolvedTask}
use task_fence.Core.Action.{
  OffsetDateTime, Action, tool_call, ActionDecision, allow, require_approval, deny,
  ApprovalDecision, approved, denied, timed_out, ToolAction, ApprovalRecord,
}
use task_fence.Core.Event.{AuditEvent, policy_decision, approval_requested, approval_resolved}
use task_fence.Core.Effect.{Effect, pure, raise, lift, ◌>>◌}
use task_fence.Gateway.Mediator.{
  ApprovalEngine, check_resolved, request_approval_of, check_protocol, refuse_unregistered,
  check_registry, ask, approval_of, mediate_tool_action,
}
use task_fence.Gateway.Executor.{GatewayExecutor}
use task_fence.Gateway.Executor.Phases.{
  neutral, authorising, denying, Clears, stays_safe, silent-bind, Phase, fresh, cleared, violated,
  advance, kind_of, kind_of_answer, kind_of_decision, Silent, IsSilentEngine, IsGatewayLog, At,
  Safe, Safe-of_At, Leads, Leads-bind, silent-At, record-At,
}

module _ {W : Type 0} (log : W → List AuditEvent) (x : GatewayExecutor W) (h : IsGatewayLog log x)
    (auth : AuditEvent → Type 0) (before : List AuditEvent) where
  lift-Silent : {A : Type 0} (r : Result A) → Silent log (lift r)
  unfolding lift
  lift-Silent r w = refl

  -- A failure leaves the log safe.
  pub raise-Leads :
      {A : Type 0} (e : _) (p : Phase) (S : A → W → Type 0)
      → p ≢ violated
      → Leads log auth before (At log auth before p) (raise e) S
  unfolding raise
  raise-Leads e p S n w a = Safe-of_At log auth before w n a

  refused_safely :
      {A : Type 0} (e : TaskFenceError) (S : A → W → Type 0) (p : Phase)
      → p ≢ violated
      → Leads log auth before (At log auth before (advance p denying)) (raise e) S
  refused_safely e S p n =
      raise-Leads e (advance p denying) S (stays_safe log auth before p denying n (λ c. cc c))

  check_resolved-Leads :
      (p : Phase) (r : ApprovalRecord) (d : Option ApprovalDecision)
      → p ≢ violated
      → advance p authorising ≡ cleared
      → Leads log auth before
          (At log auth before (advance p (kind_of_answer d)))
          (check_resolved x.mediator r d)
          (λ _. At log auth before cleared)
  unfolding pure
  check_resolved-Leads p r (some approved) n e = λ w a. subst (λ q. At log auth before q w) e a
  check_resolved-Leads p r (some denied) n e = refused_safely _ _ p n
  check_resolved-Leads p r (some timed_out) n e = refused_safely _ _ p n
  check_resolved-Leads p r none n e = refused_safely _ _ p n

  -- What the answer of an engine to a request for the action clears.
  abbrev pub Admits : Phase → ApprovalEngine W → ResolvedTask → Action → ActionDecision → Type 0
  Admits p engine t a d =
      (requested resolved : ApprovalRecord) (v : W)
      → (engine.request t a d v).0 ≡ ok requested
      → (u : W) → (engine.wait requested.id u).0 ≡ ok resolved
      → Clears auth p (approval_resolved resolved)

  pub request_approval_of-Leads :
      (p : Phase) (engine : ApprovalEngine W) (t : ResolvedTask) (a : Action) (d : ActionDecision)
      → p ≢ violated
      → advance p authorising ≡ cleared
      → IsSilentEngine log engine
      → Admits p engine t a d
      → Leads log auth before
          (At log auth before p)
          (request_approval_of x.mediator engine t a d)
          (λ _. At log auth before cleared)
  unfolding request_approval_of
  request_approval_of-Leads p engine t a d n e s admits =
      silent-bind log auth before p _ _ _ n (s.request t a d) (λ requested v asked.
        Leads-bind log auth before _ (λ _. At log auth before p) _ _ _
          (record-At log auth before p _ (approval_requested requested) n h.mediator_audit
            (λ _ k. cc k))
          (λ _. silent-bind log auth before p _ _ _ n (s.wait requested.id) (λ resolved u answered.
            Leads-bind log auth before _
              (λ _. At log auth before (advance p (kind_of_answer resolved.decision))) _ _ _
              (record-At log auth before p _ (approval_resolved resolved) n h.mediator_audit
                (admits requested resolved v asked u answered))
              (λ _. check_resolved-Leads p resolved resolved.decision n e))))

  -- A refusal is recorded, and fails.
  refuse-Leads :
      {A : Type 0} (event : _) (e : _) (S : A → W → Type 0)
      → kind_of event ≡ neutral
      → Leads log auth before
          (At log auth before fresh)
          (x.mediator.record_audit event >> raise e)
          S
  refuse-Leads event e S k =
      Leads-bind log auth before _ (λ _. At log auth before fresh) _ _ _
        (subst
          (λ q.
            Leads log auth before (At log auth before fresh) (x.mediator.record_audit event)
              (λ _. At log auth before (advance fresh q)))
          k
          (record-At log auth before fresh _ event (λ c. cc c) h.mediator_audit (λ _ q. cc (k, q))))
        (λ _. raise-Leads e fresh S (λ c. cc c))

  stays :
      {A : Type 0} (m : Effect W A)
      → Silent log m
      → Leads log auth before (At log auth before fresh) m (λ _. At log auth before fresh)
  stays m s = silent-At log auth before fresh m (λ c. cc c) s

  pure-Silent : {A : Type 0} (a : A) → Silent log (pure a)
  unfolding pure
  pure-Silent a w = refl

  check_protocol-Leads :
      (t : ResolvedTask) (a : ToolAction)
      → Leads log auth before
          (At log auth before fresh)
          (check_protocol x.mediator t a)
          (λ _. At log auth before fresh)
  unfolding check_protocol
  check_protocol-Leads t a =
      elim (Bool-cases (any (λ protocol. protocol == a.protocol) x.mediator.supported_protocols)) [
        | inl known ↦ rw known (stays (pure tt) (pure-Silent tt))
        | inr unknown ↦ rw unknown (
            Leads-bind log auth before _ (λ _. At log auth before fresh) _ _ _ (stays _ h.now_utc)
              (λ at. refuse-Leads _ _ _ refl))
      ]

  refuse_unregistered-Leads :
      (t : ResolvedTask) (a : ToolAction) (known : Bool)
      → Leads log auth before
          (At log auth before fresh)
          (refuse_unregistered x.mediator t a known)
          (λ _. At log auth before fresh)
  unfolding refuse_unregistered
  refuse_unregistered-Leads t a true = stays (pure tt) (pure-Silent tt)
  refuse_unregistered-Leads t a false =
      Leads-bind log auth before _ (λ _. At log auth before fresh) _ _ _ (stays _ (lift-Silent _))
        (λ key.
          Leads-bind log auth before _ (λ _. At log auth before fresh) _ _ _ (stays _ h.now_utc)
            (λ at. refuse-Leads _ _ _ refl))

  check_registry-Leads :
      (registry : Option (ToolAction → Effect W Bool)) (t : ResolvedTask) (a : ToolAction)
      → AllSome (λ contains. (b : ToolAction) → Silent log (contains b)) registry
      → Leads log auth before
          (At log auth before fresh)
          (check_registry x.mediator registry t a)
          (λ _. At log auth before fresh)
  unfolding check_registry
  check_registry-Leads none t a s = stays (pure tt) (pure-Silent tt)
  check_registry-Leads (some contains) t a s =
      Leads-bind log auth before _ (λ _. At log auth before fresh) _ _ _ (stays _ (s a))
        (refuse_unregistered-Leads t a)

  -- What the decision and the approval of a mediation say of the log.
  abbrev pub Decided : ActionDecision → Option ApprovalRecord → W → Type 0
  Decided (allow rule reason) r = At log auth before cleared
  Decided (deny rule reason) r = Safe log auth before
  Decided (require_approval kind rule reason risk) none = Safe log auth before
  Decided (require_approval kind rule reason risk) (some r) = At log auth before cleared

  ask-Leads :
      (engine : Option (ApprovalEngine W)) (t : ResolvedTask) (a : Action) (kind : _) (rule : _)
      (reason : _) (risk : _)
      → AllSome (IsSilentEngine log) engine
      → ((e : ApprovalEngine W)
          → engine ≡ some e
          → Admits fresh e t a (require_approval kind rule reason risk))
      → Leads log auth before
          (At log auth before fresh)
          (ask x.mediator engine t a (require_approval kind rule reason risk))
          (Decided (require_approval kind rule reason risk))
  unfolding ask pure
  ask-Leads none t a kind rule reason risk s k = λ w p. Safe-of_At log auth before w (λ c. cc c) p
  ask-Leads (some engine) t a kind rule reason risk s k =
      Leads-bind log auth before _ (λ _. At log auth before cleared) _ _ _
        (request_approval_of-Leads fresh engine t a _ (λ c. cc c) refl s (k engine refl))
        (λ r w p. p)

  approval_of-Leads :
      (t : ResolvedTask) (a : ToolAction) (d : ActionDecision)
      → ((e : ApprovalEngine W) → x.mediator.approval ≡ some e → Admits fresh e t (tool_call a) d)
      → Leads log auth before
          (At log auth before (advance fresh (kind_of_decision (tool_call a) d)))
          (approval_of x.mediator t (tool_call a) d)
          (Decided d)
  unfolding approval_of pure
  approval_of-Leads t a (allow rule reason) k w p = p
  approval_of-Leads t a (deny rule reason) k w p = Safe-of_At log auth before w (λ c. cc c) p
  approval_of-Leads t a (require_approval kind rule reason risk) k w p =
      ask-Leads x.mediator.approval t (tool_call a) kind rule reason risk h.approval k w p

  -- The decision on the normalised call, and the answer to a request for it, may clear the log.
  abbrev pub MayClear : ResolvedTask → ToolAction → Type 0
  MayClear t action =
      ((d : ActionDecision) (v : W)
        → (x.mediator.evaluate t (tool_call action) v).0 ≡ ok d
        → (at : OffsetDateTime) → Clears auth fresh (policy_decision t.id at (tool_call action) d))
      × ((d : ActionDecision) (e : ApprovalEngine W)
          → x.mediator.approval ≡ some e
          → Admits fresh e t (tool_call action) d)

  pub mediate-Leads :
      (t : ResolvedTask) (raw : ToolAction)
      → ((action : ToolAction) → normalize_tool_action raw ≡ ok action → MayClear t action)
      → Leads log auth before
          (At log auth before fresh)
          (mediate_tool_action x.mediator t raw)
          (λ mediation. Decided mediation.decision mediation.approval)
  unfolding mediate_tool_action pure lift
  mediate-Leads t raw may =
      silent-bind log auth before fresh _ _ _ (λ c. cc c) (lift-Silent (normalize_tool_action raw))
        (λ action v normal.
          let (decides, admits) = may action normal in
          Leads-bind log auth before _ (λ _. At log auth before fresh) _ _ _
            (check_protocol-Leads t action)
            (λ _.
              Leads-bind log auth before _ (λ _. At log auth before fresh) _ _ _
                (check_registry-Leads x.mediator.registry t action h.registry)
                (λ _.
                  silent-bind log auth before fresh _ _ _ (λ c. cc c)
                    (h.evaluate t (tool_call action))
                    (λ d u given.
                      Leads-bind log auth before _ (λ _. At log auth before fresh) _ _ _
                        (stays _ h.now_utc)
                        (λ at.
                          Leads-bind log auth before _
                            (λ _.
                              At log auth before
                                (advance fresh (kind_of_decision (tool_call action) d)))
                            _ _ _
                            (record-At log auth before fresh _
                              (policy_decision t.id at (tool_call action) d) (λ c. cc c)
                              h.mediator_audit (decides d u given at))
                            (λ _.
                              Leads-bind log auth before _ (Decided d) _ _ _
                                (approval_of-Leads t action d (admits d)) (λ r w p. p)))))))
