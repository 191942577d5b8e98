-- ===== src/Gateway/Secrets/Laws.antt =====
-- Which secrets a tool call is given.
use task_fence.Prelude.{
  ◌≡◌, refl, sym, subst, String, true, false, List, [], ◌∷◌, ◌++◌, any, arith, All, All-append,
}
use task_fence.Core.Error.{Result, ok, err}
use task_fence.Core.Task.{ResolvedTask, GatewaySecretReferenceConfig}
use task_fence.Core.Action.{ToolAction}
use task_fence.Core.Effect.{Effect, bind-eq-ok, ◌>>=◌, lift, pure, proceed}
use task_fence.Gateway.Secrets.{
  SecretReference, as_redacted_value, GatewaySecretBinding, SecretBroker, grants,
  ensure_secret_grant, gateway_secret_reference, insert_secret_reference, attach_secret_reference,
  attach_references,
}

-- The task grants the secret to the gateway for the scope, and keeps secrets from the agent.
abbrev IsGranted : ResolvedTask → String → String → Type 0
IsGranted t name scope =
    (t.secrets.expose_to_agent ≡ false)
    × (any (grants name scope) t.secrets.available_to_gateway ≡ true)

abbrev pub IsGrantedReference : ResolvedTask → SecretReference → Type 0
IsGrantedReference t r = IsGranted t r.name r.scope

ensure-IsGranted :
    (t : ResolvedTask) (name scope : String) {u : Unit {0}}
    → ensure_secret_grant t name scope ≡ ok u
    → IsGranted t name scope
unfolding ensure_secret_grant
ensure-IsGranted t name scope e = ground arith

-- A broker that answers with the secret and the scope it is asked for.
abbrev IsFaithful : {W : Type 0} → SecretBroker W → Type 0
IsFaithful {W} broker =
    (t : ResolvedTask) (name scope : String) (w : W) (r : SecretReference)
    → (broker t name scope w).0 ≡ ok r
    → (r.name ≡ name) × (r.scope ≡ scope)

module _ {W : Type 0} (t : ResolvedTask) (broker : SecretBroker W) (h : IsFaithful broker) where
  reference-IsGranted :
      (name scope : String) (w : W) {r : SecretReference}
      → (gateway_secret_reference t broker name scope w).0 ≡ ok r
      → IsGrantedReference t r
  unfolding gateway_secret_reference lift
  reference-IsGranted name scope w {r} e =
      let (n, e0, e1, s0) = bind-eq-ok _ _ w e in
      let (s, e2, e3, s1) = bind-eq-ok _ _ w e1 in
      let (u, e4, e5, s2) = bind-eq-ok _ _ w e3 in
      let (same_name, same_scope) = h t n s w r e5 in
      subst (λ x. IsGranted t x r.scope) (sym same_name)
        (subst (IsGranted t n) (sym same_scope) (ensure-IsGranted t n s e4))

  abbrev IsGrantedBinding : GatewaySecretBinding → Type 0
  IsGrantedBinding b = IsGrantedReference t b.reference

  bindings-AllGranted :
      (a : ToolAction) (bs : List GatewaySecretBinding) (refs : List GatewaySecretReferenceConfig)
      (w : W) {r : ToolAction × List GatewaySecretBinding}
      → All IsGrantedBinding bs
      → (attach_references t broker a bs refs w).0 ≡ ok r
      → All IsGrantedBinding r.1
  unfolding attach_references lift pure
  bindings-AllGranted a bs [] w k e = subst (All IsGrantedBinding) (cc e) k
  bindings-AllGranted a bs (c ∷ refs) w k e =
      let (reference, e0, e1, s0) = bind-eq-ok _ _ w e in
      let (bound, e2, e3, s1) = bind-eq-ok _ _ _ e1 in
      bindings-AllGranted bound _ refs _
        (All-append IsGrantedBinding bs _ k (reference-IsGranted c.name c.scope w e0, tt)) e3

-- Every secret that an adapter is bound to is granted by the task to the gateway for its scope, and the
-- task keeps its secrets from the agent, where the broker answers with the secret and the scope that it
-- is asked for.
pub attach_references-AllGranted :
    {W : Type 0} (t : ResolvedTask) (broker : SecretBroker W) (a : ToolAction)
    (refs : List GatewaySecretReferenceConfig) (w : W) {r : ToolAction × List GatewaySecretBinding}
    → IsFaithful broker
    → (attach_references t broker a [] refs w).0 ≡ ok r
    → All (λ binding. IsGrantedReference t binding.reference) r.1
attach_references-AllGranted t broker a refs w h e = bindings-AllGranted t broker h a [] refs w tt e

-- The same broker, with other handles.
abbrev pub with_handles : {W : Type 0} → (String → String) → SecretBroker W → SecretBroker W
with_handles f broker t name scope =
    broker t name scope >>= λ r. pure (record r { handle = f r.handle })

abbrev pub same_action : Result (ToolAction × List GatewaySecretBinding) → Result ToolAction
same_action (ok r) = ok r.0
same_action (err e) = err e

module _ {W : Type 0} (t : ResolvedTask) (broker : SecretBroker W) (f : String → String) where
  abbrev handled : Result SecretReference → Result SecretReference
  handled (ok r) = ok (record r { handle = f r.handle })
  handled (err e) = err e

  reference-handled :
      (name scope : String) (w : W)
      → gateway_secret_reference t (with_handles f broker) name scope w ≡ (
        handled (gateway_secret_reference t broker name scope w).0,
        (gateway_secret_reference t broker name scope w).1,
      )
  unfolding gateway_secret_reference ◌>>=◌ proceed lift pure
  reference-handled name scope w = ground arith

  -- The actions and the worlds agree.
  abbrev Alike :
      Result (ToolAction × List GatewaySecretBinding) × W
      → Result (ToolAction × List GatewaySecretBinding) × W
      → Type 0
  Alike p q = (same_action p.0 ≡ same_action q.0) × (p.1 ≡ q.1)

  IsAlike : (refs : List GatewaySecretReferenceConfig) → Type 0
  IsAlike refs =
      (a : ToolAction) (bs cs : List GatewaySecretBinding) (w : W)
      → Alike (attach_references t (with_handles f broker) a bs refs w)
          (attach_references t broker a cs refs w)

  -- The rest of a round, from the action with the reference on.
  bound-Alike :
      (refs : List GatewaySecretReferenceConfig)
      → IsAlike refs
      → (r : Result ToolAction) (bs cs : List GatewaySecretBinding) (w : W)
      → Alike
          (proceed r (λ b. attach_references t (with_handles f broker) b bs refs) w)
          (proceed r (λ b. attach_references t broker b cs refs) w)
  unfolding IsAlike proceed
  bound-Alike refs h (ok b) bs cs w = h b bs cs w
  bound-Alike refs h (err e) bs cs w = (refl, refl)

  round :
      SecretBroker W
      → ToolAction
      → List GatewaySecretBinding
      → GatewaySecretReferenceConfig
      → List GatewaySecretReferenceConfig
      → SecretReference
      → Effect W (ToolAction × List GatewaySecretBinding)
  round b a bs c refs reference =
      lift (attach_secret_reference a c.parameter reference) >>= λ bound.
      attach_references t b bound
        (bs ++ record { parameter = c.parameter; reference = reference } ∷ []) refs

  round-Alike :
      (a : ToolAction) (bs cs : List GatewaySecretBinding) (c : GatewaySecretReferenceConfig)
      (refs : List GatewaySecretReferenceConfig)
      → IsAlike refs
      → (r : Result SecretReference) (w : W)
      → Alike
          (proceed (handled r) (round (with_handles f broker) a bs c refs) w)
          (proceed r (round broker a cs c refs) w)
  unfolding round proceed lift ◌>>=◌ attach_secret_reference insert_secret_reference
      as_redacted_value
  round-Alike a bs cs c refs h (err e) w = (refl, refl)
  round-Alike a bs cs c refs h (ok r) w =
      bound-Alike refs h (attach_secret_reference a c.parameter r) _ _ w

  attach-Alike : (refs : List GatewaySecretReferenceConfig) → IsAlike refs
  unfolding IsAlike attach_references pure ◌>>=◌ round
  attach-Alike [] a bs cs w = (refl, refl)
  attach-Alike (c ∷ refs) a bs cs w =
      subst
        (λ p.
          Alike (proceed p.0 (round (with_handles f broker) a bs c refs) p.1)
            (attach_references t broker a cs (c ∷ refs) w))
        (sym (reference-handled c.name c.scope w))
        (round-Alike a bs cs c refs (attach-Alike refs)
          (gateway_secret_reference t broker c.name c.scope w).0 _)

-- The action that an adapter is called with does not depend on the handles of its secrets: with other
-- handles, the same action is given, or the same error, and the world after is the same.
pub attach_references-with_handles :
    {W : Type 0} (t : ResolvedTask) (broker : SecretBroker W) (f : String → String) (a : ToolAction)
    (refs : List GatewaySecretReferenceConfig) (w : W)
    → (same_action (attach_references t (with_handles f broker) a [] refs w).0
        ≡ same_action (attach_references t broker a [] refs w).0)
      × ((attach_references t (with_handles f broker) a [] refs w).1
          ≡ (attach_references t broker a [] refs w).1)
unfolding IsAlike
attach_references-with_handles t broker f a refs w = attach-Alike t broker f refs a [] [] w
