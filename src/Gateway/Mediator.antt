-- ===== src/Gateway/Mediator.antt =====
-- crates/taskfence-gateway/src/lib.rs: `GatewayMediator`, over any policy, audit logger, approval engine
-- and registry.
use task_fence.Prelude.{
  String, Bool, true, false, Option, none, some, List, [], ◌∷◌, any, ◌==◌, if◌then◌else◌,
}
use task_fence.Std.Format.{format}
use task_fence.Core.Error.{approval, gateway, unsupported}
use task_fence.Core.Task.{ApprovalId, ResolvedTask}
use task_fence.Core.Action.{
  OffsetDateTime, ToolAction, Action, tool_call, ActionDecision, allow, require_approval, deny,
  ApprovalDecision, approved, denied, timed_out, ApprovalRecord,
}
use task_fence.Core.Event.{
  AuditEvent, policy_decision, approval_requested, approval_resolved, error,
}
use task_fence.Core.Effect.{Effect, pure, raise, lift, ◌>>=◌, ◌>>◌}
use task_fence.Gateway.Normalize.{normalize_tool_action, from_action, display_name}

pub record ApprovalEngine (W : Type 0) : Type 0 where
  pub request : ResolvedTask → Action → ActionDecision → Effect W ApprovalRecord
  pub wait : ApprovalId → Effect W ApprovalRecord

-- With the clock.
pub record GatewayMediator (W : Type 0) : Type 0 where
  pub evaluate : ResolvedTask → Action → Effect W ActionDecision
  pub record_audit : AuditEvent → Effect W (Unit {0})
  pub approval : Option (ApprovalEngine W)
  pub registry : Option (ToolAction → Effect W Bool)
  pub supported_protocols : List String
  pub now_utc : Effect W OffsetDateTime

pub record GatewayMediation : Type 0 where
  pub action : ToolAction
  pub decision : ActionDecision
  pub approval : Option ApprovalRecord

module _ {W : Type 0} (m : GatewayMediator W) where
  -- The match on `resolved.decision`.
  abbrev pub check_resolved : ApprovalRecord → Option ApprovalDecision → Effect W ApprovalRecord
  check_resolved resolved (some approved) = pure resolved
  check_resolved resolved (some denied) =
      raise (approval "gateway tool approval denied or timed out")
  check_resolved resolved (some timed_out) =
      raise (approval "gateway tool approval denied or timed out")
  check_resolved resolved none = raise (approval "gateway tool approval denied or timed out")

  unfoldable pub request_approval_of :
      ApprovalEngine W → ResolvedTask → Action → ActionDecision → Effect W ApprovalRecord
  request_approval_of engine task action decision = do
    requested ← engine.request task action decision
    m.record_audit (approval_requested requested)
    resolved ← engine.wait requested.id
    m.record_audit (approval_resolved resolved)
    check_resolved resolved resolved.decision

  -- `request_tool_approval`, with the engine that `self.approval` holds.
  unfoldable pub request_tool_approval :
      Option (ApprovalEngine W) → ResolvedTask → Action → ActionDecision → Effect W ApprovalRecord
  unfolding request_approval_of
  request_tool_approval none task action decision =
      raise (approval "gateway approval engine is not configured")
  request_tool_approval (some engine) task action decision =
      request_approval_of engine task action decision

  -- A refusal with its audit event.
  unfoldable pub check_protocol : ResolvedTask → ToolAction → Effect W (Unit {0})
  check_protocol task action =
      if any (λ protocol. protocol == action.protocol) m.supported_protocols then pure tt else (do
        at ← m.now_utc
        let message = format ("gateway protocol '" ∷ action.protocol ∷ "' is not supported" ∷ [])
        m.record_audit (error task.id at message)
        raise (unsupported message))

  unfoldable pub refuse_unregistered : ResolvedTask → ToolAction → Bool → Effect W (Unit {0})
  refuse_unregistered task action true = pure tt
  refuse_unregistered task action false = do
    key ← lift (from_action action)
    at ← m.now_utc
    let message = format ("gateway tool action is not registered: " ∷ display_name key ∷ [])
    m.record_audit (error task.id at message)
    raise (gateway message)

  -- With the registry that `self.registry` holds.
  unfoldable pub check_registry :
      Option (ToolAction → Effect W Bool) → ResolvedTask → ToolAction → Effect W (Unit {0})
  unfolding refuse_unregistered
  check_registry none task action = pure tt
  check_registry (some contains) task action = do
    known ← contains action
    refuse_unregistered task action known

  -- The match on `self.approval` under `RequireApproval`.
  unfoldable pub ask :
      Option (ApprovalEngine W)
      → ResolvedTask
      → Action
      → ActionDecision
      → Effect W (Option ApprovalRecord)
  unfolding request_approval_of
  ask none task action decision = pure none
  ask (some engine) task action decision = do
    record_ ← request_approval_of engine task action decision
    pure (some record_)

  -- The match on the decision.
  unfoldable pub approval_of :
      ResolvedTask → Action → ActionDecision → Effect W (Option ApprovalRecord)
  unfolding ask
  approval_of task action (allow rule reason) = pure none
  approval_of task action (deny rule reason) = pure none
  approval_of task action (require_approval kind rule reason risk) =
      ask m.approval task action (require_approval kind rule reason risk)

  unfoldable pub mediate_tool_action : ResolvedTask → ToolAction → Effect W GatewayMediation
  unfolding check_protocol check_registry approval_of
  mediate_tool_action task raw = do
    action ← lift (normalize_tool_action raw)
    check_protocol task action
    check_registry m.registry task action
    decision ← m.evaluate task (tool_call action)
    at ← m.now_utc
    m.record_audit (policy_decision task.id at (tool_call action) decision)
    resolved ← approval_of task (tool_call action) decision
    pure (record { action = action; decision = decision; approval = resolved })
