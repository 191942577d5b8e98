-- ===== src/Gateway/Executor/Authorised.antt =====
-- What authorises a tool call that a gateway executes.
use task_fence.Prelude.{◌≡◌, refl, Option, none, some, List}
use task_fence.Core.Error.{ok}
use task_fence.Core.Task.{ResolvedTask}
use task_fence.Core.Action.{
  OffsetDateTime, tool_call, ActionDecision, allow, require_approval, deny, ApprovalDecision,
  approved, denied, timed_out, ToolAction, ApprovalRecord,
}
use task_fence.Core.Event.{AuditEvent, policy_decision, approval_resolved}
use task_fence.Gateway.Normalize.{normalize_tool_action}
use task_fence.Gateway.Mediator.{ApprovalEngine}
use task_fence.Gateway.Executor.{GatewayExecutor}
use task_fence.Gateway.Executor.Phases.{authorising, kind_of_answer, kind_of_decision, IsGatewayLog}
use task_fence.Gateway.Executor.Mediated.{MayClear}

answer_approved : (d : Option ApprovalDecision) → kind_of_answer d ≡ authorising → d ≡ some approved
answer_approved (some approved) h = refl
answer_approved (some denied) h = cc h
answer_approved (some timed_out) h = cc h
answer_approved none h = cc h

module _ {W : Type 0} (x : GatewayExecutor W) (t : ResolvedTask) (raw : ToolAction) where
  -- What the approval engine of the gateway gives for a request for the normalised call.
  abbrev pub IsAnswer : ApprovalRecord → Type 0
  IsAnswer answer =
      (action : ToolAction) × (normalize_tool_action raw ≡ ok action)
      × (engine : ApprovalEngine W) × (x.mediator.approval ≡ some engine)
      × (d : ActionDecision) × (asked : ApprovalRecord) × ((w : W) × ((engine.request t
              (tool_call action) d w).0
            ≡ ok asked))
      × ((w : W) × ((engine.wait asked.id w).0 ≡ ok answer))

  -- A decision of the policy to allow the normalised call, or an approval that was given to it.
  abbrev pub Authorises : AuditEvent → Type 0
  Authorises (policy_decision id at (tool_call action) (allow rule reason)) =
      (id ≡ t.id)
      × (normalize_tool_action raw ≡ ok action)
      × ((w : W) × ((x.mediator.evaluate t (tool_call action) w).0 ≡ ok (allow rule reason)))
  Authorises (approval_resolved answer) = (answer.decision ≡ some approved) × IsAnswer answer
  Authorises _ = ⊥

  decision-Authorises :
      (action : ToolAction) (at : OffsetDateTime) (d : ActionDecision) (w : W)
      → normalize_tool_action raw ≡ ok action
      → (x.mediator.evaluate t (tool_call action) w).0 ≡ ok d
      → kind_of_decision (tool_call action) d ≡ authorising
      → Authorises (policy_decision t.id at (tool_call action) d)
  decision-Authorises action at (allow rule reason) w normal given k = (refl, normal, (w, given))
  decision-Authorises action at (deny rule reason) w normal given k = cc k
  decision-Authorises action at (require_approval kind rule reason risk) w normal given k = cc k

  pub normal-MayClear :
      (log : W → List AuditEvent) (h : IsGatewayLog log x) (before : List AuditEvent)
      (action : ToolAction)
      → normalize_tool_action raw ≡ ok action
      → MayClear log x h Authorises before t action
  normal-MayClear log h before action normal = (
    λ d w given at f k. decision-Authorises action at d w normal given k,
    λ d engine configured asked answer w requested u answered f k. (
      answer_approved answer.decision k,
      (action, normal, engine, configured, d, asked, (w, requested), (u, answered)),
    ),
  )
