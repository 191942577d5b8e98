-- ===== src/Approval/Decided.antt =====
-- A local approval engine: where a decision comes from.
use task_fence.Prelude.{◌≡◌, refl, subst, ◌⊎◌, inl, inr, Option, none, some, arith}
use task_fence.Std.Map.{get}
use task_fence.Core.Error.{ok}
use task_fence.Core.Task.{ApprovalId}
use task_fence.Core.Action.{OffsetDateTime, ApprovalDecision, ApprovalRecord}
use task_fence.Core.Effect.{Effect, bind-eq-ok, pure, raise, gets, modify, ◌>>=◌}
use task_fence.Approval.{
  LocalApprovalEngine, Approvals, outside, resolve_decision, settle, answer, wait_pending,
  wait_found, wait,
}

module _ {W : Type 0} (new_id : Effect W ApprovalId) (now_utc : Effect W OffsetDateTime) where
  -- The record under the id had the decision already, or had none and the engine's mode gave it.
  abbrev Origin : LocalApprovalEngine W → ApprovalDecision → ApprovalRecord → Approvals W → Type 0
  Origin engine d stored s =
      (stored.decision ≡ some d)
      ⊎ ((stored.decision ≡ none) × ((resolve_decision engine stored s.world).0 ≡ ok d))

  settle-decision :
      (id : ApprovalId) (a : ApprovalDecision) (stored r : ApprovalRecord) (s : Approvals W)
      → (settle new_id now_utc id a stored none s).0 ≡ ok r
      → r.decision ≡ some a
  unfolding settle modify pure ◌>>=◌
  settle-decision id a stored r s h =
      let (at, _, k, _) = bind-eq-ok (outside now_utc) _ s h in ground (arith, k)

  answer-decision :
      (id : ApprovalId) (a : ApprovalDecision) (stored r : ApprovalRecord) (s : Approvals W)
      → stored.decision ≡ none
      → (answer new_id now_utc id a (some stored) s).0 ≡ ok r
      → r.decision ≡ some a
  unfolding answer
  answer-decision id a stored r s e h =
      settle-decision id a stored r s
        (subst (λ d. (settle new_id now_utc id a stored d s).0 ≡ ok r) e h)

  wait_pending-Origin :
      (engine : LocalApprovalEngine W) (id : ApprovalId) (stored : ApprovalRecord)
      (earlier : Option ApprovalDecision) (s : Approvals W) (r : ApprovalRecord)
      (d : ApprovalDecision)
      → get id s.records ≡ some stored
      → stored.decision ≡ earlier
      → (wait_pending new_id now_utc engine id stored earlier s).0 ≡ ok r
      → r.decision ≡ some d
      → Origin engine d stored s
  unfolding wait_pending pure gets outside ◌>>=◌
  wait_pending-Origin engine id stored (some x) s r d found e h k = inl (ground (arith, h, k))
  wait_pending-Origin engine id stored none s r d found e h k =
      let (a, got, h₁, _) = bind-eq-ok (outside (resolve_decision engine stored)) _ s h in
      let h₂ =
        subst
          (λ o.
            (answer new_id now_utc id a o (outside (resolve_decision engine stored) s).1).0 ≡ ok r)
          found h₁ in
      let same = answer-decision id a stored r _ e h₂ in inr (e, ground (arith, got, same, k))

  wait_found-Origin :
      (engine : LocalApprovalEngine W) (id : ApprovalId) (found : Option ApprovalRecord)
      (s : Approvals W) (r : ApprovalRecord) (d : ApprovalDecision)
      → get id s.records ≡ found
      → (wait_found new_id now_utc engine id found s).0 ≡ ok r
      → r.decision ≡ some d
      → (stored : ApprovalRecord) × (get id s.records ≡ some stored) × Origin engine d stored s
  unfolding wait_found raise
  wait_found-Origin engine id none s r d e h k = cc h
  wait_found-Origin engine id (some stored) s r d e h k =
      (stored, e, wait_pending-Origin engine id stored stored.decision s r d e refl h k)

  -- A decision that `wait` gives stood in the record before, or the record had none and the decision
  -- is what the engine's mode, or its prompt, gives for that very record.
  pub wait-decision :
      (engine : LocalApprovalEngine W) (id : ApprovalId) (s : Approvals W) (r : ApprovalRecord)
      (d : ApprovalDecision)
      → (wait new_id now_utc engine id s).0 ≡ ok r
      → r.decision ≡ some d
      → (stored : ApprovalRecord) × (get id s.records ≡ some stored)
        × ((stored.decision ≡ some d)
            ⊎ ((stored.decision ≡ none) × ((resolve_decision engine stored s.world).0 ≡ ok d)))
  unfolding wait gets ◌>>=◌
  wait-decision engine id s r d h k = wait_found-Origin engine id _ s r d refl h k
