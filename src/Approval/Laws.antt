-- ===== src/Approval/Laws.antt =====
-- A local approval engine: what `wait` gives, and that a decision is final.
use task_fence.Prelude.{◌≡◌, ◌≢◌, refl, subst, Option, none, some}
use task_fence.Std.Map.{get, get-insert}
use task_fence.Core.Error.{Result, ok, err}
use task_fence.Core.Task.{ApprovalId}
use task_fence.Core.Action.{OffsetDateTime, ApprovalDecision, ApprovalRecord}
use task_fence.Core.Effect.{Effect, Ensures, Ensures-bind, pure, raise, gets, modify, ◌>>=◌, ◌>>◌}
use task_fence.Approval.{
  LocalApprovalEngine, Approvals, store_record, settle, answer, wait_pending, wait_found, wait,
}

module _ {W : Type 0} (new_id : Effect W ApprovalId) (now_utc : Effect W OffsetDateTime) where
  -- The record stands under the id, with a decision.
  pub record IsSettled (id : ApprovalId) (r : ApprovalRecord) (s : Approvals W) : Type 0 where
    pub found : get id s.records ≡ some r
    pub decided : r.decision ≢ none

  -- What `wait` leaves.
  abbrev Settles : ApprovalId → Result ApprovalRecord → Approvals W → Type 0
  Settles id (ok r) s = IsSettled id r s
  Settles id (err e) s = Unit {0}

  settled_at :
      (id : ApprovalId) (d : ApprovalDecision) (r : ApprovalRecord) (at : OffsetDateTime)
      → Ensures
          (λ s. Unit {0})
          (modify (store_record id (record r { decision = some d; resolved_at = some at }))
            >> pure (record r { decision = some d; resolved_at = some at }))
          (Settles id)
  unfolding modify pure ◌>>=◌
  settled_at id d r at s _ = record { found = get-insert id _ s.records; decided = λ k. cc k }

  settle-Settles :
      (id : ApprovalId) (d : ApprovalDecision) (r : ApprovalRecord)
      (earlier : Option ApprovalDecision)
      → r.decision ≡ earlier
      → Ensures (λ s. get id s.records ≡ some r) (settle new_id now_utc id d r earlier) (Settles id)
  unfolding settle pure
  settle-Settles id d r (some x) e = λ s found. record { found = found; decided = λ k. cc (k, e) }
  settle-Settles id d r none e =
      Ensures-bind _ (λ _ _. Unit {0}) (Settles id) _ _ (λ s _. tt) (settled_at id d r)
        (λ f s _. tt)

  answer-Settles :
      (id : ApprovalId) (d : ApprovalDecision) (found : Option ApprovalRecord)
      → Ensures (λ s. get id s.records ≡ found) (answer new_id now_utc id d found) (Settles id)
  unfolding answer raise
  answer-Settles id d none s e = tt
  answer-Settles id d (some r) s e = settle-Settles id d r r.decision refl s e

  wait_pending-Settles :
      (engine : LocalApprovalEngine W) (id : ApprovalId) (r : ApprovalRecord)
      (earlier : Option ApprovalDecision)
      → r.decision ≡ earlier
      → Ensures
          (λ s. get id s.records ≡ some r)
          (wait_pending new_id now_utc engine id r earlier)
          (Settles id)
  unfolding wait_pending pure gets ◌>>=◌
  wait_pending-Settles engine id r (some x) e =
      λ s found. record { found = found; decided = λ k. cc (k, e) }
  wait_pending-Settles engine id r none e =
      Ensures-bind _ (λ _ _. Unit {0}) (Settles id) _ _ (λ s _. tt)
        (λ d s _. answer-Settles id d _ s refl) (λ f s _. tt)

  wait_found-Settles :
      (engine : LocalApprovalEngine W) (id : ApprovalId) (found : Option ApprovalRecord)
      → Ensures
          (λ s. get id s.records ≡ found)
          (wait_found new_id now_utc engine id found)
          (Settles id)
  unfolding wait_found raise
  wait_found-Settles engine id none s e = tt
  wait_found-Settles engine id (some r) s e = wait_pending-Settles engine id r r.decision refl s e

  wait-Settles :
      (engine : LocalApprovalEngine W) (id : ApprovalId) (s : Approvals W)
      → Settles id (wait new_id now_utc engine id s).0 (wait new_id now_utc engine id s).1
  unfolding wait gets ◌>>=◌
  wait-Settles engine id s = wait_found-Settles engine id _ s refl

  settled_stays :
      (engine : LocalApprovalEngine W) (id : ApprovalId) (r : ApprovalRecord)
      (d : Option ApprovalDecision) (s : Approvals W)
      → r.decision ≡ d
      → IsSettled id r s
      → wait new_id now_utc engine id s ≡ (ok r, s)
  unfolding wait wait_found wait_pending gets pure ◌>>=◌
  settled_stays engine id r (some x) s e h = rw (h.found, e) refl
  settled_stays engine id r none s e h = absurd (h.decided e)

  by_result :
      (id : ApprovalId) (result : Result ApprovalRecord) (s : Approvals W) (r : ApprovalRecord)
      → Settles id result s
      → result ≡ ok r
      → IsSettled id r s
  by_result id result s r h e = subst (λ x. Settles id x s) e h

  -- A record that `wait` gives has a decision, and waiting for it again, with whatever engine mode and
  -- prompt, gives the same record and changes nothing.
  pub wait-final :
      (engine later : LocalApprovalEngine W) (id : ApprovalId) (s : Approvals W)
      (r : ApprovalRecord)
      → (wait new_id now_utc engine id s).0 ≡ ok r
      → (r.decision ≢ none)
        × (wait new_id now_utc later id (wait new_id now_utc engine id s).1
            ≡ (ok r, (wait new_id now_utc engine id s).1))
  wait-final engine later id s r h =
      let k = by_result id _ _ r (wait-Settles engine id s) h in
      (k.decided, settled_stays later id r r.decision _ refl k)
