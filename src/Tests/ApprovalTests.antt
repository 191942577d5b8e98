-- ===== src/Tests/ApprovalTests.antt =====
-- An engine that fails closed, and one that is set to approve, with one pending record.
use task_fence.Prelude.{◌≡◌, ◌≢◌, refl, ◌⊎◌, none, some, [], ◌∷◌}
use task_fence.Std.Map.{get}
use task_fence.Core.Error.{ok}
use task_fence.Core.Action.{approved, denied, ApprovalRecord}
use task_fence.Core.Effect.{pure, gets, modify, ◌>>=◌}
use task_fence.Approval.{
  LocalApprovalEngine, LocalApprovalMode, preconfigured, fail_closed, Approvals, outside,
  resolve_decision, settle, answer, wait_pending, wait_found, wait,
}
use task_fence.Approval.Laws.{wait-final}
use task_fence.Approval.Decided.{wait-decision}
use task_fence.Tests.Fixture.{approval}

abbrev engine_of : LocalApprovalMode → LocalApprovalEngine (Unit {0})
engine_of mode = record { actor = "local"; source = none; mode = mode; prompt = none }

abbrev approvals : Approvals (Unit {0})
approvals = record { records = ("a1", approval none) ∷ []; world = tt }

-- The pending record, denied at time 7.
abbrev denied_record : ApprovalRecord
denied_record = record (approval none) { decision = some denied; resolved_at = some 7 }

waited : (wait (pure "a2") (pure 7) (engine_of fail_closed) "a1" approvals).0 ≡ ok denied_record
unfolding wait wait_found wait_pending answer settle get outside resolve_decision pure gets modify
    ◌>>=◌
waited = refl

wait-final_example :
    (denied_record.decision ≢ none)
    × (wait
          (pure "a2")
          (pure 7)
          (engine_of (preconfigured approved))
          "a1"
          (wait (pure "a2") (pure 7) (engine_of fail_closed) "a1" approvals).1
        ≡ (ok denied_record, (wait (pure "a2") (pure 7) (engine_of fail_closed) "a1" approvals).1))
wait-final_example =
    wait-final (pure "a2") (pure 7) (engine_of fail_closed) (engine_of (preconfigured approved))
      "a1" approvals denied_record waited

wait-decision_example :
    (stored : ApprovalRecord) × (get "a1" approvals.records ≡ some stored)
    × ((stored.decision ≡ some denied)
        ⊎ ((stored.decision ≡ none)
            × ((resolve_decision (engine_of fail_closed) stored tt).0 ≡ ok denied)))
wait-decision_example =
    wait-decision (pure "a2") (pure 7) (engine_of fail_closed) "a1" approvals denied_record denied
      waited refl
