-- ===== src/Approval.antt =====
-- crates/taskfence-approval/src/lib.rs: `LocalApprovalEngine` and the reading of answers. The prompt, the
-- clock and the source of fresh ids are parameters.
pub mod Laws
pub mod Decided
pub mod Store
pub mod External
use task_fence.Prelude.{
  String, Bool, true, false, ◌||◌, Option, none, some, List, [], ◌∷◌, ◌==◌, if◌then◌else◌, ◌≡◌,
  refl,
}
use task_fence.Std.Text.{trim, to_ascii_lowercase}
use task_fence.Std.Format.{format}
use task_fence.Std.Map.{BTreeMap, get, insert}
use task_fence.Core.Error.{Result, ok, TaskFenceError, approval}
use task_fence.Core.Task.{ApprovalId, ResolvedTask}
use task_fence.Core.Action.{
  OffsetDateTime, Action, ActionDecision, ApprovalDecision, approved, denied, ApprovalRecord,
}
use task_fence.Core.Effect.{Effect, pure, raise, gets, modify, ◌>>=◌, ◌>>◌}

pub data LocalApprovalMode : Type 0 where
  preconfigured : ApprovalDecision → LocalApprovalMode
  timed_out interactive fail_closed : LocalApprovalMode

-- The engine without `records`, which stand in `Approvals`.
pub record LocalApprovalEngine (W : Type 0) : Type 0 where
  pub actor : String
  pub source : Option String
  pub mode : LocalApprovalMode
  pub prompt : Option (ApprovalRecord → Effect W ApprovalDecision)

-- The records of an engine, and the world.
pub record Approvals (W : Type 0) : Type 0 where
  pub records : BTreeMap ApprovalRecord
  pub world : W

unfoldable pub parse_approval_response : String → Option ApprovalDecision
parse_approval_response input =
    let answer = to_ascii_lowercase (trim input) in
    if answer == "approve" || answer == "approved" || answer == "yes" || answer == "y"
    then some approved
    else if answer == "deny" || answer == "denied" || answer == "no" || answer == "n"
    then some denied
    else none

module _ {W : Type 0} where
  -- A call out of the engine.
  unfoldable pub outside : {A : Type 0} → Effect W A → Effect (Approvals W) A
  outside m s = ((m s.world).0, record s { world = (m s.world).1 })

  abbrev pub resolve_interactive :
      Option (ApprovalRecord → Effect W ApprovalDecision)
      → ApprovalRecord
      → Effect W ApprovalDecision
  resolve_interactive none r = pure denied
  resolve_interactive (some prompt) r = prompt r

  abbrev pub resolve_mode :
      LocalApprovalMode
      → Option (ApprovalRecord → Effect W ApprovalDecision)
      → ApprovalRecord
      → Effect W ApprovalDecision
  resolve_mode (preconfigured decision) prompt r = pure decision
  resolve_mode timed_out prompt r = pure ApprovalDecision.timed_out
  resolve_mode interactive prompt r = resolve_interactive prompt r
  resolve_mode fail_closed prompt r = pure denied

  unfoldable pub resolve_decision :
      LocalApprovalEngine W → ApprovalRecord → Effect W ApprovalDecision
  resolve_decision engine r = resolve_mode engine.mode engine.prompt r

  abbrev pub store_record : ApprovalId → ApprovalRecord → Approvals W → Approvals W
  store_record id r s = record s { records = insert id r s.records }

  module _ (new_id : Effect W ApprovalId) (now_utc : Effect W OffsetDateTime) where
    unfoldable pub request :
        LocalApprovalEngine W
        → ResolvedTask
        → Action
        → ActionDecision
        → Effect (Approvals W) ApprovalRecord
    request engine task action decision = do
      id ← outside new_id
      requested_at ← outside now_utc
      let r : ApprovalRecord = record {
        id = id;
        task_id = task.id;
        actor = engine.actor;
        source = engine.source;
        requested_at = requested_at;
        resolved_at = none;
        action = action;
        policy_decision = decision;
        decision = none;
      }
      modify (store_record id r)
      pure r

    -- The `if record.decision.is_none()` of `wait`.
    unfoldable pub settle :
        ApprovalId
        → ApprovalDecision
        → ApprovalRecord
        → Option ApprovalDecision
        → Effect (Approvals W) ApprovalRecord
    settle id decision r (some earlier) = pure r
    settle id decision r none = do
      at ← outside now_utc
      let resolved : ApprovalRecord = record r { decision = some decision; resolved_at = some at }
      modify (store_record id resolved)
      pure resolved

    -- The end of `wait`, with the record that the second look-up finds.
    unfoldable pub answer :
        ApprovalId → ApprovalDecision → Option ApprovalRecord → Effect (Approvals W) ApprovalRecord
    unfolding settle
    answer id decision none = raise (approval (format ("unknown approval id " ∷ id ∷ [])))
    answer id decision (some r) = settle id decision r r.decision

    -- `wait` after the first look-up, with the decision of the record that it found.
    unfoldable pub wait_pending :
        LocalApprovalEngine W
        → ApprovalId
        → ApprovalRecord
        → Option ApprovalDecision
        → Effect (Approvals W) ApprovalRecord
    unfolding answer
    wait_pending engine id pending (some earlier) = pure pending
    wait_pending engine id pending none = do
      decision ← outside (resolve_decision engine pending)
      again ← gets (λ s. get id s.records)
      answer id decision again

    unfoldable pub wait_found :
        LocalApprovalEngine W
        → ApprovalId
        → Option ApprovalRecord
        → Effect (Approvals W) ApprovalRecord
    unfolding wait_pending
    wait_found engine id none = raise (approval (format ("unknown approval id " ∷ id ∷ [])))
    wait_found engine id (some pending) = wait_pending engine id pending pending.decision

    unfoldable pub wait : LocalApprovalEngine W → ApprovalId → Effect (Approvals W) ApprovalRecord
    unfolding wait_found
    wait engine id = do found ← gets (λ s. get id s.records); wait_found engine id found

parse_test : parse_approval_response " Yes " ≡ some approved
unfolding parse_approval_response to_ascii_lowercase trim
parse_test = refl
