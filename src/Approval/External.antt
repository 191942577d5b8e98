-- ===== src/Approval/External.antt =====
-- crates/taskfence-approval/src/lib.rs: `LocalExternalApprovalEngine`, which polls the store until another
-- process has decided. Durations are milliseconds. The loop of `wait` runs on fuel, one unit for each poll.
pub mod Returns
use task_fence.Prelude.{
  ℕ, zero, suc, ◌+◌, ◌*◌, ◌-◌, String, Bool, true, false, Option, none, some, List, [], ◌∷◌, ltb,
  leb, if◌then◌else◌,
}
use task_fence.Std.Map.{BTreeMap, get, insert}
use task_fence.Core.Error.{Result, ok, err, TaskFenceError, approval}
use task_fence.Core.Task.{ApprovalId, ResolvedTask, Utf8PathBuf}
use task_fence.Core.Action.{
  OffsetDateTime, Action, ActionDecision, ApprovalDecision, timed_out, ApprovalRecord,
}
use task_fence.Core.Effect.{Effect, pure, raise, lift, gets, modify, attempt, ◌>>=◌, ◌>>◌}
use task_fence.Approval.Store.{Outside, read, write_pending, resolve_with_actor}

-- The engine without `timeouts`, which stand in `Timeouts`.
pub record LocalExternalApprovalEngine : Type 0 where
  pub actor : String
  pub source : Option String
  pub workspace : Utf8PathBuf
  pub timeout_override : Option ℕ
  pub poll_interval : ℕ
  pub announce : Bool

-- The timeouts behind their mutex, and the world.
pub record Timeouts (W : Type 0) : Type 0 where
  pub timeouts : BTreeMap ℕ
  pub poisoned : Bool
  pub world : W

abbrev pub default_timeout : ℕ
default_timeout = 3600000

abbrev pub or_default : Option ℕ → ℕ
or_default none = default_timeout
or_default (some timeout) = timeout

-- `minutes.saturating_mul(60)` of a `u64`, as a duration.
abbrev minutes_timeout : Option ℕ → ℕ
minutes_timeout none = default_timeout
minutes_timeout (some minutes) =
    if ltb 18446744073709551615 (minutes * 60)
    then 18446744073709551615 * 1000
    else minutes * 60 * 1000

abbrev overridden : Option ℕ → ℕ → ℕ
overridden none timeout = timeout
overridden (some given) timeout = given

unfoldable pub timeout_for : LocalExternalApprovalEngine → ResolvedTask → ℕ
timeout_for engine task =
    overridden engine.timeout_override (minutes_timeout task.approval.timeout_minutes)

module _ {W : Type 0} where
  -- `self.timeouts.lock()`
  unfoldable pub lock_timeouts : Effect (Timeouts W) (BTreeMap ℕ)
  lock_timeouts = gets (λ s. s) >>= λ s.
      if s.poisoned
      then raise (approval "external approval timeout store is poisoned")
      else pure s.timeouts

  unfoldable pub remember_timeout : ApprovalId → ℕ → Effect (Timeouts W) (Unit {0})
  unfolding lock_timeouts
  remember_timeout id timeout = do
    lock_timeouts
    modify (λ s. record s { timeouts = insert id timeout s.timeouts })

  unfoldable pub timeout_for_approval : ApprovalId → Effect (Timeouts W) ℕ
  unfolding lock_timeouts
  timeout_for_approval id = do timeouts ← lock_timeouts; pure (or_default (get id timeouts))

  -- A call that leaves the timeouts alone.
  unfoldable pub outside : {A : Type 0} → Effect W A → Effect (Timeouts W) A
  outside m s = ((m s.world).0, record s { world = (m s.world).1 })

module _ {W : Type 0} (o : Outside W) (engine : LocalExternalApprovalEngine) where
  unfoldable pub announce_request : ApprovalRecord → Effect W (Unit {0})
  announce_request r = if engine.announce then o.show_request r else pure tt

  unfoldable pub request :
      ResolvedTask → Action → ActionDecision → Effect (Timeouts W) ApprovalRecord
  unfolding remember_timeout announce_request
  request task action decision = do
    id ← outside o.new_id
    requested_at ← outside o.now_utc
    let r : ApprovalRecord = record {
      id = id;
      task_id = task.id;
      actor = engine.actor;
      source = engine.source;
      requested_at = requested_at;
      resolved_at = none;
      action = action;
      policy_decision = decision;
      decision = none;
    }
    outside (write_pending o engine.workspace r)
    remember_timeout id (timeout_for engine task)
    outside (announce_request r)
    pure r

  -- The record that is read after a resolution has failed, with its decision.
  unfoldable pub resolved_meanwhile :
      TaskFenceError → ApprovalRecord → Option ApprovalDecision → Effect W ApprovalRecord
  resolved_meanwhile e current (some decision) = pure current
  resolved_meanwhile e current none = raise e

  -- The match on `resolve_with_actor`.
  unfoldable pub after_resolve : ApprovalId → Result ApprovalRecord → Effect W ApprovalRecord
  unfolding resolved_meanwhile
  after_resolve id (ok r) = pure r
  after_resolve id (err e) = do
    current ← read o engine.workspace id
    resolved_meanwhile e current current.decision

  -- The return at the end of the time.
  unfoldable pub expire : ApprovalId → Effect W ApprovalRecord
  unfolding after_resolve
  expire id = do
    resolved ←
        attempt (
          resolve_with_actor o engine.workspace id timed_out engine.actor (some "external-timeout"))
    after_resolve id resolved

  module _ (id : ApprovalId) (timeout started : ℕ) where
    -- A round after the read, with the decision of the record; `again` is the next round.
    unfoldable pub after_read :
        (W → Option (Result ApprovalRecord × W))
        → ApprovalRecord
        → Option ApprovalDecision
        → W
        → Option (Result ApprovalRecord × W)
    unfolding expire
    after_read again r (some decision) w = some (ok r, w)
    after_read again r none w =
        if leb timeout (o.instant w - started)
        then some (expire id w)
        else again (o.sleep engine.poll_interval w)

    unfoldable pub round :
        (W → Option (Result ApprovalRecord × W))
        → Result ApprovalRecord
        → W
        → Option (Result ApprovalRecord × W)
    unfolding after_read
    round again (err e) w = some (err e, w)
    round again (ok r) w = after_read again r r.decision w

    -- The loop.
    unfoldable pub polls : ℕ → W → Option (Result ApprovalRecord × W)
    unfolding round
    polls zero w = none
    polls (suc fuel) w =
        round (polls fuel) (read o engine.workspace id w).0 (read o engine.workspace id w).1

  -- What the loop gives, beside the timeouts.
  abbrev pub beside :
      Timeouts W → Option (Result ApprovalRecord × W) → Option (Result ApprovalRecord × Timeouts W)
  beside s none = none
  beside s (some (r, w)) = some (r, record s { world = w })

  unfoldable pub wait_until :
      ℕ → ApprovalId → Result ℕ → Timeouts W → Option (Result ApprovalRecord × Timeouts W)
  unfolding polls
  wait_until fuel id (err e) s = some (err e, s)
  wait_until fuel id (ok timeout) s = beside s (polls id timeout (o.instant s.world) fuel s.world)

  unfoldable pub wait : ℕ → ApprovalId → Timeouts W → Option (Result ApprovalRecord × Timeouts W)
  unfolding timeout_for_approval wait_until
  wait fuel id s = wait_until fuel id (timeout_for_approval id s).0 (timeout_for_approval id s).1
