-- ===== src/Approval/Store.antt =====
-- crates/taskfence-approval/src/lib.rs: `LocalApprovalStore`, a file for each approval. The files are
-- parameters.
pub mod Final
use Prim.Native.String.{[], ◌∷◌}
use task_fence.Prelude.{
  ℕ, String, Bool, false, ◌||◌, Option, none, some, List, ◌==◌, not, if◌then◌else◌,
}
use task_fence.Std.Text.{is_empty}
use task_fence.Std.Split.{is_char}
use task_fence.Std.Path.{join}
use task_fence.Std.Format.{format}
use task_fence.Core.Error.{Result, ok, err, approval}
use task_fence.Core.Task.{ApprovalId, Utf8PathBuf}
use task_fence.Core.Action.{OffsetDateTime, ApprovalDecision, ApprovalRecord}
use task_fence.Core.Effect.{Effect, pure, raise, lift, ◌>>=◌, ◌>>◌}
use task_fence.State.Validate.{is_unsafe_component}

-- Files, clocks and the terminal, for the store and the engine that polls it. `read_json` reads and parses a file, `write_json` makes the directory
-- and writes the file in one step; `debug` is what `{:?}` prints for a text.
pub record Outside (W : Type 0) : Type 0 where
  pub read_json : Utf8PathBuf → ApprovalId → Effect W ApprovalRecord
  pub write_json : Utf8PathBuf → ApprovalRecord → Effect W (Unit {0})
  pub now_utc : Effect W OffsetDateTime
  pub new_id : Effect W ApprovalId
  pub show_request : ApprovalRecord → Effect W (Unit {0})
  pub instant : W → ℕ
  pub sleep : ℕ → W → W
  pub debug : String → String

abbrev texts : String → String → String → List String
texts a b c = List.◌∷◌ a (List.◌∷◌ b (List.◌∷◌ c List.[]))

unfoldable pub approvals_dir : Utf8PathBuf → Utf8PathBuf
unfolding join
approvals_dir workspace = join (join workspace ".taskfence") "approvals"

module _ {W : Type 0} (o : Outside W) where
  unfoldable pub validate_approval_id_component : String → Result (Unit {0})
  validate_approval_id_component value =
      if is_unsafe_component value
      then err (
          approval (format (texts "approval id is not a safe path component: " (o.debug value) "")))
      else ok tt

  unfoldable pub approval_path : Utf8PathBuf → ApprovalId → Effect W Utf8PathBuf
  unfolding approvals_dir join
  approval_path workspace id = do
    lift (validate_approval_id_component id)
    pure (join (approvals_dir workspace) (format (texts id ".json" "")))

  unfoldable pub read_record_at : Utf8PathBuf → ApprovalId → Effect W ApprovalRecord
  read_record_at path id = do
    found ← o.read_json path id
    lift (validate_approval_id_component found.id)
    if not (found.id == id)
        then raise (
            approval (
              format (
                List.◌∷◌ "approval record id " (
                  List.◌∷◌ found.id (List.◌∷◌ " does not match path id " (texts id " at " path))))))
        else pure found

  unfoldable pub read : Utf8PathBuf → ApprovalId → Effect W ApprovalRecord
  unfolding read_record_at
  read workspace id = do path ← approval_path workspace id; read_record_at path id

  unfoldable pub write_record : Utf8PathBuf → ApprovalRecord → Effect W Utf8PathBuf
  write_record workspace r = do path ← approval_path workspace r.id; o.write_json path r; pure path

  abbrev already_resolved : {A : Type 0} → ApprovalId → Effect W A
  already_resolved id = raise (approval (format (texts "approval " id " is already resolved")))

  -- With the decision of the record.
  unfoldable pub write_undecided :
      Utf8PathBuf → ApprovalRecord → Option ApprovalDecision → Effect W Utf8PathBuf
  unfolding write_record
  write_undecided workspace r (some decision) = already_resolved r.id
  write_undecided workspace r none = write_record workspace r

  unfoldable pub write_pending : Utf8PathBuf → ApprovalRecord → Effect W Utf8PathBuf
  unfolding write_undecided
  write_pending workspace r = write_undecided workspace r r.decision

  -- The rest of `resolve_with_actor`, with the record that was read and its decision.
  unfoldable pub resolve_read :
      Utf8PathBuf
      → ApprovalId
      → ApprovalDecision
      → String
      → Option String
      → ApprovalRecord
      → Option ApprovalDecision
      → Effect W ApprovalRecord
  unfolding write_record
  resolve_read workspace id decision actor source r (some earlier) = already_resolved id
  resolve_read workspace id decision actor source r none = do
    at ← o.now_utc
    let resolved : ApprovalRecord = record r {
      actor = actor;
      source = source;
      decision = some decision;
      resolved_at = some at;
    }
    write_record workspace resolved
    pure resolved

  unfoldable pub resolve_with_actor :
      Utf8PathBuf → ApprovalId → ApprovalDecision → String → Option String → Effect W ApprovalRecord
  unfolding read resolve_read
  resolve_with_actor workspace id decision actor source = do
    r ← read workspace id
    resolve_read workspace id decision actor source r r.decision

  unfoldable pub resolve : Utf8PathBuf → ApprovalId → ApprovalDecision → Effect W ApprovalRecord
  unfolding resolve_with_actor
  resolve workspace id decision = resolve_with_actor workspace id decision "local-cli" (some "cli")
