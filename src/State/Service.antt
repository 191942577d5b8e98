-- ===== src/State/Service.antt =====
-- crates/taskfence-state/src/lib.rs: `TeamStateService`, over any backend. Artifacts and audit exports
-- are left out.
pub mod Guarded
use task_fence.Prelude.{String, Bool, Option, List}
use task_fence.Core.Error.{TaskFenceError, Result, ok, err, state}
use task_fence.Core.Task.{TaskId}
use task_fence.Core.Effect.{Effect, pure, raise, lift, ◌>>=◌, ◌>>◌}
use task_fence.State.Types.{
  TeamApiMethod, read, TeamApiResource, task_list, task_detail, TeamApiRequest, OrganizationPolicy,
  TeamAccessDecision, allow, deny, TeamTaskRecord, WorkerLease,
}
use task_fence.State.Access.{evaluate_team_access}

-- The operations of the trait `TeamStateBackend` that the service calls here. The organization comes first.
pub record TeamStateBackend (B : Type 0) : Type 0 where
  pub put_task : TeamTaskRecord → Effect B (Unit {0})
  pub get_task : String → TaskId → Effect B (Option TeamTaskRecord)
  pub list_tasks : String → Effect B (List TeamTaskRecord)
  pub enqueue_task : String → TaskId → Effect B WorkerLease
  pub lease_next : String → String → Effect B (Option WorkerLease)
  pub complete_task : String → TaskId → String → Effect B WorkerLease
  pub fail_task : String → TaskId → String → String → Effect B WorkerLease

-- The match on the access decision.
unfoldable pub require_access : TeamAccessDecision → Result (Unit {0})
require_access (allow role reason) = ok tt
require_access (deny reason) = err (state reason)

abbrev pub request_for :
    OrganizationPolicy → String → TeamApiMethod → TeamApiResource → TeamApiRequest
request_for policy actor method resource = record {
  organization = policy.organization;
  actor = actor;
  method = method;
  resource = resource;
}

module _ {B : Type 0} (debug : String → String) (policy : OrganizationPolicy)
    (backend : TeamStateBackend B) where
  unfoldable pub ensure_access : String → TeamApiMethod → TeamApiResource → Effect B (Unit {0})
  unfolding require_access
  ensure_access actor method resource = lift (
      require_access (evaluate_team_access debug policy (request_for policy actor method resource)))

  unfoldable pub put_task : String → TeamTaskRecord → Effect B (Unit {0})
  put_task actor task = do
    ensure_access actor TeamApiMethod.enqueue_task task_list
    backend.put_task task

  unfoldable pub list_tasks : String → Effect B (List TeamTaskRecord)
  list_tasks actor = do ensure_access actor read task_list; backend.list_tasks policy.organization

  unfoldable pub get_task : String → TaskId → Effect B (Option TeamTaskRecord)
  get_task actor task_id = do
    ensure_access actor read (task_detail task_id)
    backend.get_task policy.organization task_id

  unfoldable pub enqueue_task : String → TaskId → Effect B WorkerLease
  enqueue_task actor task_id = do
    ensure_access actor TeamApiMethod.enqueue_task task_list
    backend.enqueue_task policy.organization task_id

  unfoldable pub lease_next : String → String → Effect B (Option WorkerLease)
  lease_next actor worker_id = do
    ensure_access actor TeamApiMethod.enqueue_task task_list
    backend.lease_next policy.organization worker_id

  unfoldable pub complete_task : String → TaskId → String → Effect B WorkerLease
  complete_task actor task_id worker_id = do
    ensure_access actor TeamApiMethod.enqueue_task task_list
    backend.complete_task policy.organization task_id worker_id

  unfoldable pub fail_task : String → TaskId → String → String → Effect B WorkerLease
  fail_task actor task_id worker_id reason = do
    ensure_access actor TeamApiMethod.enqueue_task task_list
    backend.fail_task policy.organization task_id worker_id reason
