-- ===== src/State/Service/Guarded.antt =====
-- Only the actors that the policy names reach the backend of a team's state.
use task_fence.Prelude.{
  String, ◌≡◌, refl, Bool, true, false, Option, some, arith, Bool-cases, inl, inr,
}
use task_fence.Core.Task.{TaskId}
use task_fence.Core.Effect.{Effect, proceed, lift, ◌>>=◌, ◌>>◌}
use task_fence.State.Types.{
  TeamApiMethod, task_list, TeamRole, viewer, operator, admin, OrganizationPolicy,
  TeamAccessDecision, allow, deny, TeamTaskRecord,
}
use task_fence.State.Access.{evaluate_team_access, is_deny, find_role}
use task_fence.State.Access.Laws.{evaluate_team_access-allow, is_entitled}
use task_fence.State.Service.{
  TeamStateBackend, require_access, request_for, ensure_access, put_task, enqueue_task, lease_next,
  complete_task, fail_task,
}

-- The requests that may change a team's tasks and leases.
pub data TeamCommand : Type 0 where
  put : TeamTaskRecord → TeamCommand
  enqueue : TaskId → TeamCommand
  next : String → TeamCommand
  complete : TaskId → String → TeamCommand
  fail : TaskId → String → String → TeamCommand

abbrev pub is_manager : Option TeamRole → Bool
is_manager (some operator) = true
is_manager (some admin) = true
is_manager _ = false

module _ {B : Type 0} (debug : String → String) (policy : OrganizationPolicy)
    (backend : TeamStateBackend B) where
  -- The backend after a request.
  abbrev pub perform : String → TeamCommand → B → B
  perform actor (put task) b = (put_task debug policy backend actor task b).1
  perform actor (enqueue task_id) b = (enqueue_task debug policy backend actor task_id b).1
  perform actor (next worker_id) b = (lease_next debug policy backend actor worker_id b).1
  perform actor (complete task_id worker_id) b =
      (complete_task debug policy backend actor task_id worker_id b).1
  perform actor (fail task_id worker_id reason) b =
      (fail_task debug policy backend actor task_id worker_id reason b).1

  refused_decision :
      (d : TeamAccessDecision) {A : Type 0} (m : Effect B A) (b : B)
      → is_deny d ≡ true
      → ((lift (require_access d) >> m) b).1 ≡ b
  unfolding require_access lift ◌>>=◌ proceed
  refused_decision (deny reason) m b h = refl
  refused_decision (allow role reason) m b h = cc h

  entitled_manages :
      (role : TeamRole)
      → is_entitled role TeamApiMethod.enqueue_task task_list ≡ true
      → is_manager (some role) ≡ true
  entitled_manages viewer h = cc h
  entitled_manages _ h = ground arith

  managers_only :
      (actor : String)
      → is_manager (find_role actor policy.grants) ≡ false
      → is_deny (
          evaluate_team_access debug policy
            (request_for policy actor TeamApiMethod.enqueue_task task_list))
        ≡ true
  managers_only actor h =
      elim (Bool-cases (
        is_deny (
          evaluate_team_access debug policy
            (request_for policy actor TeamApiMethod.enqueue_task task_list)))) [
              | inl denied ↦ denied
              | inr allowed ↦
                  let (_, (role, found, entitled)) =
                    (evaluate_team_access-allow debug policy
                        (request_for policy actor TeamApiMethod.enqueue_task task_list)).0
                      allowed in
                  absurd (ground (arith, found, h, entitled_manages role entitled))
            ]

  refused :
      {A : Type 0} (actor : String) (m : Effect B A) (b : B)
      → is_manager (find_role actor policy.grants) ≡ false
      → ((ensure_access debug policy backend actor TeamApiMethod.enqueue_task task_list >> m) b).1
        ≡ b
  unfolding ensure_access
  refused actor m b h = refused_decision _ m b (managers_only actor h)

  -- A request of an actor whose first grant is not the role of an operator or of an admin, or who has no
  -- grant, leaves the tasks and the leases as they are, whatever the backend.
  pub perform-unchanged :
      (actor : String) (command : TeamCommand) (b : B)
      → is_manager (find_role actor policy.grants) ≡ false
      → perform actor command b ≡ b
  unfolding put_task enqueue_task lease_next complete_task fail_task
  perform-unchanged actor (put task) b h = refused actor _ b h
  perform-unchanged actor (enqueue task_id) b h = refused actor _ b h
  perform-unchanged actor (next worker_id) b h = refused actor _ b h
  perform-unchanged actor (complete task_id worker_id) b h = refused actor _ b h
  perform-unchanged actor (fail task_id worker_id reason) b h = refused actor _ b h
