-- ===== src/Tests/StateTests.antt =====
-- A team with one operator and one approver, and a queue of one task.
use task_fence.Prelude.{◌≡◌, refl, ◌↔◌, String, Bool, true, false, Option, none, some, [], ◌∷◌}
use task_fence.Core.Error.{ok, err, state}
use task_fence.Core.Effect.{Effect}
use task_fence.State.Service.{TeamStateBackend}
use task_fence.State.Service.Guarded.{TeamCommand, perform, perform-unchanged}
use task_fence.State.Types.{
  TeamApiRequest, resolve_approval, approval_detail, TeamRole, OrganizationPolicy, WorkerLeaseState,
  leased, completed, FileTeamState,
}
use task_fence.State.Access.{find_role, evaluate_team_access, evaluate_approval_resolution, is_deny}
use task_fence.State.Access.Laws.{
  is_entitled, evaluate_team_access-allow, evaluate_approval_resolution-allow,
}
use task_fence.State.Leases.{LocalTeamStateStore, leases_of}
use task_fence.Core.Task.{denied}
use task_fence.State.Label.{task_status_label, task_status_from_label, task_status_from_label-label}
use task_fence.State.Leases.Update.{state_of}
use task_fence.State.Leases.Moves.{
  next, complete, fail, serve, serve_all, can_move, serve-can_move, serve_all-finished,
}
use task_fence.Tests.Fixture.{approval}

abbrev policy : OrganizationPolicy
policy = record {
  organization = "acme";
  grants =
      record { actor = "ann"; role = TeamRole.approver }
      ∷ record { actor = "bob"; role = TeamRole.operator }
      ∷ [];
  require_approval_owner = true;
  allowed_artifact_roots = [];
}

abbrev quoted : String → String
quoted value = value

abbrev resolving : TeamApiRequest
resolving = record {
  organization = "acme";
  actor = "ann";
  method = resolve_approval;
  resource = approval_detail "a1";
}

evaluate_team_access-allow_example :
    (is_deny (evaluate_team_access quoted policy resolving) ≡ false) ↔ (
      (policy.organization ≡ resolving.organization)
      × ((role : TeamRole) × (find_role resolving.actor policy.grants ≡ some role)
          × (is_entitled role resolving.method resolving.resource ≡ true)))
evaluate_team_access-allow_example = evaluate_team_access-allow quoted policy resolving

evaluate_approval_resolution-allow_example :
    (is_deny (evaluate_approval_resolution quoted policy resolving (approval none)) ≡ false) ↔ (
      (resolving.method ≡ resolve_approval)
      × (resolving.resource ≡ approval_detail "a1")
      × (is_deny (evaluate_team_access quoted policy resolving) ≡ false)
      × (policy.require_approval_owner ≡ true → resolving.actor ≡ "ann")
      × ((approval none).decision ≡ none))
evaluate_approval_resolution-allow_example =
    evaluate_approval_resolution-allow quoted policy resolving (approval none)

-- The file is the world, and every write succeeds.
abbrev persist : FileTeamState → Effect (Option FileTeamState) (Unit {0})
persist saved file = (ok tt, some saved)

abbrev store : WorkerLeaseState → LocalTeamStateStore (Option FileTeamState)
store lease_state = record {
  policy = policy;
  state = record {
    tasks = [];
    leases = record { task_id = "t1"; organization = "acme"; state = lease_state } ∷ [];
    artifacts = [];
    audit_exports = [];
  };
  world = none;
}

serve-can_move_example :
    can_move (state_of "t1" (leases_of (store (leased "w1")))) (
      state_of "t1"
        (leases_of (serve quoted persist (complete "acme" "t1" "w1") (store (leased "w1")))))
    ≡ true
serve-can_move_example =
    serve-can_move quoted persist (complete "acme" "t1" "w1") "t1" (store (leased "w1"))

serve_all-finished_example :
    state_of "t1" (
      leases_of (
        serve_all quoted persist
          (next "acme" "w2" ∷ fail "acme" "t1" "w1" "late" ∷ [])
          (store completed)))
    ≡ some completed
serve_all-finished_example =
    serve_all-finished quoted persist (next "acme" "w2" ∷ fail "acme" "t1" "w1" "late" ∷ []) "t1"
      completed (store completed) refl refl

task_status_from_label-label_example :
    (task_status_from_label "denied" ≡ ok denied) ↔ ("denied" ≡ task_status_label denied)
task_status_from_label-label_example = task_status_from_label-label "denied" denied

-- A backend whose every call would set its flag.
abbrev changed : {A : Type 0} → Effect Bool A
changed b = (err (state "no value"), true)

abbrev backend : TeamStateBackend Bool
backend = record {
  put_task = λ task. changed;
  get_task = λ organization id. changed;
  list_tasks = λ organization. changed;
  enqueue_task = λ organization id. changed;
  lease_next = λ organization worker. changed;
  complete_task = λ organization id worker. changed;
  fail_task = λ organization id worker reason. changed;
}

perform-unchanged_example :
    perform quoted policy backend "ann" (TeamCommand.next "w1") false ≡ false
unfolding find_role
perform-unchanged_example =
    perform-unchanged quoted policy backend "ann" (TeamCommand.next "w1") false refl
