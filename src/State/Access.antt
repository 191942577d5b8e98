-- ===== src/State/Access.antt =====
-- crates/taskfence-state/src/lib.rs: role-based access of a team, and who may resolve an approval.
-- `debug` is what `{:?}` prints for a text.
pub mod Laws
use task_fence.Prelude.{
  String, Bool, true, false, not, ◌&&◌, ◌||◌, Option, none, some, List, [], ◌∷◌, ◌==◌,
  if◌then◌else◌,
}
use task_fence.Std.Format.{format}
use task_fence.Core.Action.{ApprovalRecord}
use task_fence.Core.Orchestrator.{is_some}
use task_fence.State.Types.{
  TeamApiResource, task_list, task_detail, task_events, task_logs, task_diff, task_report,
  task_artifacts, approvals, approval_detail, replay_inputs, audit_export, TeamApiMethod, read,
  resolve_approval, enqueue_task, write_artifact, export_audit, TeamApiRequest, TeamRole, viewer,
  approver, operator, auditor, admin, RbacGrant, OrganizationPolicy, TeamAccessDecision, allow,
  deny,
}

abbrev is_audit_export : TeamApiResource → Bool
is_audit_export audit_export = true
is_audit_export _ = false

abbrev is_approval_detail : TeamApiResource → Bool
is_approval_detail (approval_detail id) = true
is_approval_detail _ = false

abbrev is_task_list : TeamApiResource → Bool
is_task_list task_list = true
is_task_list _ = false

abbrev is_task_artifacts : TeamApiResource → Bool
is_task_artifacts (task_artifacts id) = true
is_task_artifacts _ = false

abbrev is_replay_inputs : TeamApiResource → Bool
is_replay_inputs (replay_inputs id) = true
is_replay_inputs _ = false

abbrev is_read : TeamApiMethod → Bool
is_read read = true
is_read _ = false

abbrev pub is_resolve_approval : TeamApiMethod → Bool
is_resolve_approval resolve_approval = true
is_resolve_approval _ = false

-- The resources that a viewer reads.
abbrev viewer_reads : TeamApiResource → Bool
viewer_reads approvals = false
viewer_reads (approval_detail id) = false
viewer_reads audit_export = false
viewer_reads _ = true

-- The resources that an approver reads.
abbrev approver_reads : TeamApiResource → Bool
approver_reads audit_export = false
approver_reads _ = true

unfoldable pub method_matches_resource : TeamApiMethod → TeamApiResource → Bool
method_matches_resource read resource = not (is_audit_export resource)
method_matches_resource resolve_approval resource = is_approval_detail resource
method_matches_resource enqueue_task resource = is_task_list resource
method_matches_resource write_artifact resource = is_task_artifacts resource
method_matches_resource export_audit resource = is_audit_export resource

unfoldable pub role_allows : TeamRole → TeamApiMethod → TeamApiResource → Bool
role_allows admin method resource = true
role_allows viewer method resource = is_read method && viewer_reads resource
role_allows approver read resource = approver_reads resource
role_allows approver resolve_approval resource = true
role_allows approver _ resource = false
role_allows operator read resource = not (is_audit_export resource)
role_allows operator export_audit resource = false
role_allows operator _ resource = true
role_allows auditor read resource = not (is_replay_inputs resource)
role_allows auditor export_audit resource = is_audit_export resource
role_allows auditor _ resource = false

debug_method : TeamApiMethod → String
debug_method read = "Read"
debug_method resolve_approval = "ResolveApproval"
debug_method enqueue_task = "EnqueueTask"
debug_method write_artifact = "WriteArtifact"
debug_method export_audit = "ExportAudit"

debug_role : TeamRole → String
debug_role viewer = "Viewer"
debug_role approver = "Approver"
debug_role operator = "Operator"
debug_role auditor = "Auditor"
debug_role admin = "Admin"

-- `iter().find(|grant| grant.actor == request.actor).map(|grant| grant.role)`
unfoldable pub find_role : String → List RbacGrant → Option TeamRole
find_role actor [] = none
find_role actor (grant ∷ grants) =
    if grant.actor == actor then some grant.role else find_role actor grants

abbrev pub is_deny : TeamAccessDecision → Bool
is_deny (deny reason) = true
is_deny (allow role reason) = false

-- `matches!(&request.resource, ApprovalDetail(approval_id) if approval_id == &record.id)`
abbrev pub names_approval : TeamApiResource → String → Bool
names_approval (approval_detail approval_id) id = approval_id == id
names_approval _ id = false

module _ (debug : String → String) where
  debug_id : String → String → String → String
  debug_id variant wrapper id = format (variant ∷ "(" ∷ wrapper ∷ "(" ∷ debug id ∷ "))" ∷ [])

  debug_resource : TeamApiResource → String
  unfolding debug_id
  debug_resource task_list = "TaskList"
  debug_resource (task_detail id) = debug_id "TaskDetail" "TaskId" id
  debug_resource (task_events id) = debug_id "TaskEvents" "TaskId" id
  debug_resource (task_logs id) = debug_id "TaskLogs" "TaskId" id
  debug_resource (task_diff id) = debug_id "TaskDiff" "TaskId" id
  debug_resource (task_report id) = debug_id "TaskReport" "TaskId" id
  debug_resource (task_artifacts id) = debug_id "TaskArtifacts" "TaskId" id
  debug_resource approvals = "Approvals"
  debug_resource (approval_detail id) = debug_id "ApprovalDetail" "ApprovalId" id
  debug_resource (replay_inputs id) = debug_id "ReplayInputs" "TaskId" id
  debug_resource audit_export = "AuditExport"

  pub decide_role : TeamRole → TeamApiRequest → TeamAccessDecision
  unfolding debug_method debug_role debug_resource
  decide_role role request =
      if not (method_matches_resource request.method request.resource)
      then deny (
          format (
            "method "
            ∷ debug_method request.method
            ∷ " is not valid for resource "
            ∷ debug_resource request.resource
            ∷ []))
      else if role_allows role request.method request.resource
      then allow role "role permits resource action"
      else deny (
          format
            ("role " ∷ debug_role role ∷ " does not permit " ∷ debug_method request.method ∷ []))

  unfoldable pub evaluate_team_access : OrganizationPolicy → TeamApiRequest → TeamAccessDecision
  unfolding decide_role
  evaluate_team_access policy request =
      if not (policy.organization == request.organization)
      then deny "request organization does not match policy"
      else elim (find_role request.actor policy.grants) [
        | none ↦ deny "actor has no organization role"
        | some role ↦ decide_role role request
      ]

  unfoldable pub evaluate_approval_resolution :
      OrganizationPolicy → TeamApiRequest → ApprovalRecord → TeamAccessDecision
  evaluate_approval_resolution policy request r =
      let access = evaluate_team_access policy request in
      if not (is_resolve_approval request.method)
      then deny "request method is not approval resolution"
      else if not (names_approval request.resource r.id)
      then deny "approval request resource does not match approval record"
      else if is_deny access
      then access
      else if policy.require_approval_owner && not (request.actor == r.actor)
      then deny
          (format ("approval " ∷ r.id ∷ " is owned by " ∷ r.actor ∷ ", not " ∷ request.actor ∷ []))
      else if is_some r.decision
      then deny (format ("approval " ∷ r.id ∷ " is already resolved" ∷ []))
      else access
