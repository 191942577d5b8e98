-- ===== src/State/Access/Laws.antt =====
-- Team access as a matrix, and what a resolution of an approval needs.
use task_fence.Prelude.{
  String, ◌≡◌, ◌↔◌, refl, Bool, true, false, not, ◌&&◌, none, some, List, [], ◌∷◌, any,
  Option-cases, inl, inr, arith, eq_iff,
}
use task_fence.Core.Action.{ApprovalRecord}
use task_fence.State.Types.{
  TeamApiResource, task_list, task_artifacts, approvals, approval_detail, replay_inputs,
  audit_export, TeamApiMethod, read, resolve_approval, enqueue_task, write_artifact, export_audit,
  TeamApiRequest, TeamRole, viewer, approver, operator, auditor, admin, OrganizationPolicy,
}
use task_fence.State.Access.{
  method_matches_resource, role_allows, find_role, decide_role, evaluate_team_access, is_deny,
  names_approval, evaluate_approval_resolution,
}

-- The roles that may use a method on a resource, cell by cell.
abbrev pub entitled : TeamApiMethod → TeamApiResource → List TeamRole
entitled read audit_export = []
entitled read approvals = approver ∷ operator ∷ auditor ∷ admin ∷ []
entitled read (approval_detail id) = approver ∷ operator ∷ auditor ∷ admin ∷ []
entitled read (replay_inputs id) = viewer ∷ approver ∷ operator ∷ admin ∷ []
entitled read _ = viewer ∷ approver ∷ operator ∷ auditor ∷ admin ∷ []
entitled resolve_approval (approval_detail id) = approver ∷ operator ∷ admin ∷ []
entitled enqueue_task task_list = operator ∷ admin ∷ []
entitled write_artifact (task_artifacts id) = operator ∷ admin ∷ []
entitled export_audit audit_export = auditor ∷ admin ∷ []
entitled _ _ = []

abbrev pub same_role : TeamRole → TeamRole → Bool
same_role viewer viewer = true
same_role approver approver = true
same_role operator operator = true
same_role auditor auditor = true
same_role admin admin = true
same_role _ _ = false

abbrev pub is_entitled : TeamRole → TeamApiMethod → TeamApiResource → Bool
is_entitled role method resource = any (same_role role) (entitled method resource)

-- The two tests of the code together are the matrix.
matrix :
    (role : TeamRole) (method : TeamApiMethod) (resource : TeamApiResource)
    → (method_matches_resource method resource && role_allows role method resource)
      ≡ is_entitled role method resource
unfolding method_matches_resource role_allows
matrix viewer read task_list = refl
matrix _ _ _ = ground arith

names_approval_iff :
    (resource : TeamApiResource) (id : String)
    → (names_approval resource id ≡ true) ↔ (resource ≡ approval_detail id)
names_approval_iff (approval_detail x) id = ground (arith, eq_iff x id)
names_approval_iff _ id = ground arith

module _ (debug : String → String) where
  is_deny-decide_role :
      (role : TeamRole) (request : TeamApiRequest)
      → is_deny (decide_role debug role request)
        ≡ not (is_entitled role request.method request.resource)
  unfolding decide_role
  is_deny-decide_role role request = ground (arith, matrix role request.method request.resource)

  access_role :
      (policy : OrganizationPolicy) (request : TeamApiRequest)
      → is_deny (evaluate_team_access debug policy request) ≡ false
      → (role : TeamRole) × (find_role request.actor policy.grants ≡ some role)
        × (is_entitled role request.method request.resource ≡ true)
  unfolding evaluate_team_access
  access_role policy request h = elim (Option-cases (find_role request.actor policy.grants)) [
    | inl nobody ↦ absurd (ground (arith, nobody))
    | inr (role, found) ↦ (role, found, ground (arith, is_deny-decide_role role request))
  ]

  -- A request is allowed exactly when it is for the policy's organization and the actor's first grant
  -- has a role that the matrix names for the method and the resource.
  pub evaluate_team_access-allow :
      (policy : OrganizationPolicy) (request : TeamApiRequest)
      → (is_deny (evaluate_team_access debug policy request) ≡ false) ↔ (
          (policy.organization ≡ request.organization)
          × ((role : TeamRole) × (find_role request.actor policy.grants ≡ some role)
              × (is_entitled role request.method request.resource ≡ true)))
  unfolding evaluate_team_access
  evaluate_team_access-allow policy request =
      let same = eq_iff policy.organization request.organization in
      (
        λ h. (ground (arith, same), access_role policy request h),
        λ (org, who). ground (arith, same, is_deny-decide_role who.0 request),
      )

  -- An approval may be resolved exactly by a request to resolve that very approval, which is allowed,
  -- from the approval's owner where the policy asks for that, and while it is unresolved.
  pub evaluate_approval_resolution-allow :
      (policy : OrganizationPolicy) (request : TeamApiRequest) (r : ApprovalRecord)
      → (is_deny (evaluate_approval_resolution debug policy request r) ≡ false) ↔ (
          (request.method ≡ resolve_approval)
          × (request.resource ≡ approval_detail r.id)
          × (is_deny (evaluate_team_access debug policy request) ≡ false)
          × (policy.require_approval_owner ≡ true → request.actor ≡ r.actor)
          × (r.decision ≡ none))
  unfolding evaluate_approval_resolution
  evaluate_approval_resolution-allow policy request r =
      let owner = eq_iff request.actor r.actor in
      let named = names_approval_iff request.resource r.id in
      (
        λ h. (
          ground arith,
          ground (arith, named),
          ground arith,
          ground (arith, owner),
          ground arith,
        ),
        λ (m, x, a, own, d). ground (arith, owner, named),
      )
