-- ===== src/Policy/Evaluate.antt =====
-- crates/taskfence-policy/src/lib.rs: `BuiltInPolicyEngine::evaluate`.
use task_fence.Prelude.{
  ℕ, String, Bool, not, ◌&&◌, Option, none, some, List, [], ◌∷◌, any, ltb, ◌==◌, if◌then◌else◌,
}
use task_fence.Std.Text.{trim, to_ascii_lowercase, is_empty}
use task_fence.Std.Format.{format}
use task_fence.Std.Path.{path_starts_with}
use task_fence.Core.Error.{Result, ok, ◌>>=◌}
use task_fence.Core.Task.{ResolvedTask, NetworkDefault, BudgetLimit, SecretGrant}
use task_fence.Core.Action.{
  Action, file_read, file_write, command, network, env_expose, secret_access, tool_call, budget,
  ActionDecision, RiskLevel, CommandAction,
}
use task_fence.Policy.Matching.{GlobResult, MatchDecision, matches_any_candidate, first_match}
use task_fence.Policy.Candidates.{command_match_candidates}

abbrev pub allow : String → Result ActionDecision
allow reason = ok (ActionDecision.allow none reason)

abbrev pub deny : String → Result ActionDecision
deny reason = ok (ActionDecision.deny none reason)

abbrev pub require_approval : String → String → RiskLevel → Result ActionDecision
require_approval approval_kind reason risk =
    ok (ActionDecision.require_approval approval_kind none reason risk)

-- `iter().find(|limit| limit.kind == kind)`
unfoldable pub find_limit : String → List BudgetLimit → Option BudgetLimit
find_limit kind [] = none
find_limit kind (limit ∷ limits) = if limit.kind == kind then some limit else find_limit kind limits

unfoldable pub evaluate_budget : ResolvedTask → String → ℕ → Result ActionDecision
evaluate_budget task kind_text amount =
    let kind = to_ascii_lowercase (trim kind_text) in
    if is_empty kind
    then deny "budget kind is empty"
    else elim (find_limit kind task.permissions.budget.allow) [
      | none ↦ deny "budget kind is not allowed"
      | some limit ↦
          if ltb limit.max_amount amount
          then deny "budget amount exceeds configured limit"
          else allow "budget action matched configured limit"
    ]

-- The grants of `secrets.available_to_gateway` that name the secret and its scope.
abbrev pub grants : String → String → SecretGrant → Bool
grants name scope grant = grant.name == name && any (λ allowed. allowed == scope) grant.use_for

abbrev pub command_decision : MatchDecision → Result ActionDecision
command_decision MatchDecision.deny = deny "command matched deny rule"
command_decision MatchDecision.approval =
    require_approval "command" "command matched approval rule" RiskLevel.high
command_decision MatchDecision.allow = allow "command matched allow rule"
command_decision MatchDecision.no_match = deny "command did not match policy"

abbrev pub tool_decision : MatchDecision → Result ActionDecision
tool_decision MatchDecision.deny = deny "tool call matched deny rule"
tool_decision MatchDecision.approval =
    require_approval "tool_call" "tool call matched approval rule" RiskLevel.medium
tool_decision MatchDecision.allow = allow "tool call matched allow rule"
tool_decision MatchDecision.no_match = deny "tool call did not match policy"

abbrev pub network_decision : NetworkDefault → List String → String → Result ActionDecision
network_decision NetworkDefault.disabled domains host = deny "network is disabled"
network_decision NetworkDefault.deny domains host =
    if any (λ domain. domain == to_ascii_lowercase host) domains
    then allow "network domain matched allowlist"
    else deny "network domain is not allowlisted"
network_decision NetworkDefault.allow domains host = allow "network default allow"

module _ (glob : String → GlobResult) where
  unfoldable pub evaluate_command : ResolvedTask → CommandAction → Result ActionDecision
  evaluate_command task c =
      let candidates = command_match_candidates c in
      do
        denied ← matches_any_candidate glob candidates task.permissions.commands.deny
        if denied
            then deny "command matched deny rule"
            else if c.shell_wrapped
            then require_approval "shell_wrapped_command" "shell-wrapped commands require approval"
                RiskLevel.high
            else do
              matched ←
                  first_match glob candidates [] task.permissions.commands.approval_required
                    task.permissions.commands.allow
              command_decision matched

  unfoldable pub evaluate : ResolvedTask → Action → Result ActionDecision
  unfolding evaluate_command evaluate_budget
  evaluate task (command c) = evaluate_command task c
  evaluate task (file_read path) =
      if any (λ allowed. path_starts_with path allowed) task.permissions.paths.read
      then allow "file read path matched"
      else deny "file read path is outside allowed roots"
  evaluate task (file_write path) =
      if any (λ allowed. path_starts_with path allowed) task.permissions.paths.write
      then allow "file write path matched"
      else deny "file write path is outside writable roots"
  evaluate task (network host port) =
      network_decision task.permissions.network.default task.permissions.network.allow_domains host
  evaluate task (env_expose name) =
      if any (λ allowed. allowed == name) task.permissions.env.allow
      then allow "environment variable matched allowlist"
      else deny "environment variable is not allowlisted"
  evaluate task (secret_access name scope) =
      if any (grants name scope) task.secrets.available_to_gateway
        && not task.secrets.expose_to_agent
      then require_approval "secret_access" "secret access requires approval" RiskLevel.high
      else deny "secret is not available for requested scope"
  evaluate task (tool_call tool) = do
    matched ←
        first_match glob (format (tool.tool ∷ "." ∷ tool.operation ∷ []) ∷ [])
          task.permissions.tools.deny task.permissions.tools.approval_required
          task.permissions.tools.allow
    tool_decision matched
  evaluate task (budget kind amount) = evaluate_budget task kind amount
