-- ===== src/Policy/Laws.antt =====
-- What the policy engine permits: `BuiltInPolicyEngine::evaluate` of crates/taskfence-policy/src/lib.rs.
use task_fence.Prelude.{String, ◌≡◌, Bool, true, false, List, [], ◌∷◌, All, arith, if◌then◌else◌}
use task_fence.Std.Format.{format}
use task_fence.Core.Error.{Result, ok}
use task_fence.Core.Task.{ResolvedTask}
use task_fence.Core.Action.{
  command, tool_call, ActionDecision, RiskLevel, CommandAction, ToolAction,
}
use task_fence.Policy.Matching.{GlobResult}
use task_fence.Policy.Candidates.{command_match_candidates}
use task_fence.Policy.Evaluate.{evaluate, allow, deny, require_approval}
use task_fence.Policy.Rules.{
  hit, Compiles, matches_any_candidate-eq, matches_any_candidate-total, first_match-total,
  first_match-eq-allow, hit-nil,
}

abbrev pub is_allow : Result ActionDecision → Bool
is_allow (ok (ActionDecision.allow rule reason)) = true
is_allow _ = false

abbrev pub tool_key : ToolAction → List String
tool_key tool = format (tool.tool ∷ "." ∷ tool.operation ∷ []) ∷ []

module _ (glob : String → GlobResult) (task : ResolvedTask) where
  -- A command is allowed only if no deny rule and no approval rule hits it, it is not wrapped in a
  -- shell, and an allow rule hits it.
  pub evaluate-command_allowed :
      (c : CommandAction)
      → is_allow (evaluate glob task (command c)) ≡ true
      → (hit glob (command_match_candidates c) task.permissions.commands.deny ≡ false)
        × (c.shell_wrapped ≡ false)
        × (hit glob (command_match_candidates c) task.permissions.commands.approval_required
            ≡ false)
        × (hit glob (command_match_candidates c) task.permissions.commands.allow ≡ true)
  unfolding evaluate
  evaluate-command_allowed c h =
      let cs = command_match_candidates c in
      ground (
        arith,
        matches_any_candidate-eq glob cs task.permissions.commands.deny false,
        first_match-eq-allow glob cs [] task.permissions.commands.approval_required
            task.permissions.commands.allow,
      )

  -- Where every command rule compiles, a command gets the decision of the strongest rule list that
  -- hits it: deny, then approval for a shell, then approval, then allow, and deny if none does.
  pub evaluate-command_precedence :
      (c : CommandAction)
      → All (Compiles glob) task.permissions.commands.deny
      → All (Compiles glob) task.permissions.commands.approval_required
      → All (Compiles glob) task.permissions.commands.allow
      → evaluate glob task (command c) ≡ (
          if hit glob (command_match_candidates c) task.permissions.commands.deny
          then deny "command matched deny rule"
          else if c.shell_wrapped
          then require_approval "shell_wrapped_command" "shell-wrapped commands require approval"
              RiskLevel.high
          else if hit glob (command_match_candidates c) task.permissions.commands.approval_required
          then require_approval "command" "command matched approval rule" RiskLevel.high
          else if hit glob (command_match_candidates c) task.permissions.commands.allow
          then allow "command matched allow rule"
          else deny "command did not match policy")
  unfolding evaluate
  evaluate-command_precedence c hd ha hl =
      let cs = command_match_candidates c in
      ground (
        arith,
        hit-nil glob cs,
        matches_any_candidate-total glob cs task.permissions.commands.deny hd,
        first_match-total glob cs [] task.permissions.commands.approval_required
            task.permissions.commands.allow tt ha hl,
      )

  -- A tool call is allowed only if no deny rule and no approval rule hits its key and an allow rule does.
  pub evaluate-tool_call_allowed :
      (t : ToolAction)
      → is_allow (evaluate glob task (tool_call t)) ≡ true
      → (hit glob (tool_key t) task.permissions.tools.deny ≡ false)
        × (hit glob (tool_key t) task.permissions.tools.approval_required ≡ false)
        × (hit glob (tool_key t) task.permissions.tools.allow ≡ true)
  unfolding evaluate
  evaluate-tool_call_allowed t h = ground (
    arith,
    first_match-eq-allow glob (tool_key t) task.permissions.tools.deny
        task.permissions.tools.approval_required task.permissions.tools.allow,
  )

  -- Where every tool rule compiles, a tool call gets the decision of the strongest rule list that hits
  -- its key: deny, then approval, then allow, and deny if none does.
  pub evaluate-tool_call_precedence :
      (t : ToolAction)
      → All (Compiles glob) task.permissions.tools.deny
      → All (Compiles glob) task.permissions.tools.approval_required
      → All (Compiles glob) task.permissions.tools.allow
      → evaluate glob task (tool_call t) ≡ (
          if hit glob (tool_key t) task.permissions.tools.deny
          then deny "tool call matched deny rule"
          else if hit glob (tool_key t) task.permissions.tools.approval_required
          then require_approval "tool_call" "tool call matched approval rule" RiskLevel.medium
          else if hit glob (tool_key t) task.permissions.tools.allow
          then allow "tool call matched allow rule"
          else deny "tool call did not match policy")
  unfolding evaluate
  evaluate-tool_call_precedence t hd ha hl = ground (
    arith,
    first_match-total glob (tool_key t) task.permissions.tools.deny
        task.permissions.tools.approval_required task.permissions.tools.allow hd ha hl,
  )
