-- ===== src/Policy/Closed.antt =====
-- Fail-closed behaviour of `BuiltInPolicyEngine::evaluate` (crates/taskfence-policy/src/lib.rs): what is
-- not allowed by a rule is denied, more deny rules never permit more, and every action gets a decision.
use task_fence.Prelude.{String, ◌≡◌, ◌≢◌, true, false, List, [], ◌++◌, All, arith}
use task_fence.Core.Error.{is_ok}
use task_fence.Core.Task.{ResolvedTask, NetworkDefault}
use task_fence.Core.Action.{
  Action, file_read, file_write, command, network, env_expose, secret_access, tool_call, budget,
  CommandAction, ToolAction,
}
use task_fence.Policy.Matching.{GlobResult}
use task_fence.Policy.Candidates.{command_match_candidates}
use task_fence.Policy.Evaluate.{evaluate, evaluate_budget, find_limit}
use task_fence.Policy.Rules.{Compiles, hit-nil, matches_any_candidate-append}
use task_fence.Policy.Laws.{
  is_allow, tool_key, evaluate-command_allowed, evaluate-tool_call_allowed,
  evaluate-command_precedence, evaluate-tool_call_precedence,
}

-- No rule list of the task allows anything, and the network is not open by default.
pub record IsClosed (task : ResolvedTask) : Type 0 where
  pub read : task.permissions.paths.read ≡ []
  pub write : task.permissions.paths.write ≡ []
  pub commands : task.permissions.commands.allow ≡ []
  pub domains : task.permissions.network.allow_domains ≡ []
  pub network : task.permissions.network.default ≢ NetworkDefault.allow
  pub env : task.permissions.env.allow ≡ []
  pub tools : task.permissions.tools.allow ≡ []
  pub budget : task.permissions.budget.allow ≡ []

-- Every command rule and every tool rule of the task is a pattern that compiles.
pub record RulesCompile (glob : String → GlobResult) (task : ResolvedTask) : Type 0 where
  pub command_denies : All (Compiles glob) task.permissions.commands.deny
  pub command_approvals : All (Compiles glob) task.permissions.commands.approval_required
  pub command_allows : All (Compiles glob) task.permissions.commands.allow
  pub tool_denies : All (Compiles glob) task.permissions.tools.deny
  pub tool_approvals : All (Compiles glob) task.permissions.tools.approval_required
  pub tool_allows : All (Compiles glob) task.permissions.tools.allow

-- The task with more deny rules for commands.
abbrev pub with_denied : List String → ResolvedTask → ResolvedTask
with_denied extra task = record task {
  permissions = record task.permissions {
    commands = record task.permissions.commands { deny = task.permissions.commands.deny ++ extra };
  };
}

module _ (glob : String → GlobResult) (task : ResolvedTask) where
  closed_command :
      (c : CommandAction) → IsClosed task → is_allow (evaluate glob task (command c)) ≡ false
  closed_command c h =
      ground
        (arith, evaluate-command_allowed glob task c, hit-nil glob (command_match_candidates c))

  closed_tool_call :
      (t : ToolAction) → IsClosed task → is_allow (evaluate glob task (tool_call t)) ≡ false
  closed_tool_call t h =
      ground (arith, evaluate-tool_call_allowed glob task t, hit-nil glob (tool_key t))

  -- Where no rule allows anything, no action is allowed.
  pub evaluate-IsClosed :
      (action : Action) → IsClosed task → is_allow (evaluate glob task action) ≡ false
  unfolding evaluate evaluate_budget find_limit
  evaluate-IsClosed (command c) h = closed_command c h
  evaluate-IsClosed (file_read path) h = ground arith
  evaluate-IsClosed (file_write path) h = ground arith
  evaluate-IsClosed (network host port) h = ground arith
  evaluate-IsClosed (env_expose name) h = ground arith
  evaluate-IsClosed (secret_access name scope) h = ground arith
  evaluate-IsClosed (tool_call t) h = closed_tool_call t h
  evaluate-IsClosed (budget kind amount) h = ground arith

  -- With more deny rules, no command is allowed that was not allowed before.
  pub evaluate-with_denied :
      (extra : List String) (c : CommandAction)
      → is_allow (evaluate glob (with_denied extra task) (command c)) ≡ true
      → is_allow (evaluate glob task (command c)) ≡ true
  unfolding evaluate
  evaluate-with_denied extra c h = ground (
    arith,
    matches_any_candidate-append glob (command_match_candidates c) task.permissions.commands.deny
        extra,
  )

  -- Where the rules compile, every action gets a decision.
  pub evaluate-total :
      (action : Action) → RulesCompile glob task → is_ok (evaluate glob task action) ≡ true
  unfolding evaluate evaluate_budget
  evaluate-total (command c) h =
      let e =
        evaluate-command_precedence glob task c h.command_denies h.command_approvals
          h.command_allows in
      rw e (ground arith)
  evaluate-total (tool_call t) h =
      let e =
        evaluate-tool_call_precedence glob task t h.tool_denies h.tool_approvals h.tool_allows in
      rw e (ground arith)
  evaluate-total (file_read path) h = ground arith
  evaluate-total (file_write path) h = ground arith
  evaluate-total (network host port) h = ground arith
  evaluate-total (env_expose name) h = ground arith
  evaluate-total (secret_access name scope) h = ground arith
  evaluate-total (budget kind amount) h = ground arith
