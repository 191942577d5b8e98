-- ===== src/Tests/PolicyTests.antt =====
-- The policy of the task, with patterns that match only themselves.
use task_fence.Prelude.{
  ◌≤◌, ◌≡◌, refl, ◌↔◌, String, true, false, none, [], ◌∷◌, Somewhere, ◌==◌, if◌then◌else◌,
}
use task_fence.Core.Error.{is_ok}
use task_fence.Core.Task.{BudgetLimit}
use task_fence.Core.Action.{
  command, tool_call, secret_access, budget, network, ToolAction, RiskLevel,
}
use task_fence.Std.Text.{is_empty, to_ascii_lowercase, trim, starts_with}
use task_fence.Std.Format.{format, join}
use task_fence.Policy.Matching.{
  GlobResult, compiled, glob_matcher, matches_any, matches_any_candidate, first_match,
}
use task_fence.Policy.Candidates.{push_unique, command_match_candidates}
use task_fence.Policy.Evaluate.{evaluate, allow, deny, require_approval}
use task_fence.Policy.Rules.{Compiles, hit}
use task_fence.Policy.Laws.{
  is_allow, tool_key, evaluate-command_allowed, evaluate-command_precedence,
  evaluate-tool_call_allowed, evaluate-tool_call_precedence,
}
use task_fence.Policy.Closed.{
  IsClosed, RulesCompile, with_denied, evaluate-IsClosed, evaluate-with_denied, evaluate-total,
}
use task_fence.Policy.Lookup.{
  NamesSecret, IsFirstLimit, evaluate-secret_access, evaluate-budget_allowed,
}
use task_fence.Tests.Fixture.{task, closed_task, cargo_test}

abbrev exact : String → GlobResult
exact pattern = compiled (λ value. value == pattern)

abbrev read_issue : ToolAction
read_issue = record { protocol = "mcp"; tool = "issues"; operation = "read"; parameters = [] }

compiles : (pattern : String) → Compiles exact pattern
compiles pattern = ((λ value. value == pattern), refl)

task-RulesCompile : RulesCompile exact task
task-RulesCompile = record {
  command_denies = (compiles _, tt);
  command_approvals = (compiles _, tt);
  command_allows = (compiles _, tt);
  tool_denies = (compiles _, tt);
  tool_approvals = (compiles _, tt);
  tool_allows = (compiles _, tt);
}

cargo_test_allowed :
    is_allow (evaluate exact (with_denied ("git push" ∷ []) task) (command cargo_test)) ≡ true
unfolding evaluate matches_any_candidate command_match_candidates push_unique trim join matches_any
    starts_with format glob_matcher first_match
cargo_test_allowed = refl

evaluate-command_allowed_example :
    (hit exact (command_match_candidates cargo_test) ("rm" ∷ "git push" ∷ []) ≡ false)
    × (cargo_test.shell_wrapped ≡ false)
    × (hit exact (command_match_candidates cargo_test) ("cargo publish" ∷ []) ≡ false)
    × (hit exact (command_match_candidates cargo_test) ("cargo test" ∷ []) ≡ true)
evaluate-command_allowed_example =
    evaluate-command_allowed exact (with_denied ("git push" ∷ []) task) cargo_test
      cargo_test_allowed

evaluate-command_precedence_example : evaluate exact task (command cargo_test) ≡ (
    if hit exact (command_match_candidates cargo_test) ("rm" ∷ [])
    then deny "command matched deny rule"
    else if false
    then require_approval "shell_wrapped_command" "shell-wrapped commands require approval"
        RiskLevel.high
    else if hit exact (command_match_candidates cargo_test) ("cargo publish" ∷ [])
    then require_approval "command" "command matched approval rule" RiskLevel.high
    else if hit exact (command_match_candidates cargo_test) ("cargo test" ∷ [])
    then allow "command matched allow rule"
    else deny "command did not match policy")
evaluate-command_precedence_example =
    evaluate-command_precedence exact task cargo_test (compiles _, tt) (compiles _, tt)
      (compiles _, tt)

read_issue_allowed : is_allow (evaluate exact task (tool_call read_issue)) ≡ true
unfolding evaluate first_match matches_any_candidate matches_any format starts_with glob_matcher
read_issue_allowed = refl

evaluate-tool_call_allowed_example :
    (hit exact (tool_key read_issue) ("issues.delete" ∷ []) ≡ false)
    × (hit exact (tool_key read_issue) ("issues.write" ∷ []) ≡ false)
    × (hit exact (tool_key read_issue) ("issues.read" ∷ []) ≡ true)
evaluate-tool_call_allowed_example =
    evaluate-tool_call_allowed exact task read_issue read_issue_allowed

evaluate-tool_call_precedence_example : evaluate exact task (tool_call read_issue) ≡ (
    if hit exact (tool_key read_issue) ("issues.delete" ∷ [])
    then deny "tool call matched deny rule"
    else if hit exact (tool_key read_issue) ("issues.write" ∷ [])
    then require_approval "tool_call" "tool call matched approval rule" RiskLevel.medium
    else if hit exact (tool_key read_issue) ("issues.read" ∷ [])
    then allow "tool call matched allow rule"
    else deny "tool call did not match policy")
evaluate-tool_call_precedence_example =
    evaluate-tool_call_precedence exact task read_issue (compiles _, tt) (compiles _, tt)
      (compiles _, tt)

evaluate-secret_access_example :
    (is_allow (evaluate exact task (secret_access "token" "issues")) ≡ false)
    × ((evaluate exact task (secret_access "token" "issues")
          ≡ require_approval "secret_access" "secret access requires approval" RiskLevel.high)
        ↔ (Somewhere (NamesSecret "token" "issues") task.secrets.available_to_gateway
            × (task.secrets.expose_to_agent ≡ false)))
evaluate-secret_access_example = evaluate-secret_access exact task "token" "issues"

closed_task-IsClosed : IsClosed closed_task
closed_task-IsClosed = record {
  read = refl;
  write = refl;
  commands = refl;
  domains = refl;
  network = λ h. cc h;
  env = refl;
  tools = refl;
  budget = refl;
}

evaluate-IsClosed_example :
    is_allow (evaluate exact closed_task (network "example.org" none)) ≡ false
evaluate-IsClosed_example =
    evaluate-IsClosed exact closed_task (network "example.org" none) closed_task-IsClosed

evaluate-with_denied_example : is_allow (evaluate exact task (command cargo_test)) ≡ true
evaluate-with_denied_example =
    evaluate-with_denied exact task ("git push" ∷ []) cargo_test cargo_test_allowed

evaluate-total_example : is_ok (evaluate exact task (tool_call read_issue)) ≡ true
evaluate-total_example = evaluate-total exact task (tool_call read_issue) task-RulesCompile

evaluate-budget_allowed_example : (is_allow (evaluate exact task (budget " Tokens" 70)) ≡ true) ↔ (
    (is_empty (to_ascii_lowercase (trim " Tokens")) ≡ false)
    × ((limit : BudgetLimit) × IsFirstLimit
          (to_ascii_lowercase (trim " Tokens"))
          task.permissions.budget.allow
          limit
        × (70 ≤ limit.max_amount)))
evaluate-budget_allowed_example = evaluate-budget_allowed exact task " Tokens" 70
