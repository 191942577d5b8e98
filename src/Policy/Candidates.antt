-- ===== src/Policy/Candidates.antt =====
-- crates/taskfence-policy/src/lib.rs: the texts of a command that rules are matched against.
use task_fence.Prelude.{
  String, Bool, true, false, not, ◌&&◌, List, [], ◌∷◌, ◌++◌, any, ◌==◌, if◌then◌else◌,
}
use task_fence.Std.Text.{trim, is_empty}
use task_fence.Std.Format.{join}
use task_fence.Core.Action.{CommandAction}

unfoldable pub push_unique : List String → String → List String
push_unique values value =
    if not (is_empty (trim value)) && not (any (λ existing. existing == value) values)
    then values ++ value ∷ []
    else values

abbrev pub is_nil : List String → Bool
is_nil [] = true
is_nil (x ∷ xs) = false

unfoldable pub command_match_candidates : CommandAction → List String
command_match_candidates command =
    let candidates = push_unique (push_unique [] command.raw) command.executable in
    if is_nil command.args
    then candidates
    else push_unique candidates (join " " (command.executable ∷ command.args))
