-- ===== src/Policy/Matching.antt =====
-- crates/taskfence-policy/src/lib.rs: matching texts against the patterns of a rule list.
use task_fence.Prelude.{String, Bool, true, false, ◌||◌, List, [], ◌∷◌, ◌==◌, if◌then◌else◌}
use task_fence.Std.Text.{starts_with}
use task_fence.Std.Format.{format}
use task_fence.Core.Error.{Result, ok, err, policy, ◌>>=◌}

-- What `Glob::new(pattern)` gives: a matcher, or the text of its error.
pub data GlobResult : Type 0 where
  compiled : (String → Bool) → GlobResult
  invalid : String → GlobResult

pub data MatchDecision : Type 0 where
  deny approval allow no_match : MatchDecision

module _ (glob : String → GlobResult) where
  unfoldable pub glob_matcher : String → Result (String → Bool)
  glob_matcher pattern = elim (glob pattern) [
    | compiled is_match ↦ ok is_match
    | invalid e ↦ err (policy (format ("invalid policy pattern " ∷ pattern ∷ ": " ∷ e ∷ [])))
  ]

  unfoldable pub matches_any : String → List String → Result Bool
  matches_any value [] = ok false
  matches_any value (pattern ∷ patterns) =
      let rest = matches_any value patterns in
      if value == pattern || starts_with value (format (pattern ∷ " " ∷ []))
      then ok true
      else do is_match ← glob_matcher pattern; if is_match value then ok true else rest

  unfoldable pub matches_any_candidate : List String → List String → Result Bool
  matches_any_candidate [] patterns = ok false
  matches_any_candidate (candidate ∷ candidates) patterns =
      let rest = matches_any_candidate candidates patterns in
      do hit ← matches_any candidate patterns; if hit then ok true else rest

  unfoldable pub first_match :
      List String → List String → List String → List String → Result MatchDecision
  first_match candidates deny_patterns approval_patterns allow_patterns = do
    denied ← matches_any_candidate candidates deny_patterns
    if denied then ok deny else do
      needs ← matches_any_candidate candidates approval_patterns
      if needs then ok approval else do
        allowed ← matches_any_candidate candidates allow_patterns
        if allowed then ok allow else ok no_match
