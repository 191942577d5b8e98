-- ===== src/Policy/Rules.antt =====
-- What it means that a rule list hits a text, and that the loops over rules and candidates decide it.
use task_fence.Prelude.{
  String, ◌≡◌, refl, Bool, true, false, ◌||◌, List, [], ◌∷◌, ◌++◌, any, All, arith, ◌==◌,
  if◌then◌else◌,
}
use task_fence.Std.Text.{starts_with}
use task_fence.Std.Format.{format}
use task_fence.Core.Error.{ok}
use task_fence.Policy.Matching.{
  GlobResult, compiled, invalid, MatchDecision, glob_matcher, matches_any, matches_any_candidate,
  first_match,
}

module _ (glob : String → GlobResult) where
  abbrev matched_by : GlobResult → String → Bool
  matched_by (compiled is_match) value = is_match value
  matched_by (invalid e) value = false

  -- A rule hits a text: it is the text, its first words, or a glob that matches it.
  unfoldable pub hits : String → String → Bool
  hits value pattern =
      (value == pattern || starts_with value (format (pattern ∷ " " ∷ [])))
      || matched_by (glob pattern) value

  -- Some rule hits some candidate.
  unfoldable pub hit : List String → List String → Bool
  hit candidates patterns = any (λ c. any (hits c) patterns) candidates

  abbrev pub Compiles : String → Type 0
  Compiles pattern = (is_match : String → Bool) × (glob pattern ≡ compiled is_match)

  matches_any-eq :
      (value : String) (patterns : List String) (b : Bool)
      → matches_any glob value patterns ≡ ok b
      → any (hits value) patterns ≡ b
  unfolding matches_any glob_matcher hits
  matches_any-eq value [] b h = ground arith
  matches_any-eq value (p ∷ ps) b h = ground (arith, matches_any-eq value ps b)

  pub matches_any_candidate-eq :
      (candidates patterns : List String) (b : Bool)
      → matches_any_candidate glob candidates patterns ≡ ok b
      → hit candidates patterns ≡ b
  unfolding matches_any_candidate hit
  matches_any_candidate-eq [] patterns b h = ground arith
  matches_any_candidate-eq (c ∷ cs) patterns b h = ground (
    arith,
    matches_any-eq c patterns true,
    matches_any-eq c patterns false,
    matches_any_candidate-eq cs patterns b,
  )

  matches_any-total :
      (value : String) (patterns : List String)
      → All Compiles patterns
      → matches_any glob value patterns ≡ ok (any (hits value) patterns)
  unfolding matches_any glob_matcher hits
  matches_any-total value [] h = refl
  matches_any-total value (p ∷ ps) ((m, e), hs) = ground (arith, matches_any-total value ps hs)

  pub matches_any_candidate-total :
      (candidates patterns : List String)
      → All Compiles patterns
      → matches_any_candidate glob candidates patterns ≡ ok (hit candidates patterns)
  unfolding matches_any_candidate hit
  matches_any_candidate-total [] patterns h = refl
  matches_any_candidate-total (c ∷ cs) patterns h =
      rw (matches_any-total c patterns h, matches_any_candidate-total cs patterns h) (ground arith)

  pub hit-nil : (candidates : List String) → hit candidates [] ≡ false
  unfolding hit
  hit-nil [] = refl
  hit-nil (c ∷ cs) = hit-nil cs

  -- The decision that the rules give, with deny before approval before allow.
  abbrev pub precedence : Bool → Bool → Bool → MatchDecision
  precedence denied needs allowed =
      if denied
      then MatchDecision.deny
      else if needs
      then MatchDecision.approval
      else if allowed
      then MatchDecision.allow
      else MatchDecision.no_match

  pub first_match-total :
      (candidates denies approvals allows : List String)
      → All Compiles denies
      → All Compiles approvals
      → All Compiles allows
      → first_match glob candidates denies approvals allows
        ≡ ok (precedence (hit candidates denies) (hit candidates approvals) (hit candidates allows))
  unfolding first_match
  first_match-total candidates denies approvals allows hd ha hl = ground (
    arith,
    matches_any_candidate-total candidates denies hd,
    matches_any_candidate-total candidates approvals ha,
    matches_any_candidate-total candidates allows hl,
  )

  pub first_match-eq-allow :
      (candidates denies approvals allows : List String)
      → first_match glob candidates denies approvals allows ≡ ok MatchDecision.allow
      → (hit candidates denies ≡ false)
        × (hit candidates approvals ≡ false)
        × (hit candidates allows ≡ true)
  unfolding first_match
  first_match-eq-allow candidates denies approvals allows h = ground (
    arith,
    matches_any_candidate-eq candidates denies false,
    matches_any_candidate-eq candidates approvals false,
    matches_any_candidate-eq candidates allows true,
  )

  matches_any-append :
      (value : String) (ps qs : List String)
      → matches_any glob value (ps ++ qs) ≡ ok false
      → matches_any glob value ps ≡ ok false
  unfolding matches_any glob_matcher
  matches_any-append value [] qs h = refl
  matches_any-append value (p ∷ ps) qs h = ground (arith, matches_any-append value ps qs)

  -- Rules that are taken away hit nothing more.
  pub matches_any_candidate-append :
      (candidates ps qs : List String)
      → matches_any_candidate glob candidates (ps ++ qs) ≡ ok false
      → matches_any_candidate glob candidates ps ≡ ok false
  unfolding matches_any_candidate
  matches_any_candidate-append [] ps qs h = refl
  matches_any_candidate-append (c ∷ cs) ps qs h =
      ground (arith, matches_any-append c ps qs, matches_any_candidate-append cs ps qs)
