-- ===== src/Policy/Lookup.antt =====
-- Decisions that look a name up in a list of the task (crates/taskfence-policy/src/lib.rs): secrets and budgets.
use task_fence.Prelude.{
  ℕ, ◌≤◌, String, ◌≡◌, ◌≢◌, ◌↔◌, sym, ap, ◌∙◌, true, false, Bool-cases, inl, inr, some, List, [],
  ◌∷◌, ◌++◌, any, All, Somewhere, any-Somewhere, Somewhere-any, arith, eq_iff, ◌==◌,
}
use task_fence.Std.Text.{trim, to_ascii_lowercase, is_empty}
use task_fence.Core.Task.{ResolvedTask, BudgetLimit, SecretGrant}
use task_fence.Core.Action.{secret_access, budget, RiskLevel}
use task_fence.Policy.Matching.{GlobResult}
use task_fence.Policy.Evaluate.{evaluate, evaluate_budget, find_limit, grants, require_approval}
use task_fence.Policy.Laws.{is_allow}

-- A grant names the secret, and the scope among its uses.
abbrev pub NamesSecret : String → String → SecretGrant → Type 0
NamesSecret name scope grant =
    (grant.name ≡ name) × Somewhere (λ use_for. use_for ≡ scope) grant.use_for

module _ (name scope : String) where
  grants-NamesSecret :
      (grant : SecretGrant) → grants name scope grant ≡ true → NamesSecret name scope grant
  grants-NamesSecret grant h =
      let (before, use_for, after, e, k) =
        any-Somewhere (λ allowed. allowed == scope) grant.use_for (ground (arith, h)) in
      (
        (eq_iff grant.name name).0 (ground (arith, h)),
        (before, use_for, after, e, (eq_iff use_for scope).0 k),
      )

  NamesSecret-grants :
      (grant : SecretGrant) → NamesSecret name scope grant → grants name scope grant ≡ true
  NamesSecret-grants grant (named, (before, use_for, after, e, k)) = ground (
    arith,
    (eq_iff grant.name name).1 named,
    Somewhere-any (λ allowed. allowed == scope) grant.use_for
        (before, use_for, after, e, (eq_iff use_for scope).1 k),
  )

  granted-Somewhere :
      (gs : List SecretGrant)
      → (any (grants name scope) gs ≡ true) ↔ Somewhere (NamesSecret name scope) gs
  granted-Somewhere gs = (
    λ h.
        let (before, grant, after, e, k) = any-Somewhere (grants name scope) gs h in
        (before, grant, after, e, grants-NamesSecret grant k),
    λ (before, grant, after, e, k).
        Somewhere-any (grants name scope) gs (before, grant, after, e, NamesSecret-grants grant k),
  )

-- The first limit of a kind: none before it is of that kind.
abbrev pub IsFirstLimit : String → List BudgetLimit → BudgetLimit → Type 0
IsFirstLimit kind limits limit =
    (before after : List BudgetLimit) × (limits ≡ before ++ limit ∷ after)
    × (limit.kind ≡ kind)
    × All (λ earlier. earlier.kind ≢ kind) before

find_limit-IsFirst :
    (kind : String) (limits : List BudgetLimit) (limit : BudgetLimit)
    → find_limit kind limits ≡ some limit
    → IsFirstLimit kind limits limit
unfolding find_limit
find_limit-IsFirst kind [] limit h = cc h
find_limit-IsFirst kind (l ∷ ls) limit h = elim (Bool-cases (l.kind == kind)) [
  | inl here ↦
      let e : l ≡ limit = ground (arith, h, here) in
      ([], ls, ap (λ x. x ∷ ls) e, ap (λ x. x.kind) (sym e) ∙ (eq_iff l.kind kind).0 here, tt)
  | inr other ↦
      let (before, after, e, k, all) =
        find_limit-IsFirst kind ls limit (ground (arith, h, other)) in
      (
        l ∷ before,
        after,
        ap (λ x. l ∷ x) e,
        k,
        (λ same. ground (arith, other, (eq_iff l.kind kind).1 same), all),
      )
]

find_limit-first :
    (kind : String) (before after : List BudgetLimit) (limit : BudgetLimit)
    → limit.kind ≡ kind
    → All (λ earlier. earlier.kind ≢ kind) before
    → find_limit kind (before ++ limit ∷ after) ≡ some limit
unfolding find_limit
find_limit-first kind [] after limit h all = ground (arith, (eq_iff limit.kind kind).1 h)
find_limit-first kind (l ∷ before) after limit h (off, all) = elim (Bool-cases (l.kind == kind)) [
  | inl here ↦ absurd (off ((eq_iff l.kind kind).0 here))
  | inr other ↦ ground (arith, other, find_limit-first kind before after limit h all)
]

IsFirst-find_limit :
    (kind : String) (limits : List BudgetLimit) (limit : BudgetLimit)
    → IsFirstLimit kind limits limit
    → find_limit kind limits ≡ some limit
IsFirst-find_limit kind limits limit (before, after, e, h, all) =
    rw e (find_limit-first kind before after limit h all)

module _ (glob : String → GlobResult) (task : ResolvedTask) where
  secret_access_offered :
      (name scope : String)
      → (is_allow (evaluate glob task (secret_access name scope)) ≡ false)
        × ((evaluate glob task (secret_access name scope)
              ≡ require_approval "secret_access" "secret access requires approval" RiskLevel.high)
            ↔ ((any (grants name scope) task.secrets.available_to_gateway ≡ true)
                × (task.secrets.expose_to_agent ≡ false)))
  unfolding evaluate
  secret_access_offered name scope = ground arith

  -- A secret is never allowed without an approval, and one is asked for exactly where a grant has the
  -- secret's name, and the scope among its uses, and secrets are not exposed to the agent.
  pub evaluate-secret_access :
      (name scope : String)
      → (is_allow (evaluate glob task (secret_access name scope)) ≡ false)
        × ((evaluate glob task (secret_access name scope)
              ≡ require_approval "secret_access" "secret access requires approval" RiskLevel.high)
            ↔ (Somewhere (NamesSecret name scope) task.secrets.available_to_gateway
                × (task.secrets.expose_to_agent ≡ false)))
  evaluate-secret_access name scope =
      let (never, (forth, back)) = secret_access_offered name scope in
      let (found, given) = granted-Somewhere name scope task.secrets.available_to_gateway in
      (
        never,
        (
          λ e. let (some_grant, hidden) = forth e in (found some_grant, hidden),
          λ (some_grant, hidden). back (given some_grant, hidden),
        ),
      )

  budget_covered :
      (kind : String) (amount : ℕ)
      → (is_allow (evaluate glob task (budget kind amount)) ≡ true) ↔ (
          (is_empty (to_ascii_lowercase (trim kind)) ≡ false)
          × ((limit : BudgetLimit) × (find_limit
                  (to_ascii_lowercase (trim kind))
                  task.permissions.budget.allow
                ≡ some limit)
              × (amount ≤ limit.max_amount)))
  unfolding evaluate evaluate_budget
  budget_covered kind amount = (λ h. ground arith, λ h. ground arith)

  -- A budget action is allowed exactly when its kind, trimmed and in lower case, is not empty and the
  -- first limit of that kind, with no limit of that kind before it, covers the amount.
  pub evaluate-budget_allowed :
      (kind : String) (amount : ℕ)
      → (is_allow (evaluate glob task (budget kind amount)) ≡ true) ↔ (
          (is_empty (to_ascii_lowercase (trim kind)) ≡ false)
          × ((limit : BudgetLimit) × IsFirstLimit
                (to_ascii_lowercase (trim kind))
                task.permissions.budget.allow
                limit
              × (amount ≤ limit.max_amount)))
  evaluate-budget_allowed kind amount =
      let wanted = to_ascii_lowercase (trim kind) in
      let limits = task.permissions.budget.allow in
      let (forth, back) = budget_covered kind amount in
      (
        λ h.
            let (named, (limit, found, covered)) = forth h in
            (named, (limit, find_limit-IsFirst wanted limits limit found, covered)),
        λ (named, (limit, first, covered)).
            back (named, (limit, IsFirst-find_limit wanted limits limit first, covered)),
      )
