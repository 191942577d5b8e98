-- ===== src/Core/Budget.antt =====
-- crates/taskfence-core/src/lib.rs: `BudgetUsage::normalized` and the limit of a kind.
use task_fence.Prelude.{String, Option, none, some, List, [], ◌∷◌, eqb, ◌==◌, if◌then◌else◌}
use task_fence.Std.Text.{trim, to_ascii_lowercase, is_empty}
use task_fence.Std.Format.{format}
use task_fence.Std.Map.{BTreeMap, insert}
use task_fence.Core.Error.{Result, ok, err, policy, ◌>>=◌}
use task_fence.Core.Task.{BudgetLimit, ResolvedTask}
use task_fence.Core.Action.{RedactedValue, BudgetUsage}

unfoldable pub normalize_budget_usage_text : String → String → Result String
normalize_budget_usage_text field value =
    let normalized = to_ascii_lowercase (trim value) in
    if is_empty normalized
    then err (policy (format (field ∷ " must not be empty" ∷ [])))
    else ok normalized

unfoldable pub normalize_optional_budget_usage_text : Option String → Option String
normalize_optional_budget_usage_text none = none
normalize_optional_budget_usage_text (some value) =
    let trimmed = trim value in if is_empty trimmed then none else some trimmed

-- The loop over the metadata, with the map built so far.
unfoldable pub normalize_metadata :
    BTreeMap RedactedValue → BTreeMap RedactedValue → Result (BTreeMap RedactedValue)
normalize_metadata metadata [] = ok metadata
normalize_metadata metadata ((key, value) ∷ rest) =
    let normalized = normalize_metadata (insert (trim key) value metadata) rest in
    if is_empty (trim key)
    then err (policy "budget usage metadata key must not be empty")
    else normalized

unfoldable pub normalized : BudgetUsage → Result BudgetUsage
unfolding normalize_budget_usage_text
normalized usage = do
  kind ← normalize_budget_usage_text "budget usage kind" usage.kind
  if eqb usage.amount 0 then err (policy "budget usage amount must be positive") else do
    metadata ← normalize_metadata [] usage.metadata
    ok (record usage {
      kind = kind;
      provider = normalize_optional_budget_usage_text usage.provider;
      model = normalize_optional_budget_usage_text usage.model;
      operation = normalize_optional_budget_usage_text usage.operation;
      metadata = metadata;
    })

abbrev find_kind : String → List BudgetLimit → Option BudgetLimit
find_kind kind [] = none
find_kind kind (limit ∷ limits) = if limit.kind == kind then some limit else find_kind kind limits

unfoldable pub budget_limit_for : ResolvedTask → String → Option BudgetLimit
budget_limit_for task kind =
    find_kind (to_ascii_lowercase (trim kind)) task.permissions.budget.allow
