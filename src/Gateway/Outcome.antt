-- ===== src/Gateway/Outcome.antt =====
-- crates/taskfence-gateway/src/lib.rs: `Result<T, ToolExecutionError>`, and how an error of the other
-- crates becomes one.
use task_fence.Prelude.{◌≡◌, refl, String, ◌||◌, if◌then◌else◌}
use task_fence.Std.Text.{contains}
use task_fence.Core.Error.{
  TaskFenceError, config, policy, approval, runner, audit, artifact, report, state, gateway,
  unsupported, to_string, Result,
}
use task_fence.Core.Action.{
  ToolExecutionErrorKind, unsupported_protocol, unregistered_tool, invalid_parameters,
  policy_denied, approval_denied_or_timed_out, adapter_failed, secret_unavailable,
  ToolExecutionError,
}

pub data Outcome (T : Type 0) : Type 0 where
  ok : T → Outcome T
  err : ToolExecutionError → Outcome T

-- The `?` operator.
infixl 5 ◌>>=◌ ◌>>◌
abbrev pub ◌>>=◌ : {T U : Type 0} → Outcome T → (T → Outcome U) → Outcome U
err failure >>= rest = err failure
ok value >>= rest = rest value

abbrev pub ◌>>◌ : {T U : Type 0} → Outcome T → Outcome U → Outcome U
first >> rest = first >>= λ _. rest

abbrev kind_of_gateway_error : String → ToolExecutionErrorKind
kind_of_gateway_error inner =
    if contains inner "not registered"
    then unregistered_tool
    else if contains inner "must not be empty" || contains inner "parameter"
    then invalid_parameters
    else if contains inner "secret"
    then secret_unavailable
    else adapter_failed

abbrev pub error_kind : TaskFenceError → ToolExecutionErrorKind
error_kind (unsupported _) = unsupported_protocol
error_kind (approval _) = approval_denied_or_timed_out
error_kind (policy _) = policy_denied
error_kind (gateway inner) = kind_of_gateway_error inner
error_kind (config _) = adapter_failed
error_kind (runner _) = adapter_failed
error_kind (audit _) = adapter_failed
error_kind (artifact _) = adapter_failed
error_kind (report _) = adapter_failed
error_kind (state _) = adapter_failed

unfoldable pub tool_execution_error_from_taskfence : TaskFenceError → ToolExecutionError
tool_execution_error_from_taskfence e = record { kind = error_kind e; message = to_string e }

-- `map_err(tool_execution_error_from_taskfence)`
abbrev pub to_outcome : {T : Type 0} → Result T → Outcome T
to_outcome (Result.ok value) = ok value
to_outcome (Result.err e) = err (tool_execution_error_from_taskfence e)

-- What a chain gives is what its rest gives for a value of its first step.
pub bind-eq-ok :
    {T U : Type 0} (first : Outcome T) (rest : T → Outcome U) {u : U}
    → (first >>= rest) ≡ ok u
    → (t : T) × (first ≡ ok t) × (rest t ≡ ok u)
bind-eq-ok (ok value) rest given = (value, refl, given)
bind-eq-ok (err failure) rest given = cc given
