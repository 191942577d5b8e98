-- ===== src/Gateway/Secrets.antt =====
-- crates/taskfence-gateway/src/lib.rs: references to secrets, for the connectors. A broker is a parameter.
pub mod Laws
use task_fence.Prelude.{
  ℕ, ◌+◌, ◌-◌, Char, code, String, Bool, true, false, ◌&&◌, ◌||◌, List, [], ◌∷◌, ◌++◌, any, leb,
  ◌==◌, if◌then◌else◌,
}
use task_fence.Std.Text.{trim, is_empty}
use task_fence.Std.Format.{format}
use task_fence.Std.Map.{insert}
use task_fence.Core.Error.{Result, ok, err, gateway}
use task_fence.Core.Error
use task_fence.Core.Task.{ResolvedTask, SecretGrant, GatewaySecretReferenceConfig}
use task_fence.Core.Action.{RedactedValue, redacted, ToolAction}
use task_fence.Core.Effect.{Effect, pure, lift, ◌>>=◌, ◌>>◌}
use task_fence.Gateway.Normalize.{normalize_required_segment, normalize_tool_action}

pub record SecretReference : Type 0 where
  pub name : String
  pub scope : String
  pub handle : String

unfoldable pub as_redacted_value : SecretReference → RedactedValue
as_redacted_value reference =
    redacted (format ("gateway secret reference for " ∷ reference.name ∷ []))

pub record GatewaySecretBinding : Type 0 where
  pub parameter : String
  pub reference : SecretReference

abbrev pub SecretBroker : Type 0 → Type 0
SecretBroker W = ResolvedTask → String → String → Effect W SecretReference

-- `LocalRedactedSecretBroker`
unfoldable pub issue_redacted : {W : Type 0} → SecretBroker W
issue_redacted task name scope = pure (record {
  name = name;
  scope = scope;
  handle = format ("taskfence://gateway/" ∷ task.id ∷ "/" ∷ name ∷ "/" ∷ scope ∷ []);
})

abbrev pub grants : String → String → SecretGrant → Bool
grants name scope grant = grant.name == name && any (λ allowed. allowed == scope) grant.use_for

unfoldable pub ensure_secret_grant : ResolvedTask → String → String → Result (Unit {0})
ensure_secret_grant task name scope =
    if task.secrets.expose_to_agent
    then err (gateway "gateway secret references require secrets to stay out of the agent")
    else if any (grants name scope) task.secrets.available_to_gateway
    then ok tt
    else err
        (gateway (format ("secret " ∷ name ∷ " is not available to gateway scope " ∷ scope ∷ [])))

module _ {W : Type 0} where
  unfoldable pub gateway_secret_reference :
      ResolvedTask → SecretBroker W → String → String → Effect W SecretReference
  gateway_secret_reference task broker name_text scope_text = do
    name ← lift (normalize_required_segment "secret name" name_text)
    scope ← lift (normalize_required_segment "secret scope" scope_text)
    lift (ensure_secret_grant task name scope)
    broker task name scope

-- What `attach_secret_reference` does with the normalized action.
unfoldable pub insert_secret_reference : ToolAction → String → SecretReference → Result ToolAction
insert_secret_reference action parameter_name reference =
    if is_empty (trim parameter_name)
    then err (gateway "secret reference parameter name must not be empty")
    else ok (record action {
      parameters = insert (trim parameter_name) (as_redacted_value reference) action.parameters;
    })

unfoldable pub attach_secret_reference : ToolAction → String → SecretReference → Result ToolAction
unfolding insert_secret_reference
attach_secret_reference action parameter_name reference =
    Error.◌>>=◌ (normalize_tool_action action)
      (λ normal. insert_secret_reference normal parameter_name reference)

module _ {W : Type 0} where
  -- The loop over the secret references of the adapter, with the action and the bindings so far.
  unfoldable pub attach_references :
      ResolvedTask
      → SecretBroker W
      → ToolAction
      → List GatewaySecretBinding
      → List GatewaySecretReferenceConfig
      → Effect W (ToolAction × List GatewaySecretBinding)
  attach_references task broker action bindings [] = pure (action, bindings)
  attach_references task broker action bindings (secret_ref ∷ rest) = do
    reference ← gateway_secret_reference task broker secret_ref.name secret_ref.scope
    bound ← lift (attach_secret_reference action secret_ref.parameter reference)
    attach_references task broker bound
        (bindings ++ record { parameter = secret_ref.parameter; reference = reference } ∷ []) rest
