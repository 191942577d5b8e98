-- ===== src/Tests/GatewayTests.antt =====
-- A gateway over concrete parts, in a world that is its audit log.
use task_fence.Prelude.{
  arith, ◌≡◌, ◌≢◌, refl, Bool, true, false, Option, none, some, All, List, [], ◌∷◌, ◌++◌, Preceded,
}
use task_fence.Core.Error.{ok}
use task_fence.Core.Task.{GatewaySecretReferenceConfig}
use task_fence.Core.Action.{
  OffsetDateTime, RedactedValue, plain, ActionDecision, require_approval, ApprovalDecision,
  approved, denied, ToolAction, ToolExecution, ToolResult, ToolExecutionContext, RiskLevel,
}
use task_fence.Core.Event.{AuditEvent, tool_execution_finished}
use task_fence.Core.Effect.{Effect, pure, ◌>>=◌, proceed, lift, attempt}
use task_fence.Gateway.Outcome
use task_fence.Gateway.Secrets.{
  GatewaySecretBinding, issue_redacted, attach_references, gateway_secret_reference,
  ensure_secret_grant, attach_secret_reference, insert_secret_reference, as_redacted_value,
}
use task_fence.Gateway.Secrets.Laws.{
  IsGrantedReference, attach_references-AllGranted, with_handles, same_action,
  attach_references-with_handles,
}
use task_fence.Gateway.Egress.{
  GatewayEgressDestination, gateway_egress_destination, is_gateway_egress_action,
  parse_gateway_egress_url, parse_authority, parse_port, plain_required_parameter,
  plain_optional_parameter, normalize_egress_host, has_parent_url_path, secret_like_url,
}
use task_fence.Gateway.Egress.Laws.{IsFetch, gateway_egress_destination-IsFetch}
use task_fence.Gateway.Mediator.{
  ApprovalEngine, mediate_tool_action, check_protocol, check_registry, refuse_unregistered,
  approval_of, ask, request_approval_of,
}
use task_fence.Gateway.Normalize.{
  normalize_tool_action, normalize_required_segment, normalize_parameters,
}
use task_fence.Std.Text.{
  to_ascii_lowercase, to_ascii_uppercase, trim, starts_with, any_char, contains,
}
use task_fence.Std.Split.{before, from_char, skip, count_char, split, trim_end_matches, all_chars}
use task_fence.Std.Parse.{parse_u16, parse_int}
use task_fence.Std.Map.{get, insert}
use task_fence.Std.Format.{format}
use task_fence.Gateway.Executor.{
  GatewayExecutor, execute_tool_action, adapter_call, after_mediation, after_decision, run_mediated,
  after_plan, record_budget_usages, record_usages, after_budget, enforce_gateway_egress_policy,
  after_egress, attach_configured_secret_references, bind_with, after_secrets, after_execute,
  finish_failed, record_finished,
}
use task_fence.Gateway.Executor.Phases.{IsStart, violated, phase, IsGatewayLog}
use task_fence.Gateway.Executor.Authorised.{Authorises}
use task_fence.Gateway.Executor.Started.{execute_tool_action-guarded}
use task_fence.Gateway.Executor.Finished.{execute_tool_action-finished}
use task_fence.Gateway.Executor.Refused.{RefusesTools, execute_tool_action-refused}
use task_fence.Tests.Fixture.{task, approval}

abbrev read_issues : ToolAction
read_issues = record { protocol = "http"; tool = "issues"; operation = "read"; parameters = [] }

abbrev context : ToolExecutionContext
context = record { task_dir = none; artifact_dir = none }

abbrev result : ToolResult
result = record { summary = "two issues"; values = []; artifacts = []; usage = [] }

abbrev token : GatewaySecretReferenceConfig
token = record { name = "token"; parameter = "auth"; scope = "issues" }

abbrev engine : {W : Type 0} → Option ApprovalDecision → ApprovalEngine W
engine answer = record {
  request = λ t a d. pure (approval none);
  wait = λ id. pure (approval answer);
}

-- Policy gives `decision`, the answer to a request is `answer`, and the adapter needs the secret `token`
-- and changes the world by `executed`.
abbrev gateway_of :
    {W : Type 0}
    → (AuditEvent → Effect W (Unit {0}))
    → (W → W)
    → ActionDecision
    → Option ApprovalDecision
    → GatewayExecutor W
gateway_of record_audit executed decision answer = record {
  mediator = record {
    evaluate = λ t a. pure decision;
    record_audit = record_audit;
    approval = some (engine answer);
    registry = some (λ a. pure true);
    supported_protocols = "http" ∷ [];
    now_utc = pure 0;
  };
  record_audit = record_audit;
  adapter = record {
    identity = record { kind = "http"; name = "issues" };
    secret_references = token ∷ [];
    planned_budget_usage = λ t a c w. (Outcome.ok [], w);
    execute_with_secrets = λ t a c bs w. (Outcome.ok result, executed w);
  };
  secret_broker = some issue_redacted;
}

-- The world is the audit log.
abbrev logging : ActionDecision → Option ApprovalDecision → GatewayExecutor (List AuditEvent)
logging = gateway_of (λ e w. (ok tt, w ++ e ∷ [])) (λ w. w)

-- The world says whether the adapter was called.
abbrev calling : ActionDecision → Option ApprovalDecision → GatewayExecutor Bool
calling = gateway_of (λ e w. (ok tt, w)) (λ w. true)

abbrev asking : ActionDecision
asking = require_approval "tool" none "asked for" RiskLevel.medium

abbrev bound_action : ToolAction
bound_action = record read_issues {
  parameters = ("auth", RedactedValue.redacted "gateway secret reference for token") ∷ [];
}

abbrev execution : ToolExecution
execution = record {
  request = record {
    action = bound_action;
    adapter = some (record { kind = "http"; name = "issues" });
  };
  result = some result;
  error = none;
}

runs :
    (execute_tool_action (logging asking (some approved)) task read_issues context []).0
    ≡ ok execution
unfolding execute_tool_action ◌>>=◌ proceed attempt lift pure mediate_tool_action check_protocol
    check_registry refuse_unregistered approval_of ask request_approval_of normalize_tool_action
    normalize_required_segment to_ascii_lowercase trim normalize_parameters adapter_call
    after_mediation after_decision run_mediated after_plan record_budget_usages record_usages
    after_budget enforce_gateway_egress_policy is_gateway_egress_action after_egress
    attach_configured_secret_references bind_with after_secrets after_execute finish_failed
    record_finished attach_references gateway_secret_reference ensure_secret_grant issue_redacted
    attach_secret_reference insert_secret_reference insert as_redacted_value format
runs = refl

logging-IsGatewayLog : IsGatewayLog (λ w. w) (logging asking (some approved))
unfolding issue_redacted pure adapter_call
logging-IsGatewayLog = record {
  mediator_audit = λ e w. refl;
  executor_audit = λ e w. refl;
  evaluate = λ t a w. refl;
  approval = record { request = λ t x d w. refl; wait = λ id w. refl };
  registry = λ a w. refl;
  now_utc = λ w. refl;
  broker = λ t name scope w. refl;
  planned = λ t a c w. refl;
  execute = λ t a c b w. refl;
}

execute_tool_action-guarded_example :
    (es : List AuditEvent) × ((execute_tool_action
        (logging asking (some approved))
        task
        read_issues
        context
        []).1
      ≡ [] ++ es)
    × Preceded IsStart (Authorises (logging asking (some approved)) task read_issues) [] es
    × (phase es ≢ violated)
execute_tool_action-guarded_example =
    execute_tool_action-guarded (λ w. w) (logging asking (some approved)) task read_issues context
      [] logging-IsGatewayLog

execute_tool_action-finished_example :
    (es : List AuditEvent) × (at : OffsetDateTime) × ((execute_tool_action
        (logging asking (some approved))
        task
        read_issues
        context
        []).1
      ≡ es ++ tool_execution_finished "t1" at execution ∷ [])
execute_tool_action-finished_example =
    execute_tool_action-finished (λ w. w) (logging asking (some approved)) (λ e w. refl) task
      read_issues context [] execution runs

denying-RefusesTools : RefusesTools (λ called. called ≡ false) (calling asking (some denied)) task
unfolding pure
denying-RefusesTools = record {
  evaluate = λ a. record { after = λ w p. p };
  mediator_audit = λ e. record { after = λ w p. p };
  executor_audit = λ e. record { after = λ w p. p };
  now_utc = record { after = λ w p. p };
  registry = λ a. record { after = λ w p. p };
  approval = record {
    request = λ t x d. record { after = λ w p. p };
    wait = λ id. record { after = λ w p. p };
    no_approval = λ id w r e. ground (arith, e);
  };
  no_allow = λ a w d e. ground (arith, e);
}

execute_tool_action-refused_example :
    (execute_tool_action (calling asking (some denied)) task read_issues context false).1 ≡ false
execute_tool_action-refused_example =
    execute_tool_action-refused (λ called. called ≡ false) (calling asking (some denied)) task
      read_issues context false denying-RefusesTools refl

abbrev fetch_status : ToolAction
fetch_status = record {
  protocol = "http";
  tool = "egress";
  operation = "fetch";
  parameters = ("url", plain "https://API.example.com:8443/v1") ∷ [];
}

abbrev status_destination : GatewayEgressDestination
status_destination = record {
  method = "GET";
  url = "https://API.example.com:8443/v1";
  host = "api.example.com";
  port = some 8443;
}

reads_destination : gateway_egress_destination fetch_status ≡ Outcome.ok status_destination
unfolding gateway_egress_destination parse_gateway_egress_url parse_authority parse_port
    plain_required_parameter plain_optional_parameter get to_ascii_uppercase to_ascii_lowercase trim
    starts_with before from_char skip count_char split trim_end_matches all_chars any_char parse_u16
    parse_int normalize_egress_host has_parent_url_path secret_like_url contains
reads_destination = refl

gateway_egress_destination-IsFetch_example : IsFetch status_destination
gateway_egress_destination-IsFetch_example =
    gateway_egress_destination-IsFetch fetch_status status_destination reads_destination

abbrev token_binding : GatewaySecretBinding
token_binding = record {
  parameter = "auth";
  reference = record {
    name = "token";
    scope = "issues";
    handle = "taskfence://gateway/t1/token/issues";
  };
}

attaches :
    (attach_references {W = Bool} task issue_redacted read_issues [] (token ∷ []) true).0
    ≡ ok (bound_action, token_binding ∷ [])
unfolding attach_references gateway_secret_reference ensure_secret_grant issue_redacted
    attach_secret_reference insert_secret_reference insert as_redacted_value format ◌>>=◌ proceed
    lift pure normalize_tool_action normalize_required_segment to_ascii_lowercase trim
    normalize_parameters
attaches = refl

attach_references-AllGranted_example :
    All (λ binding. IsGrantedReference task binding.reference) (token_binding ∷ [])
unfolding issue_redacted pure
attach_references-AllGranted_example =
    attach_references-AllGranted {W = Bool} task issue_redacted read_issues (token ∷ []) true
      (λ t name scope w r e. ground (arith, e)) attaches

attach_references-with_handles_example :
    (same_action
        (attach_references {W = Bool} task
          (with_handles (λ h. "hidden") issue_redacted)
          read_issues
          []
          (token ∷ [])
          true).0
      ≡ same_action
          (attach_references {W = Bool} task issue_redacted read_issues [] (token ∷ []) true).0)
    × ((attach_references {W = Bool} task
          (with_handles (λ h. "hidden") issue_redacted)
          read_issues
          []
          (token ∷ [])
          true).1
        ≡ (attach_references {W = Bool} task issue_redacted read_issues [] (token ∷ []) true).1)
attach_references-with_handles_example =
    attach_references-with_handles {W = Bool} task issue_redacted (λ h. "hidden") read_issues
      (token ∷ []) true
