-- ===== src/Runner/Gateway.antt =====
-- crates/taskfence-runner/src/lib.rs: what a Docker run has of the gateway. `debug` is what `{:?}` prints.
use task_fence.Prelude.{
  String, Bool, true, false, not, ◌&&◌, ◌||◌, Option, none, some, List, [], ◌∷◌, any, ◌==◌,
  if◌then◌else◌,
}
use task_fence.Std.Format.{format}
use task_fence.Std.Path.{join}
use task_fence.Core.Error.{Result, ok, err, runner}
use task_fence.Core.Task.{
  Utf8PathBuf, GatewayMode, spool_only, local_listener, GatewayToolConfig, ResolvedTask,
}
use task_fence.Core.Event.{PreparedGateway}
use task_fence.State.Validate.{is_unsafe_component}

abbrev pub spool_container_path : Utf8PathBuf
spool_container_path = "/taskfence/gateway-spool"

abbrev pub is_none_left {ℓ} : {A : Type ℓ} → List A → Bool
is_none_left [] = true
is_none_left (x ∷ xs) = false

abbrev pub is_local_listener : GatewayMode → Bool
is_local_listener local_listener = true
is_local_listener spool_only = false

abbrev pub is_egress_tool : GatewayToolConfig → Bool
is_egress_tool tool = tool.protocol == "http" && tool.tool == "egress" && tool.operation == "fetch"

unfoldable pub gateway_egress_tool_configured : ResolvedTask → Bool
gateway_egress_tool_configured task = any is_egress_tool task.gateway.tools

unfoldable pub docker_gateway_egress_enabled : ResolvedTask → Bool
unfolding gateway_egress_tool_configured
docker_gateway_egress_enabled task =
    is_local_listener task.gateway.mode
    && task.gateway.egress.allow_domains
    && not (is_none_left task.permissions.network.allow_domains)
    && gateway_egress_tool_configured task

unfoldable pub docker_gateway_spool_required : ResolvedTask → Bool
unfolding docker_gateway_egress_enabled
docker_gateway_spool_required task =
    not (is_none_left task.gateway.tools) || docker_gateway_egress_enabled task

-- `bool::then`
abbrev pub then_some {ℓ} : {A : Type ℓ} → Bool → A → Option A
then_some true a = some a
then_some false a = none

unfoldable pub build_prepared_gateway : ResolvedTask → PreparedGateway
unfolding docker_gateway_spool_required docker_gateway_egress_enabled
build_prepared_gateway task = record {
  mode = task.gateway.mode;
  spool_container_path = then_some (docker_gateway_spool_required task) spool_container_path;
  egress =
      then_some (docker_gateway_egress_enabled task)
        (record { allow_domains = task.permissions.network.allow_domains });
}

unfoldable pub gateway_spool_host_path : (String → String) → ResolvedTask → Result Utf8PathBuf
gateway_spool_host_path debug task =
    if is_unsafe_component task.id
    then err (
        runner
          (format ("task id is not a safe gateway spool path component: " ∷ debug task.id ∷ [])))
    else ok (
        join (join (join (join task.workspace_host_path ".taskfence") "tasks") task.id)
          "gateway-spool")
