-- ===== src/Gateway/Normalize.antt =====
-- crates/taskfence-gateway/src/lib.rs: the normal form of tool calls, and the registry of tools.
use task_fence.Prelude.{String, Bool, ◌&&◌, List, [], ◌∷◌, any, ◌==◌, if◌then◌else◌}
use task_fence.Std.Text.{trim, to_ascii_lowercase, is_empty}
use task_fence.Std.Format.{format}
use task_fence.Std.Map.{BTreeMap, insert}
use task_fence.Core.Error.{Result, ok, err, gateway, ◌>>=◌}
use task_fence.Core.Action.{RedactedValue, ToolAction}

unfoldable pub normalize_required_segment : String → String → Result String
normalize_required_segment name value =
    let normalized = to_ascii_lowercase (trim value) in
    if is_empty normalized
    then err (gateway (format ("tool action " ∷ name ∷ " must not be empty" ∷ [])))
    else ok normalized

-- The loop, with the map built so far.
unfoldable pub normalize_parameters_into :
    BTreeMap RedactedValue → BTreeMap RedactedValue → Result (BTreeMap RedactedValue)
normalize_parameters_into parameters [] = ok parameters
normalize_parameters_into parameters ((key, value) ∷ rest) =
    let normalized = normalize_parameters_into (insert (trim key) value parameters) rest in
    if is_empty (trim key)
    then err (gateway "tool action parameter names must not be empty")
    else normalized

unfoldable pub normalize_parameters : BTreeMap RedactedValue → Result (BTreeMap RedactedValue)
unfolding normalize_parameters_into
normalize_parameters parameters = normalize_parameters_into [] parameters

unfoldable pub normalize_tool_action : ToolAction → Result ToolAction
normalize_tool_action action = do
  protocol ← normalize_required_segment "protocol" action.protocol
  tool ← normalize_required_segment "tool" action.tool
  operation ← normalize_required_segment "operation" action.operation
  parameters ← normalize_parameters action.parameters
  ok (record { protocol = protocol; tool = tool; operation = operation; parameters = parameters })

pub record ToolKey : Type 0 where
  pub protocol : String
  pub tool : String
  pub operation : String

unfoldable pub new_key : String → String → String → Result ToolKey
new_key protocol_text tool_text operation_text = do
  protocol ← normalize_required_segment "protocol" protocol_text
  tool ← normalize_required_segment "tool" tool_text
  operation ← normalize_required_segment "operation" operation_text
  ok (record { protocol = protocol; tool = tool; operation = operation })

unfoldable pub from_action : ToolAction → Result ToolKey
unfolding new_key
from_action action = new_key action.protocol action.tool action.operation

unfoldable pub display_name : ToolKey → String
display_name key = format (key.protocol ∷ " " ∷ key.tool ∷ "." ∷ key.operation ∷ [])

-- `==` of keys.
abbrev pub is_key : ToolKey → ToolKey → Bool
is_key a b = a.protocol == b.protocol && a.tool == b.tool && a.operation == b.operation

-- `InMemoryToolRegistry`, with its set of keys as a list.
unfoldable pub contains_tool : List ToolKey → ToolAction → Result Bool
contains_tool tools action = do key ← from_action action; ok (any (is_key key) tools)

pub record McpToolRequest : Type 0 where
  pub server : String
  pub tool : String
  pub arguments : BTreeMap RedactedValue

unfoldable pub mcp_to_tool_action : McpToolRequest → Result ToolAction
mcp_to_tool_action request = normalize_tool_action (record {
  protocol = "mcp";
  tool = request.server;
  operation = request.tool;
  parameters = request.arguments;
})

pub record HttpToolRequest : Type 0 where
  pub connector : String
  pub operation : String
  pub parameters : BTreeMap RedactedValue

unfoldable pub http_to_tool_action : HttpToolRequest → Result ToolAction
http_to_tool_action request = normalize_tool_action (record {
  protocol = "http";
  tool = request.connector;
  operation = request.operation;
  parameters = request.parameters;
})
