-- ===== src/Agent.antt =====
-- crates/taskfence-agent/src/lib.rs: the invocation of an agent.
use task_fence.Prelude.{
  String, ◌≡◌, refl, ◌||◌, Option, none, some, List, [], ◌∷◌, ◌==◌, if◌then◌else◌,
}
use task_fence.Std.Text.{any_char, is_empty, is_whitespace, to_ascii_lowercase, trim}
use task_fence.Std.Split.{is_char}
use task_fence.Std.Format.{format}
use task_fence.Std.Map.{BTreeMap, insert}
use task_fence.Core.Error.{Result, ok, err, config, unsupported, ◌>>◌}
use task_fence.Core.Task.{AgentKind, generic, specialized, NetworkDefault, ResolvedTask}
use task_fence.Core.Event.{AgentInvocation}

pub data SpecializedAgentProfile : Type 0 where
  codex_cli claude_code gemini_cli open_hands : SpecializedAgentProfile

unfoldable pub normalize_agent_kind : String → String
unfolding trim to_ascii_lowercase
normalize_agent_kind kind = to_ascii_lowercase (trim kind)

-- The match of `parse` on the normalized kind.
abbrev profile_of : String → Option SpecializedAgentProfile
profile_of kind =
    if kind == "codex" || kind == "codex_cli" || kind == "codex-cli"
    then some codex_cli
    else if kind == "claude_code" || kind == "claude-code" || kind == "claude"
    then some claude_code
    else if kind == "gemini" || kind == "gemini_cli" || kind == "gemini-cli"
    then some gemini_cli
    else if kind == "openhands" || kind == "open_hands" || kind == "open-hands"
    then some open_hands
    else none

unfoldable pub parse : String → Option SpecializedAgentProfile
unfolding normalize_agent_kind
parse kind = profile_of (normalize_agent_kind kind)

unfoldable pub profile_label : SpecializedAgentProfile → String
profile_label codex_cli = "codex_cli"
profile_label claude_code = "claude_code"
profile_label gemini_cli = "gemini_cli"
profile_label open_hands = "openhands"

unfoldable pub default_command : SpecializedAgentProfile → String
default_command codex_cli = "codex"
default_command claude_code = "claude"
default_command gemini_cli = "gemini"
default_command open_hands = "openhands"

unfoldable pub prompt_env_name : SpecializedAgentProfile → String
prompt_env_name codex_cli = "TASKFENCE_CODEX_PROMPT"
prompt_env_name claude_code = "TASKFENCE_CLAUDE_CODE_PROMPT"
prompt_env_name gemini_cli = "TASKFENCE_GEMINI_PROMPT"
prompt_env_name open_hands = "TASKFENCE_OPENHANDS_PROMPT"

pub record CodingAgentPolicyTemplate : Type 0 where
  pub agent_type : String
  pub command_allow : List String
  pub command_approval_required : List String
  pub command_deny : List String
  pub adapter_env : List String
  pub network_default : NetworkDefault
  pub notes : List String

abbrev template_for : SpecializedAgentProfile → CodingAgentPolicyTemplate
template_for profile = record {
  agent_type = profile_label profile;
  command_allow = default_command profile ∷ [];
  command_approval_required = [];
  command_deny = "sudo *" ∷ "docker *" ∷ "ssh *" ∷ [];
  adapter_env =
      "TASKFENCE_AGENT_PROFILE"
      ∷ prompt_env_name profile
      ∷ "TASKFENCE_WORKSPACE"
      ∷ "TASKFENCE_GATEWAY_MODE"
      ∷ [];
  network_default = NetworkDefault.disabled;
  notes =
      "template is guidance for explicit task permissions and is not applied automatically"
      ∷ "adapter_env entries are generated inside the runner and do not permit host env passthrough"
      ∷ "add gateway tool permissions explicitly when the agent needs mediated external actions"
      ∷ [];
}

unfoldable pub coding_agent_policy_template : String → Option CodingAgentPolicyTemplate
unfolding parse profile_label default_command prompt_env_name
coding_agent_policy_template kind = elim (parse kind) [
  | none ↦ none
  | some profile ↦ some (template_for profile)
]

unfoldable pub reject_nul : String → String → Result (Unit {0})
unfolding any_char format
reject_nul field value =
    if any_char (is_char 0) value
    then err (config (format (field ∷ " must not contain NUL" ∷ [])))
    else ok tt

unfoldable pub validate_executable : String → String → Result (Unit {0})
unfolding any_char is_whitespace format reject_nul
validate_executable field value =
    if any_char is_whitespace value
    then err (config (format (field ∷ " must be an executable; put arguments in agent.args" ∷ [])))
    else reject_nul field value

-- `for arg in &task.agent.args { reject_nul(…)? }`
unfoldable pub reject_nuls : List String → Result (Unit {0})
unfolding reject_nul
reject_nuls [] = ok tt
reject_nuls (arg ∷ args) = reject_nul "agent.args" arg >> reject_nuls args

unfoldable pub invocation_of : ResolvedTask → String → BTreeMap String → Result AgentInvocation
unfolding validate_executable reject_nuls
invocation_of task executable env = do
  validate_executable "agent.command" executable
  reject_nuls task.agent.args
  ok (record {
    executable = executable;
    args = task.agent.args;
    env = env;
    working_dir = task.workspace_container_path;
  })

abbrev generic_on : ResolvedTask → AgentKind → Result AgentInvocation
generic_on task (specialized kind) =
    err (unsupported (format ("generic adapter cannot run specialized agent type " ∷ kind ∷ [])))
generic_on task generic =
    let executable = trim task.agent.command in
    if is_empty executable
    then err (config "agent.command must not be empty")
    else invocation_of task executable []

unfoldable pub build_generic_invocation : ResolvedTask → Result AgentInvocation
unfolding invocation_of trim format
build_generic_invocation task = generic_on task task.agent.kind

unfoldable pub specialized_env : ResolvedTask → SpecializedAgentProfile → BTreeMap String
unfolding insert profile_label prompt_env_name
specialized_env task profile =
    let env = insert "TASKFENCE_WORKSPACE" task.workspace_container_path (
      insert (prompt_env_name profile) task.goal
        (insert "TASKFENCE_AGENT_PROFILE" (profile_label profile) [])) in
    elim task.gateway.tools [ [] ↦ env | _ ↦ insert "TASKFENCE_GATEWAY_MODE" "configured" env ]

abbrev specialized_with :
    ResolvedTask → String → Option SpecializedAgentProfile → Result AgentInvocation
specialized_with task kind none = err (
    unsupported (
      format (
        "specialized agent type " ∷ kind
        ∷ " is not supported; use generic or one of codex_cli, claude_code, gemini_cli, openhands"
        ∷ [])))
specialized_with task kind (some profile) =
    let command = trim task.agent.command in
    invocation_of task (if is_empty command then default_command profile else command)
      (specialized_env task profile)

abbrev specialized_on : ResolvedTask → AgentKind → Result AgentInvocation
specialized_on task (specialized kind) = specialized_with task kind (parse kind)
specialized_on task generic = build_generic_invocation task

unfoldable pub build_specialized_invocation : ResolvedTask → Result AgentInvocation
unfolding parse build_generic_invocation specialized_env invocation_of default_command trim format
build_specialized_invocation task = specialized_on task task.agent.kind

parse_test : parse " Codex-CLI " ≡ some codex_cli
unfolding parse
parse_test = refl
