-- ===== src/Tests/Fixture.antt =====
-- A task that may run `cargo test`, in a world that is its audit log.
use task_fence.Prelude.{Bool, true, false, Option, none, some, List, [], ◌∷◌, ◌++◌}
use task_fence.Prelude.Int.{pos}
use task_fence.Core.Task.{
  AgentKind, NetworkDefault, docker, GatewayMode, ReportFormat, ResolvedTask, CommandPermissions,
  ToolPermissions, PermissionConfig,
}
use task_fence.Core.Action.{
  ActionDecision, require_approval, ApprovalDecision, ApprovalRecord, CommandAction, command,
  RiskLevel,
}
use task_fence.Core.Event.{PreparedRun, ArtifactRefs, AuditEvent}
use task_fence.Core.Error.{ok}
use task_fence.Core.Effect.{Effect, pure}
use task_fence.Core.Orchestrator.Calls.{Orchestrator}

abbrev pub commands : CommandPermissions
commands = record {
  allow = "cargo test" ∷ [];
  approval_required = "cargo publish" ∷ [];
  deny = "rm" ∷ [];
}

abbrev pub tools : ToolPermissions
tools = record {
  allow = "issues.read" ∷ [];
  approval_required = "issues.write" ∷ [];
  deny = "issues.delete" ∷ [];
}

abbrev pub permissions : PermissionConfig
permissions = record {
  paths = record { read = "/work" ∷ []; write = "/work/out" ∷ [] };
  commands = commands;
  network = record { default = NetworkDefault.deny; allow_domains = [] };
  env = record { allow = "PATH" ∷ [] };
  tools = tools;
  budget = record { allow = record { kind = "tokens"; max_amount = 100 } ∷ [] };
}

abbrev pub closed_permissions : PermissionConfig
closed_permissions = record {
  paths = record { read = []; write = [] };
  commands = record { allow = []; approval_required = []; deny = [] };
  network = record { default = NetworkDefault.deny; allow_domains = [] };
  env = record { allow = [] };
  tools = record { allow = []; approval_required = []; deny = [] };
  budget = record { allow = [] };
}

abbrev pub task_with : PermissionConfig → ResolvedTask
task_with permissions = record {
  id = "t1";
  task_file = "/work/task.yaml";
  goal = "run the tests";
  workspace_host_path = "/work";
  workspace_container_path = "/workspace";
  agent = record { kind = AgentKind.generic; command = "cargo"; args = "test" ∷ [] };
  sandbox = record {
    kind = docker;
    image = some "rust";
    ssh = none;
    limits = record { timeout_minutes = none; cpu = none; memory = none; disk = none };
  };
  permissions = permissions;
  secrets = record {
    expose_to_agent = false;
    available_to_gateway = record { name = "token"; use_for = "issues" ∷ [] } ∷ [];
  };
  approval = record { require_for = []; timeout_minutes = none };
  gateway = record {
    mode = GatewayMode.spool_only;
    egress = record { allow_domains = false };
    tools = [];
  };
  audit = record {
    report = record { format = ReportFormat.markdown };
    capture = record {
      stdout = true;
      stderr = true;
      file_diff = true;
      network_destinations = false;
      approvals = true;
    };
  };
}

abbrev pub task : ResolvedTask
task = task_with permissions

abbrev pub closed_task : ResolvedTask
closed_task = task_with closed_permissions

abbrev pub cargo_test : CommandAction
cargo_test = record {
  executable = "cargo";
  args = "test" ∷ [];
  raw = "cargo test";
  shell_wrapped = false;
}

abbrev artifacts : ArtifactRefs
artifacts = record {
  task_dir = "/artifacts/t1";
  resolved_task = none;
  events = none;
  stdout = none;
  stderr = none;
  diff = none;
  report = none;
  gateway_spool = none;
}

abbrev pub approval : Option ApprovalDecision → ApprovalRecord
approval decision = record {
  id = "a1";
  task_id = "t1";
  actor = "ann";
  source = none;
  requested_at = 0;
  resolved_at = none;
  action = command cargo_test;
  policy_decision = require_approval "command" none "asked for" RiskLevel.medium;
  decision = decision;
}

abbrev prepared : PreparedRun
prepared = record {
  task_id = "t1";
  runner_kind = docker;
  image = some "rust";
  mounts = [];
  env = [];
  network = record { default = NetworkDefault.deny; allow_domains = [] };
  gateway = record { mode = GatewayMode.spool_only; spool_container_path = none; egress = none };
  limits = record { timeout_minutes = none; cpu = none; memory = none; disk = none };
  ssh = none;
}

-- The parts of the system, where policy gives `decision`, the answer to a request is `answer`, and the
-- start of an agent changes the world by `started`.
abbrev pub orchestrator_of :
    {W : Type 0}
    → (AuditEvent → Effect W (Unit {0}))
    → (W → W)
    → ActionDecision
    → Option ApprovalDecision
    → Orchestrator W
orchestrator_of record_audit started decision answer = record {
  evaluate = λ t a. pure decision;
  request = λ t a d. pure (approval none);
  wait = λ id. pure (approval answer);
  record_audit = record_audit;
  create_task_dir = λ t. pure artifacts;
  write_resolved_task = λ t. pure "/artifacts/t1/task.json";
  write_log = λ t stream text. pure "/artifacts/t1/log";
  capture_baseline = λ t. pure (record { dirty_before_run = false; summary = "" });
  collect_diff = λ t b. pure none;
  build_invocation = λ t.
      pure
        (record { executable = "cargo"; args = "test" ∷ []; env = []; working_dir = "/workspace" });
  prepare = λ t. pure prepared;
  start = λ p i w. (ok (record { task_id = "t1"; runner_ref = "r1" }), started w);
  stop = λ r. pure tt;
  collect_exit = λ r. pure (record {
    exit_status = record { code = some (pos 0); timed_out = false; signal = none };
    stdout = "done";
    stderr = "";
  });
  generate = λ t a es. pure "/artifacts/t1/report.md";
  set_status = λ id status. pure tt;
  now_utc = pure 0;
}

-- The world is the audit log.
abbrev pub logging : ActionDecision → Option ApprovalDecision → Orchestrator (List AuditEvent)
logging = orchestrator_of (λ e w. (ok tt, w ++ e ∷ [])) (λ w. w)

-- The world says whether an agent was started.
abbrev pub starting : ActionDecision → Option ApprovalDecision → Orchestrator Bool
starting = orchestrator_of (λ e w. (ok tt, w)) (λ w. true)
