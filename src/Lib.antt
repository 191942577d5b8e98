-- ===== src/Lib.antt =====
-- A model of TaskFence, which runs an agent's task in a sandbox behind a policy, and theorems about
-- it.
--
-- The program's parts and the files that model them, with paths from the repository's root:
--
-- Core: crates/taskfence-core/src/lib.rs. Core/Task, Core/Action and Core/Event hold its domain
-- types, with the fields and variants of the source in snake_case; Core/Error its errors;
-- Core/Command the splitting of a command line (`CommandAction::parse`). Core/Orchestrator is
-- `Orchestrator::run`, its children Calls and Checks the traits that it calls and the check of the
-- agent's command. The trait objects that an orchestrator holds (policy, approval, audit,
-- artifacts, adapter, runner, report, state) and the clock are the fields of the record
-- `Orchestrator`, over any world: each call reads the world, changes it, and gives a value or an
-- error, and nothing more is assumed unless a theorem says so. The state of a run is that world
-- with the vector `events`. The single function `run` of the source is cut at its matches into
-- `after_check`, `after_start`, `after_exit`, `finish_run` and `end_run`; `?` is the bind of
-- Core/Effect, and a match on a call's result is a bind on `attempt`. There is no loop, so no fuel
-- is used. Core/Validation is `validate_task_for_run`. The other children of Core/Orchestrator hold the proofs: Keeps is the rule that carries
-- a property through a run, Events, Log, Authorised, Denied, Status, Outcome and Success what
-- follows from it.
--
-- Policy: crates/taskfence-policy/src/lib.rs. Matching is the matching of texts against rule lists,
-- Candidates the texts of a command that rules are matched with, Evaluate the decision on an
-- action. `Glob::new` of the crate globset is the parameter `glob`, which gives a matcher or an
-- error. Rules, Laws, Lookup and Closed are proofs. The tables of names in
-- `PolicyLanguageContract::current` are not modelled, since no decision reads them.
--
-- State: crates/taskfence-state/src/lib.rs. Types are the records of the team state, Validate the
-- checks of names and ids, Access the decision on a request of an organization's member, Label the
-- texts of statuses, Leases the worker leases of `LocalTeamStateStore`, Queue the
-- `InMemoryWorkerQueue`, and Queue/Board the board of leases that specifies it, Service the
-- `TeamStateService` over any backend. The write of the state file is the parameter `persist`, and
-- what `{:?}` prints for a text is the parameter `debug`. As in the source, a failed write leaves
-- the changed state in memory.
--
-- Approval: crates/taskfence-approval/src/lib.rs, the `LocalApprovalEngine` that implements the
-- approval trait of Core/Orchestrator, and the reading of answers. The prompt, the clock and the
-- fresh ids are parameters. Between the two look-ups of `wait` nothing else changes the records,
-- and its mutex is never poisoned. Laws and Decided are proofs. Approval/Store is
-- `LocalApprovalStore` over any way to read and write its files, and Approval/External
-- `LocalExternalApprovalEngine`, whose loop polls that store. Its durations are milliseconds, and
-- it runs on fuel, one unit for each poll, of which one more than the timeout has milliseconds is
-- taken: each sleep lasts at least one.
--
-- Gateway: crates/taskfence-gateway/src/lib.rs. Normalize holds the names of tools and their
-- parameters and the requests of MCP and HTTP tools, Secrets the references that stand for secrets,
-- Egress the destination of an egress call, Outcome the results with a `ToolExecutionError`,
-- Mediator `GatewayMediator::mediate_tool_action`, Executor
-- `GatewayExecutor::execute_tool_action`, cut at its early returns into `after_mediation`,
-- `after_decision`, `after_plan`, `after_budget`, `after_egress`, `after_secrets` and
-- `after_execute`. Policy, the audit loggers of the mediator and of the executor, the approval
-- engine, the registry, the adapter, the broker of secrets and the clock are parameters over any
-- world, as for the orchestrator; the loops over usages and references are structural recursion.
-- The children of Executor are proofs: Phases/Sound reads a phase from the audit events of a call,
-- and Phases, Mediated, Authorised, Guarded, Started, Finished and Refused follow an execution. Core/Budget is the
-- normalisation of usages that it calls.
--
-- Runner: crates/taskfence-runner/src/lib.rs. Capability holds the reports of what a backend can
-- enforce, Gateway what a Docker run has of the gateway, Mounts and Docker the plan of a Docker run,
-- Docker/Args the arguments of `docker run`, Ssh the plan of a run over SSH and the arguments of
-- `ssh`. Process and Process/Loop are `run_command_with_timeout`, over a record of the calls of the
-- operating system, its threads and its clock: a call that waits for a process or a thread may never
-- return, and the addition that gives the deadline panics past the last instant (Core/Blocking). Its loop runs on fuel, one unit for each poll, of which one more than
-- the timeout has steps of 50 milliseconds is taken. A run without a timeout may wait for ever, as in the
-- source. Runs holds the Docker and SSH runners with their tables of completed runs, Runs/Expanded the
-- runner that selects one of them, Fake the `FakeRunner`. The
-- loops over paths, variables and arguments are structural recursion. Ssh/Words reads a command as
-- a POSIX shell does, as far as the command uses the shell's syntax, and refuses every other text;
-- the other children are proofs. What `{:?}` prints for a text is the parameter `debug`.
--
-- Audit: crates/taskfence-audit/src/lib.rs. Text is the sanitising of a text, whose two loops with a
-- cursor are one pass over the text with a mode; Value the sanitising of JSON values; Logger is
-- `LocalJsonlAuditLogger`, over the record `JsonFiles` of how an event is serialised and how the file
-- is written. The other files are proofs. Everything is structural recursion.
--
-- Agent: crates/taskfence-agent/src/lib.rs, the profiles of agents and the invocations that the
-- generic and the specialized adapter build.
--
-- Std is what these use of Rust's standard library, as far as they use it: texts, `format!`,
-- ordered maps and the components of a Unix path. `char::is_whitespace` and `char::is_control` are
-- written out by code point. Prelude holds the names and lemmas that all parts share. Tests holds
-- concrete tasks and the theorems applied to them.
--
-- Machine integers (amounts, minutes) are only compared or copied, so they are natural numbers
-- without a bound; minutes of a timeout saturate as in the source; a port that is read from a text is checked against the range of `u16` as
-- `parse` does it. A limit on CPUs is a whole number. Timestamps are natural numbers that are only copied.
--
-- Not modelled: serialisation, files, processes and sockets; the Postgres backend; the listing of
-- approvals and the terminal prompt; the artifacts and audit exports of the team state;
-- the connectors, the compatibility runtimes and the spool of the gateway; the crates
-- taskfence-artifacts and taskfence-report,
-- which the orchestrator reaches through its traits; and taskfence-config and taskfence-cli, which
-- stand around it.
pub mod Prelude
pub mod Std
pub mod Core
pub mod Policy
pub mod State
pub mod Approval
pub mod Gateway
pub mod Runner
pub mod Audit
pub mod Agent
pub mod Tests
