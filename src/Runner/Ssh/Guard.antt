-- ===== src/Runner/Ssh/Guard.antt =====
-- What a run over SSH is prepared for: the controls that the remote host cannot give are not asked for.
use task_fence.Prelude.{
  String, ◌≡◌, refl, sym, ap, Bool, true, false, not, ◌&&◌, ◌||◌, arith, Option, none, some, List,
  [], ◌∷◌, ◌++◌,
}
use task_fence.Core.Error.{ok, bind-eq-ok, ok_injective}
use task_fence.Core.Task.{NetworkDefault, SshSandboxConfig, ResolvedTask}
use task_fence.Core.Event.{PreparedRun}
use task_fence.Runner.Gateway.{is_none_left, is_local_listener}
use task_fence.Runner.Capability.{
  RunnerCapabilityReport, push_if, push_network, is_some, is_uncontrolled, missing_controls,
  ssh_limits_are_supported, ssh_report, ssh_report_of, remote_ssh_report, is_sufficient_for_task,
  ensure_sufficient_for_task, unavailable,
}
use task_fence.Runner.Docker.Network.{is_allow}
use task_fence.Runner.Ssh.{required, prepared_ssh_run, ensure_remote_ssh_task, build_run_plan}

-- A vector with an element at its end is not empty.
is_none_left-append : {A : Type 0} (xs : List A) (x : A) → is_none_left (xs ++ x ∷ []) ≡ false
is_none_left-append [] x = refl
is_none_left-append (y ∷ xs) x = refl

-- Nothing is missing after a condition only if it does not hold and nothing was missing before.
push_if-clear :
    (b : Bool) (m : String) (missing : List String)
    → is_none_left (push_if b m missing) ≡ true
    → (b ≡ false) × (is_none_left missing ≡ true)
unfolding push_if
push_if-clear true m missing e = cc (e, is_none_left-append missing m)
push_if-clear false m missing e = (refl, e)

push_network-clear :
    (default : NetworkDefault) (ssh : SshSandboxConfig) (missing : List String)
    → is_none_left (push_network default ssh missing) ≡ true
    → (is_allow default ≡ true)
      × (is_uncontrolled ssh.network_policy ≡ true)
      × (is_none_left missing ≡ true)
unfolding push_network
push_network-clear NetworkDefault.allow ssh missing e =
    let (u, h) = push_if-clear _ _ missing e in (refl, ground arith, h)
push_network-clear NetworkDefault.disabled ssh missing e = cc (e, is_none_left-append missing _)
push_network-clear NetworkDefault.deny ssh missing e = cc (e, is_none_left-append missing _)

-- What the host of a run over SSH is said to give.
abbrev pub IsTrustedHost : SshSandboxConfig → Type 0
IsTrustedHost ssh =
    (ssh.isolated_workspace ≡ true)
    × (ssh.isolated_secrets ≡ true)
    × (ssh.terminates_remote_processes ≡ true)
    × (is_some ssh.identity_file ≡ true)
    × (is_some ssh.known_hosts_file ≡ true)
    × (is_uncontrolled ssh.network_policy ≡ true)

-- What a task that runs over SSH does not ask for.
abbrev pub AsksForNoControl : ResolvedTask → Type 0
AsksForNoControl t =
    (is_allow t.permissions.network.default ≡ true)
    × (is_none_left t.permissions.network.allow_domains ≡ true)
    × (is_none_left t.permissions.env.allow ≡ true)
    × (t.secrets.expose_to_agent ≡ false)
    × (is_local_listener t.gateway.mode ≡ false)
    × (is_none_left t.gateway.tools ≡ true)
    × (t.audit.capture.file_diff ≡ false)

module _ (a b : Bool) where
  both_fst : a && b ≡ true → a ≡ true
  both_fst e = ground arith

  neither_fst : a || b ≡ false → a ≡ false
  neither_fst e = ground arith

  neither_snd : a || b ≡ false → b ≡ false
  neither_snd e = ground arith

not-false : (a : Bool) → not a ≡ false → a ≡ true
not-false a e = ground arith

missing_controls-clear :
    (t : ResolvedTask) (ssh : SshSandboxConfig)
    → is_none_left (missing_controls t ssh) ≡ true
    → IsTrustedHost ssh × AsksForNoControl t × (ssh_limits_are_supported t ssh ≡ true)
unfolding missing_controls
missing_controls-clear t ssh e =
    let (file_diff, k) = push_if-clear _ _ _ e in
    let (gateway, j) = push_if-clear _ _ _ k in
    let (secrets, i) = push_if-clear _ _ _ j in
    let (env, h) = push_if-clear _ _ _ i in
    let (domains, g) = push_if-clear _ _ _ h in
    let (default, policy, f) = push_network-clear _ _ _ g in
    let (terminates, e0) = push_if-clear _ _ _ f in
    let (limits, d) = push_if-clear _ _ _ e0 in
    let (known_hosts, c) = push_if-clear _ _ _ d in
    let (identity, b) = push_if-clear _ _ _ c in
    let (isolated, a) = push_if-clear _ _ _ b in
    let (workspace, z) = push_if-clear _ _ _ a in
    (
      (
        both_fst _ _ (not-false _ workspace),
        not-false _ isolated,
        not-false _ terminates,
        not-false _ identity,
        not-false _ known_hosts,
        policy,
      ),
      (
        default,
        not-false _ domains,
        not-false _ env,
        secrets,
        neither_fst _ _ gateway,
        not-false _ (neither_snd _ _ gateway),
        file_diff,
      ),
      not-false _ limits,
    )

-- A sufficient report is of an available runner.
ensure_sufficient-available :
    (t : ResolvedTask) (report : RunnerCapabilityReport) {u : Unit {0}}
    → ensure_sufficient_for_task report t ≡ ok u
    → report.available ≡ true
unfolding ensure_sufficient_for_task is_sufficient_for_task
ensure_sufficient-available t report e = ground arith

-- What the task that is prepared and the host it runs on are known to be.
abbrev pub IsGuarded : ResolvedTask → Type 0
IsGuarded t =
    (ssh : SshSandboxConfig) × (t.sandbox.ssh ≡ some ssh)
    × IsTrustedHost ssh
    × AsksForNoControl t
    × (ssh_limits_are_supported t ssh ≡ true)

report-IsGuarded :
    (t : ResolvedTask) (ssh : Option SshSandboxConfig)
    → t.sandbox.ssh ≡ ssh
    → (ssh_report_of t ssh).available ≡ true
    → IsGuarded t
unfolding ssh_report_of ssh_report unavailable
report-IsGuarded t none s e = cc e
report-IsGuarded t (some ssh) s e =
    let (h, k, l) = missing_controls-clear t ssh e in (ssh, s, h, k, l)

-- A run over SSH is prepared only for a task that asks for no control which the remote host cannot give
-- (its network is allowed by default and lists no domains, it is given no variables of the host, no raw
-- secrets, no gateway and no file diff), on a host that is said to isolate the workspace and the secrets, to
-- end the remote processes and to leave the network uncontrolled, with an identity file, a file of known
-- hosts and the limits supported; what is prepared has no mounts and no variables.
pub build_run_plan-IsGuarded :
    (t : ResolvedTask) (prepared : PreparedRun)
    → build_run_plan t ≡ ok prepared
    → IsGuarded t × (prepared.mounts ≡ []) × (prepared.env ≡ [])
unfolding build_run_plan remote_ssh_report
build_run_plan-IsGuarded t prepared e =
    let (u, kind, e1) = bind-eq-ok (ensure_remote_ssh_task t) _ e in
    let (v, sufficient, e2) =
      bind-eq-ok (ensure_sufficient_for_task (remote_ssh_report t) t) _ e1 in
    let (ssh, given, e3) = bind-eq-ok (required "sandbox.ssh is required" t.sandbox.ssh) _ e2 in
    let (run, r, e4) = bind-eq-ok (prepared_ssh_run ssh) _ e3 in
    (
      report-IsGuarded t t.sandbox.ssh refl
          (ensure_sufficient-available t (remote_ssh_report t) sufficient),
      ap (λ p. p.mounts) (sym (ok_injective e4)),
      ap (λ p. p.env) (sym (ok_injective e4)),
    )
