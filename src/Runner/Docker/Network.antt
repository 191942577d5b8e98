-- ===== src/Runner/Docker/Network.antt =====
-- The network of a Docker run: the one that is planned and the one that `docker run` is given.
use task_fence.Prelude.{
  String, ◌≡◌, refl, subst, Bool, true, false, not, ◌&&◌, arith, if◌then◌else◌,
}
use task_fence.Core.Error.{ok, bind-eq-ok, ok_injective}
use task_fence.Core.Task.{NetworkDefault, ResolvedTask}
use task_fence.Core.Event.{PreparedGatewayEgress}
use task_fence.Runner.Gateway.{
  is_none_left, then_some, docker_gateway_egress_enabled, build_prepared_gateway,
}
use task_fence.Runner.Mounts.{DockerRunner, refuse, build_mount_plan}
use task_fence.Runner.Docker.{
  DockerNetworkMode, no_network, bridge, DockerRunPlan, ensure_docker_task, build_env_plan,
  build_network_plan, build_run_plan, mode_of, name_arg, allowlist_arg, docker_network_arg,
}

-- What `docker run --network` is given for a mode.
abbrev pub network_name : DockerNetworkMode → String
network_name no_network = "none"
network_name bridge = "bridge"

abbrev pub is_bridge : DockerNetworkMode → Bool
is_bridge no_network = false
is_bridge bridge = true

abbrev pub is_allow : NetworkDefault → Bool
is_allow NetworkDefault.disabled = false
is_allow NetworkDefault.deny = false
is_allow NetworkDefault.allow = true

-- The two matches, on whether no domain is listed and whether the gateway serves the listed ones.
network-eq :
    (clear enabled : Bool) (default : NetworkDefault) (egress : PreparedGatewayEgress) (m : String)
    (mode : DockerNetworkMode)
    → (if not clear
        then (if not enabled then refuse m else ok no_network)
        else ok (mode_of default))
      ≡ ok mode
    → ((if not clear then allowlist_arg (then_some enabled egress) else ok (name_arg default))
        ≡ ok (network_name mode))
      × (is_bridge mode ≡ is_allow default && clear)
network-eq true enabled NetworkDefault.disabled egress m no_network e = (refl, refl)
network-eq true enabled NetworkDefault.deny egress m no_network e = (refl, refl)
network-eq true enabled NetworkDefault.allow egress m bridge e = (refl, refl)
network-eq true enabled NetworkDefault.disabled egress m bridge e = cc (ok_injective e)
network-eq true enabled NetworkDefault.deny egress m bridge e = cc (ok_injective e)
network-eq true enabled NetworkDefault.allow egress m no_network e = cc (ok_injective e)
network-eq false true default egress m no_network e = (refl, ground arith)
network-eq false true default egress m bridge e = cc (ok_injective e)
network-eq false false default egress m mode e = cc e

-- A Docker run that is planned is given the network of its plan, and this is the bridge exactly if the
-- task's network is allowed by default and it lists no domains; a run that lists domains, or whose
-- network is disabled or denied, is given none.
pub build_run_plan-docker_network_arg :
    (runner : DockerRunner) (debug : String → String) (t : ResolvedTask) (plan : DockerRunPlan)
    → build_run_plan runner debug t ≡ ok plan
    → (docker_network_arg plan.prepared ≡ ok (network_name plan.network))
      × (is_bridge plan.network
          ≡ is_allow t.permissions.network.default
            && is_none_left t.permissions.network.allow_domains)
unfolding build_run_plan build_network_plan docker_network_arg build_prepared_gateway
build_run_plan-docker_network_arg runner debug t plan e =
    let (u, docker, e1) = bind-eq-ok (ensure_docker_task t) _ e in
    let (mounts, mounted, e2) = bind-eq-ok (build_mount_plan runner debug t) _ e1 in
    let (env, named, e3) = bind-eq-ok (build_env_plan runner debug t) _ e2 in
    let (mode, m, e4) = bind-eq-ok (build_network_plan t) _ e3 in
    subst
      (λ p.
        (docker_network_arg p.prepared ≡ ok (network_name p.network))
        × (is_bridge p.network
            ≡ is_allow t.permissions.network.default
              && is_none_left t.permissions.network.allow_domains))
      (ok_injective e4)
      (network-eq (is_none_left t.permissions.network.allow_domains)
        (docker_gateway_egress_enabled t) t.permissions.network.default _ _ mode m)
