-- ===== src/Runner/Docker/Variables.antt =====
-- The variables of a Docker run beside those of the host.
use task_fence.Prelude.{
  String, ◌≡◌, ◌≢◌, eq_iff, refl, subst, Bool, true, false, ◌||◌, ◌⊎◌, inl, inr, Option, none, some,
  List, [], ◌∷◌, All, All-weaken, ◌==◌, arith, Bool-cases,
}
use task_fence.Std.Text.{contains, starts_with}
use task_fence.Std.Map.{BTreeMap, get, insert, insert-All}
use task_fence.Core.Error.{ok, bind-eq-ok, ok_injective}
use task_fence.Core.Task.{GatewayMode, ResolvedTask}
use task_fence.Runner.Gateway.{docker_gateway_egress_enabled, docker_gateway_spool_required}
use task_fence.Runner.Mounts.{DockerRunner}
use task_fence.Runner.Mounts.Lists.{lists, All-of_listed}
use task_fence.Runner.Docker.{
  validate_env_name, reject_sensitive_env_name, validate_env_value, add_host_value, host_variables,
  with_spool_variable, with_gateway_variables, with_mode_variables, build_env_plan,
}

abbrev pub IsNotSensitive : String → Type 0
IsNotSensitive name = (name ≢ "HOME") × (name ≢ "SSH_AUTH_SOCK") × (name ≢ "DOCKER_HOST")

-- A variable of the host that the task allows, with its value there, which does not contain
-- `docker.sock` and does not begin with `unix://`; its name is none of the three that are kept back.
abbrev pub IsHostVariable : DockerRunner → ResolvedTask → (String × String) → Type 0
IsHostVariable runner t (name, value) =
    (lists t.permissions.env.allow name ≡ true)
    × (get name runner.host_env ≡ some value)
    × IsNotSensitive name
    × (contains value "docker.sock" ≡ false)
    × (starts_with value "unix://" ≡ false)

abbrev pub is_gateway_name : String → Bool
is_gateway_name name =
    name == "TASKFENCE_GATEWAY_SPOOL"
    || name == "TASKFENCE_GATEWAY_MODE"
    || name == "TASKFENCE_GATEWAY_EGRESS_ALLOW_DOMAINS"

module _ (runner : DockerRunner) (debug : String → String) (t : ResolvedTask) where
  not_sensitive :
      (name : String) {u : Unit {0}} → reject_sensitive_env_name name ≡ ok u → IsNotSensitive name
  unfolding reject_sensitive_env_name
  not_sensitive name e = (
    λ same. ground (arith, (eq_iff name "HOME").1 same, e),
    λ same. ground (arith, (eq_iff name "SSH_AUTH_SOCK").1 same, e),
    λ same. ground (arith, (eq_iff name "DOCKER_HOST").1 same, e),
  )

  no_socket :
      (name value : String) {u : Unit {0}}
      → validate_env_value name value ≡ ok u
      → (contains value "docker.sock" ≡ false) × (starts_with value "unix://" ≡ false)
  unfolding validate_env_value
  no_socket name value e = ground arith

  added-All :
      (name : String) (found : Option String) (env r : BTreeMap String)
      → get name runner.host_env ≡ found
      → lists t.permissions.env.allow name ≡ true
      → IsNotSensitive name
      → All (IsHostVariable runner t) env
      → add_host_value name found env ≡ ok r
      → All (IsHostVariable runner t) r
  added-All name none env r g l n k e = subst (All (IsHostVariable runner t)) (ok_injective e) k
  added-All name (some value) env r g l n k e =
      let (u, valid, e1) =
        bind-eq-ok (validate_env_value name value) (λ _. ok (insert name value env)) e in
      let (docker, unix) = no_socket name value valid in
      subst (All (IsHostVariable runner t)) (ok_injective e1)
        (insert-All _ name value env (l, g, n, docker, unix) k)

  host_variables-All :
      (env : BTreeMap String) (names : List String) (r : BTreeMap String)
      → All (IsHostVariable runner t) env
      → All (λ name. lists t.permissions.env.allow name ≡ true) names
      → host_variables runner debug env names ≡ ok r
      → All (IsHostVariable runner t) r
  unfolding host_variables
  host_variables-All env [] r k l e = subst (All (IsHostVariable runner t)) (ok_injective e) k
  host_variables-All env (name ∷ names) r k (h, l) e =
      let (u, named, e1) = bind-eq-ok (validate_env_name debug name) _ e in
      let (v, sensitive, e2) = bind-eq-ok (reject_sensitive_env_name name) _ e1 in
      let (added, a, e3) = bind-eq-ok (add_host_value name (get name runner.host_env) env) _ e2 in
      host_variables-All added names r
        (added-All name (get name runner.host_env) env added refl h (not_sensitive name sensitive) k
          a)
        l e3

  abbrev IsVariable : (String × String) → Type 0
  IsVariable entry = IsHostVariable runner t entry ⊎ (is_gateway_name entry.0 ≡ true)

  spool-All :
      (env : BTreeMap String) → All IsVariable env → All IsVariable (with_spool_variable t env)
  unfolding with_spool_variable
  spool-All env k = elim (Bool-cases (docker_gateway_spool_required t)) [
    | inl needed ↦ rw needed (insert-All IsVariable "TASKFENCE_GATEWAY_SPOOL" _ env (inr refl) k)
    | inr free ↦ rw free k
  ]

  mode-All :
      (mode : GatewayMode) (env : BTreeMap String)
      → All IsVariable env
      → All IsVariable (with_mode_variables t mode env)
  mode-All GatewayMode.spool_only env k = k
  mode-All GatewayMode.local_listener env k = elim (Bool-cases (docker_gateway_egress_enabled t)) [
    | inl enabled ↦ rw enabled (
        insert-All IsVariable "TASKFENCE_GATEWAY_EGRESS_ALLOW_DOMAINS" _ _ (inr refl)
          (insert-All IsVariable "TASKFENCE_GATEWAY_MODE" _ env (inr refl) k))
    | inr disabled ↦ rw disabled (insert-All IsVariable "TASKFENCE_GATEWAY_MODE" _ env (inr refl) k)
  ]

-- Every variable of a Docker run is one of the gateway's, or one of the host that the task allows, with
-- the host's value, which has no `docker.sock` in it and does not begin with `unix://`; none of these is HOME,
-- SSH_AUTH_SOCK or DOCKER_HOST.
pub build_env_plan-All :
    (runner : DockerRunner) (debug : String → String) (t : ResolvedTask) (env : BTreeMap String)
    → build_env_plan runner debug t ≡ ok env
    → All (λ entry. IsHostVariable runner t entry ⊎ (is_gateway_name entry.0 ≡ true)) env
unfolding build_env_plan with_gateway_variables
build_env_plan-All runner debug t env e =
    let allow = t.permissions.env.allow in
    let (hosted, h, e1) =
      bind-eq-ok (host_variables runner debug [] allow) (λ r. ok (with_gateway_variables t r)) e in
    subst (All (λ entry. IsHostVariable runner t entry ⊎ (is_gateway_name entry.0 ≡ true)))
      (ok_injective e1)
      (mode-All runner debug t t.gateway.mode _ (
        spool-All runner debug t hosted (
          All-weaken _ _ hosted (λ entry k. inl k)
            (host_variables-All runner debug t [] allow hosted tt
              (All-of_listed _ allow (λ name l. l)) h))))
