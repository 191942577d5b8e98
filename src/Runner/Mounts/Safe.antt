-- ===== src/Runner/Mounts/Safe.antt =====
-- The mounts of a Docker run beside the permissions of its task.
use task_fence.Prelude.{
  String, ◌≡◌, ◌≢◌, ◌||◌, eq_iff, refl, subst, Bool, true, false, ◌⊎◌, Option, none, some, AllSome,
  List, [], ◌∷◌, ◌++◌, All, All-weaken, All-zip, any, arith, if◌then◌else◌,
}
use task_fence.Std.Path.{is_absolute, contains_parent_dir, path_starts_with, same_path}
use task_fence.Std.Text.{to_ascii_lowercase, ends_with}
use task_fence.Std.Map.{get}
use task_fence.Core.Error.{ok, ◌>>=◌, ◌>>◌, bind-eq-ok, ok_injective}
use task_fence.Core.Task.{Utf8PathBuf, ResolvedTask}
use task_fence.Core.Event.{MountMode, read_only, read_write, MountPlan}
use task_fence.Runner.Gateway.{docker_gateway_spool_required, gateway_spool_host_path}
use task_fence.Runner.Mounts.{
  DockerRunner, is_some_and, is_docker_socket_path, validate_mount_host_path, overlap, difference,
  covers, reject_mixed_mode_overlaps, reject_permission_mounts_cover_gateway_spool,
  exposes_host_home, exposes_ssh_auth_socket, validate_mount_path, collect_paths, spool_path,
  insert_path,
}
use task_fence.Runner.Mounts.Lists.{
  lists, insert_path-All, difference-All, All-of_listed, reject_overlaps-All, reject_mixed-All,
}

-- None of the forms of the path of Docker's socket.
abbrev pub IsNoDockerSocket : Utf8PathBuf → Type 0
IsNoDockerSocket path =
    (to_ascii_lowercase path ≢ "/var/run/docker.sock")
    × (to_ascii_lowercase path ≢ "/run/docker.sock")
    × (ends_with (to_ascii_lowercase path) "/docker.sock" ≡ false)

-- A path that may be mounted: absolute, without `..`, inside the workspace, not itself a path of Docker's
-- socket, neither at nor around the home directory, and neither at nor around nor inside the socket of
-- the SSH agent.
abbrev pub IsMountable : DockerRunner → ResolvedTask → Utf8PathBuf → Type 0
IsMountable docker t path =
    (is_absolute path ≡ true)
    × (contains_parent_dir path ≡ false)
    × IsNoDockerSocket path
    × AllSome (λ home. (same_path path home ≡ false) × (path_starts_with home path ≡ false))
        docker.host_home
    × AllSome
        (λ socket.
          (same_path path socket ≡ false)
          × (path_starts_with socket path ≡ false)
          × (path_starts_with path socket ≡ false))
        (get "SSH_AUTH_SOCK" docker.host_env)
    × (path_starts_with path t.workspace_host_path ≡ true)

-- A read-only mount is of a path that may be read, and a writable one of a path that may be written, or
-- of the gateway's spool.
abbrev pub IsPermitted : (String → String) → ResolvedTask → MountMode → Utf8PathBuf → Type 0
IsPermitted debug t read_only path = lists t.permissions.paths.read path ≡ true
IsPermitted debug t read_write path =
    (lists t.permissions.paths.write path ≡ true)
    ⊎ ((docker_gateway_spool_required t ≡ true) × (gateway_spool_host_path debug t ≡ ok path))

abbrev pub IsPermittedMount : DockerRunner → (String → String) → ResolvedTask → MountPlan → Type 0
IsPermittedMount docker debug t m =
    IsMountable docker t m.host_path × IsPermitted debug t m.mode m.host_path

-- A read-only path and a writable one do not overlap.
abbrev pub AreApart : MountMode → MountMode → Utf8PathBuf → Utf8PathBuf → Type 0
AreApart read_only read_write a b = overlap a b ≡ false
AreApart read_only read_only a b = Unit {0}
AreApart read_write m a b = Unit {0}

module _ (docker : DockerRunner) (debug : String → String) (t : ResolvedTask) where
  no_docker_socket :
      (path : Utf8PathBuf) → is_docker_socket_path path ≡ false → IsNoDockerSocket path
  unfolding is_docker_socket_path
  no_docker_socket path e = (
    λ same. ground (arith, (eq_iff (to_ascii_lowercase path) "/var/run/docker.sock").1 same, e),
    λ same. ground (arith, (eq_iff (to_ascii_lowercase path) "/run/docker.sock").1 same, e),
    ground (arith, e),
  )

  off_home :
      (path : Utf8PathBuf) (home : Option String)
      → is_some_and (λ h. same_path path h || path_starts_with h path) home ≡ false
      → AllSome (λ h. (same_path path h ≡ false) × (path_starts_with h path ≡ false)) home
  off_home path none e = tt
  off_home path (some h) e = ground (arith, e)

  off_agent :
      (path : Utf8PathBuf) (socket : Option String)
      → is_some_and
          (λ s. same_path path s || path_starts_with s path || path_starts_with path s)
          socket
        ≡ false
      → AllSome
          (λ s.
            (same_path path s ≡ false)
            × (path_starts_with s path ≡ false)
            × (path_starts_with path s ≡ false))
          socket
  off_agent path none e = tt
  off_agent path (some s) e = ground (arith, e)

  checks_passed :
      (path : Utf8PathBuf) {u : Unit {0}}
      → validate_mount_path docker t path ≡ ok u
      → (is_absolute path ≡ true)
        × (contains_parent_dir path ≡ false)
        × (is_docker_socket_path path ≡ false)
        × (exposes_host_home docker path ≡ false)
        × (exposes_ssh_auth_socket docker path ≡ false)
        × (path_starts_with path t.workspace_host_path ≡ true)
  unfolding validate_mount_path validate_mount_host_path
  checks_passed path e = ground arith

  validate-IsMountable :
      (path : Utf8PathBuf) {u : Unit {0}}
      → validate_mount_path docker t path ≡ ok u
      → IsMountable docker t path
  unfolding exposes_host_home exposes_ssh_auth_socket
  validate-IsMountable path e =
      let (absolute, no_parent, docker_free, home, agent, inside) = checks_passed path e in
      (
        absolute,
        no_parent,
        no_docker_socket path docker_free,
        off_home path docker.host_home home,
        off_agent path (get "SSH_AUTH_SOCK" docker.host_env) agent,
        inside,
      )

  pub collect-All :
      (P : Utf8PathBuf → Type 0) (set paths : List Utf8PathBuf) (r : List Utf8PathBuf)
      → All (λ p. IsMountable docker t p × P p) set
      → All P paths
      → collect_paths docker t set paths ≡ ok r
      → All (λ p. IsMountable docker t p × P p) r
  unfolding collect_paths
  collect-All P set [] r k l e = subst (All (λ p. IsMountable docker t p × P p)) (ok_injective e) k
  collect-All P set (p ∷ ps) r k (h, l) e =
      let (u, valid, rest) =
        bind-eq-ok (validate_mount_path docker t p)
          (λ _. collect_paths docker t (insert_path p set) ps) e in
      collect-All P (insert_path p set) ps r
        (insert_path-All _ p set (validate-IsMountable p valid, h) k) l rest

  pub listed-All : (paths : List Utf8PathBuf) → All (λ p. lists paths p ≡ true) paths
  listed-All paths = All-of_listed _ paths (λ p l. l)

  -- What the spool is, where the task has one.
  abbrev pub IsSpool : List Utf8PathBuf → List Utf8PathBuf → Utf8PathBuf → Type 0
  IsSpool reads writes spool =
      IsMountable docker t spool
      × (docker_gateway_spool_required t ≡ true)
      × (gateway_spool_host_path debug t ≡ ok spool)
      × (any (covers spool) (reads ++ writes) ≡ false)

  uncovered :
      (reads writes : List Utf8PathBuf) (spool : Utf8PathBuf) {u : Unit {0}}
      → reject_permission_mounts_cover_gateway_spool reads writes spool ≡ ok u
      → any (covers spool) (reads ++ writes) ≡ false
  unfolding reject_permission_mounts_cover_gateway_spool
  uncovered reads writes spool e = ground arith

  required-IsSpool :
      (reads writes : List Utf8PathBuf) (b : Bool) (o : Option Utf8PathBuf)
      → docker_gateway_spool_required t ≡ b
      → (if b
          then (do
            spool ← gateway_spool_host_path debug t
            validate_mount_path docker t spool
            reject_permission_mounts_cover_gateway_spool reads writes spool
            ok (some spool))
          else ok none)
        ≡ ok o
      → AllSome (IsSpool reads writes) o
  required-IsSpool reads writes true o r e =
      let (spool, named, e1) = bind-eq-ok (gateway_spool_host_path debug t) _ e in
      let (u, valid, e2) = bind-eq-ok (validate_mount_path docker t spool) _ e1 in
      let (v, apart, e3) =
        bind-eq-ok (reject_permission_mounts_cover_gateway_spool reads writes spool) _ e2 in
      subst (AllSome (IsSpool reads writes)) (ok_injective e3)
        (validate-IsMountable spool valid, r, named, uncovered reads writes spool apart)
  required-IsSpool reads writes false o r e =
      subst (AllSome (IsSpool reads writes)) (ok_injective e) tt

  pub spool_path-IsSpool :
      (reads writes : List Utf8PathBuf) (o : Option Utf8PathBuf)
      → spool_path docker debug t reads writes ≡ ok o
      → AllSome (IsSpool reads writes) o
  unfolding spool_path
  spool_path-IsSpool reads writes o e =
      required-IsSpool reads writes (docker_gateway_spool_required t) o refl e

  uncovered-All :
      (spool : Utf8PathBuf) (reads writes : List Utf8PathBuf)
      → any (covers spool) (reads ++ writes) ≡ false
      → All (λ read. overlap read spool ≡ false) reads
  uncovered-All spool [] writes e = tt
  uncovered-All spool (p ∷ ps) writes e =
      (ground (arith, e), uncovered-All spool ps writes (ground (arith, e)))

  -- The spool is apart from every path that may be read.
  spool-All :
      (reads writes : List Utf8PathBuf) (o : Option Utf8PathBuf)
      → AllSome (IsSpool reads writes) o
      → All (λ read. AllSome (λ s. overlap read s ≡ false) o) reads
  spool-All reads writes none h = All-of_listed _ reads (λ p l. tt)
  spool-All reads writes (some s) h = uncovered-All s reads writes h.3

  abbrev pub Readable : Utf8PathBuf → Type 0
  Readable p = IsMountable docker t p × (lists t.permissions.paths.read p ≡ true)

  abbrev pub Writable : Utf8PathBuf → Type 0
  Writable p = IsMountable docker t p × (lists t.permissions.paths.write p ≡ true)

  -- A path that is mounted read-only, apart from all that is mounted writable.
  abbrev pub IsApart : List Utf8PathBuf → Option Utf8PathBuf → Utf8PathBuf → Type 0
  IsApart writes spool p =
      All (λ write. overlap p write ≡ false) writes × AllSome (λ s. overlap p s ≡ false) spool

  pub reads-All :
      (reads writes : List Utf8PathBuf) (spool : Option Utf8PathBuf)
      → All Readable reads
      → reject_mixed_mode_overlaps reads writes ≡ ok tt
      → AllSome (IsSpool reads writes) spool
      → All (λ p. Readable p × IsApart writes spool p) (difference reads writes)
  reads-All reads writes spool r mixed s =
      All-weaken _ _ (difference reads writes)
        (λ p ((readable, (checked, free)), none_same).
          (readable, (reject_overlaps-All p writes checked none_same, free)))
        (difference-All _ reads writes (
          All-zip _ _ reads r (
            All-zip _ _ reads (reject_mixed-All reads writes mixed)
              (spool-All reads writes spool s))))
