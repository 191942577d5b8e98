-- ===== src/Runner/Mounts.antt =====
-- crates/taskfence-runner/src/lib.rs: `DockerRunner::build_mount_plan`. A set of paths is a list in the
-- order of paths; `debug` is what `{:?}` prints.
pub mod Lists
pub mod Safe
pub mod Plan
use Prim.Native.Nat.{Ordering}
use task_fence.Prelude.{
  String, Bool, true, false, not, ◌&&◌, ◌||◌, Option, none, some, List, [], ◌∷◌, ◌++◌, any, ◌==◌,
  map, if◌then◌else◌,
}
use task_fence.Std.Text.{to_ascii_lowercase, ends_with}
use task_fence.Std.Format.{format}
use task_fence.Std.Path.{
  is_absolute, contains_parent_dir, path_starts_with, join, compare_paths, same_path, strip_prefix,
}
use task_fence.Std.Map.{BTreeMap, get}
use task_fence.Core.Error.{Result, ok, err, runner, ◌>>=◌, ◌>>◌}
use task_fence.Core.Task.{Utf8PathBuf, ResolvedTask}
use task_fence.Core.Event.{MountMode, read_only, read_write, MountPlan}
use task_fence.Runner.Gateway.{
  docker_gateway_spool_required, gateway_spool_host_path, spool_container_path,
}

-- The runner without its table of completed runs.
pub record DockerRunner : Type 0 where
  pub host_env : BTreeMap String
  pub host_home : Option Utf8PathBuf
  pub docker_command : String

abbrev pub refuse : {T : Type 0} → String → Result T
refuse message = err (runner message)

unfoldable pub validate_workspace_path : Utf8PathBuf → Result (Unit {0})
unfolding is_absolute contains_parent_dir format
validate_workspace_path path =
    if not (is_absolute path)
    then refuse (format ("workspace host path must be absolute: " ∷ path ∷ []))
    else if contains_parent_dir path
    then refuse (format ("workspace host path must not contain '..': " ∷ path ∷ []))
    else ok tt

unfoldable pub is_docker_socket_path : Utf8PathBuf → Bool
unfolding to_ascii_lowercase ends_with
is_docker_socket_path path =
    let lower = to_ascii_lowercase path in
    lower == "/var/run/docker.sock" || lower == "/run/docker.sock" || ends_with lower "/docker.sock"

unfoldable pub validate_mount_host_path : Utf8PathBuf → Result (Unit {0})
unfolding is_absolute contains_parent_dir is_docker_socket_path format
validate_mount_host_path path =
    if not (is_absolute path)
    then refuse (format ("mount path must be absolute: " ∷ path ∷ []))
    else if contains_parent_dir path
    then refuse (format ("mount path must not contain '..': " ∷ path ∷ []))
    else if is_docker_socket_path path
    then refuse (format ("mount path would expose the host Docker socket: " ∷ path ∷ []))
    else ok tt

-- `Option::is_some_and`
abbrev pub is_some_and {ℓ} : {A : Type ℓ} → (A → Bool) → Option A → Bool
is_some_and p none = false
is_some_and p (some a) = p a

-- A set of paths.
unfoldable pub insert_path : Utf8PathBuf → List Utf8PathBuf → List Utf8PathBuf
unfolding compare_paths
insert_path p [] = p ∷ []
insert_path p (q ∷ qs) = elim (compare_paths p q) [
  | Ordering.lt ↦ p ∷ q ∷ qs
  | Ordering.eq ↦ q ∷ qs
  | Ordering.gt ↦ q ∷ insert_path p qs
]

unfoldable pub difference : List Utf8PathBuf → List Utf8PathBuf → List Utf8PathBuf
unfolding same_path
difference [] other = []
difference (p ∷ ps) other =
    if any (same_path p) other then difference ps other else p ∷ difference ps other

-- `read.starts_with(write) || write.starts_with(read)`
abbrev pub overlap : Utf8PathBuf → Utf8PathBuf → Bool
overlap a b = path_starts_with a b || path_starts_with b a

-- The loop over `write_paths`.
unfoldable pub reject_overlaps_of : Utf8PathBuf → List Utf8PathBuf → Result (Unit {0})
unfolding same_path path_starts_with format
reject_overlaps_of read [] = ok tt
reject_overlaps_of read (write ∷ writes) =
    if not (same_path read write) && overlap read write
    then refuse
        (format ("ambiguous read-only/read-write mount overlap: " ∷ read ∷ " and " ∷ write ∷ []))
    else reject_overlaps_of read writes

unfoldable pub reject_mixed_mode_overlaps : List Utf8PathBuf → List Utf8PathBuf → Result (Unit {0})
unfolding reject_overlaps_of
reject_mixed_mode_overlaps [] writes = ok tt
reject_mixed_mode_overlaps (read ∷ reads) writes =
    reject_overlaps_of read writes >> reject_mixed_mode_overlaps reads writes

abbrev pub covers : Utf8PathBuf → Utf8PathBuf → Bool
covers spool path =
    same_path path spool || path_starts_with spool path || path_starts_with path spool

unfoldable pub reject_permission_mounts_cover_gateway_spool :
    List Utf8PathBuf → List Utf8PathBuf → Utf8PathBuf → Result (Unit {0})
reject_permission_mounts_cover_gateway_spool reads writes spool =
    if any (covers spool) (reads ++ writes)
    then refuse
        (format ("gateway spool must be exposed only through its dedicated mount: " ∷ spool ∷ []))
    else ok tt

abbrev pub container_path_of : ResolvedTask → Utf8PathBuf → Option String → Result Utf8PathBuf
container_path_of task host_path none =
    refuse (format ("mount path is outside the task workspace: " ∷ host_path ∷ []))
container_path_of task host_path (some relative) = ok (join task.workspace_container_path relative)

unfoldable pub container_path_for : ResolvedTask → Utf8PathBuf → Result Utf8PathBuf
unfolding same_path strip_prefix join format
container_path_for task host_path =
    if same_path host_path task.workspace_host_path
    then ok task.workspace_container_path
    else container_path_of task host_path (strip_prefix host_path task.workspace_host_path)

-- The order of mounts: by container path, then by host path.
abbrev pub precedes : MountPlan → MountPlan → Bool
precedes a b = elim (compare_paths a.container_path b.container_path) [
  | Ordering.lt ↦ true
  | Ordering.gt ↦ false
  | Ordering.eq ↦ elim (compare_paths a.host_path b.host_path) [ Ordering.gt ↦ false | _ ↦ true ]
]

-- `sort_by`, a stable sort.
unfoldable pub insert_mount : MountPlan → List MountPlan → List MountPlan
unfolding compare_paths
insert_mount m [] = m ∷ []
insert_mount m (n ∷ ns) = if precedes m n then m ∷ n ∷ ns else n ∷ insert_mount m ns

unfoldable pub sort_mounts : List MountPlan → List MountPlan
unfolding insert_mount
sort_mounts [] = []
sort_mounts (m ∷ ms) = insert_mount m (sort_mounts ms)

module _ (docker : DockerRunner) where
  unfoldable pub exposes_host_home : Utf8PathBuf → Bool
  unfolding same_path path_starts_with
  exposes_host_home path =
      is_some_and (λ home. same_path path home || path_starts_with home path) docker.host_home

  unfoldable pub exposes_ssh_auth_socket : Utf8PathBuf → Bool
  unfolding same_path path_starts_with get
  exposes_ssh_auth_socket path =
      is_some_and
        (λ socket.
          same_path path socket || path_starts_with socket path || path_starts_with path socket)
        (get "SSH_AUTH_SOCK" docker.host_env)

  unfoldable pub validate_mount_path : ResolvedTask → Utf8PathBuf → Result (Unit {0})
  unfolding validate_mount_host_path exposes_host_home exposes_ssh_auth_socket
  validate_mount_path task path =
      validate_mount_host_path path
      >> (if exposes_host_home path
          then refuse (format ("mount path would expose the host home directory: " ∷ path ∷ []))
          else if exposes_ssh_auth_socket path
          then refuse (format ("mount path would expose the host SSH agent socket: " ∷ path ∷ []))
          else if not (path_starts_with path task.workspace_host_path)
          then refuse (format ("mount path is outside the task workspace: " ∷ path ∷ []))
          else ok tt)

  -- A loop that validates paths and collects them, with the set so far.
  unfoldable pub collect_paths :
      ResolvedTask → List Utf8PathBuf → List Utf8PathBuf → Result (List Utf8PathBuf)
  unfolding validate_mount_path insert_path
  collect_paths task paths [] = ok paths
  collect_paths task paths (path ∷ rest) =
      validate_mount_path task path >> collect_paths task (insert_path path paths) rest

  -- The gateway's spool, which only a task with gateway tools has.
  unfoldable pub spool_path :
      (String → String)
      → ResolvedTask
      → List Utf8PathBuf
      → List Utf8PathBuf
      → Result (Option Utf8PathBuf)
  unfolding docker_gateway_spool_required gateway_spool_host_path validate_mount_path
      reject_permission_mounts_cover_gateway_spool
  spool_path debug task reads writes =
      if docker_gateway_spool_required task
      then (do
        spool ← gateway_spool_host_path debug task
        validate_mount_path task spool
        reject_permission_mounts_cover_gateway_spool reads writes spool
        ok (some spool))
      else ok none

  -- The loops that push mounts.
  unfoldable pub mounts_of : ResolvedTask → MountMode → List Utf8PathBuf → Result (List MountPlan)
  unfolding container_path_for
  mounts_of task mode [] = ok []
  mounts_of task mode (path ∷ rest) = do
    container_path ← container_path_for task path
    mounts ← mounts_of task mode rest
    ok (record { host_path = path; container_path = container_path; mode = mode } ∷ mounts)

  abbrev pub spool_mount : Option Utf8PathBuf → List MountPlan
  spool_mount none = []
  spool_mount (some spool) =
      record { host_path = spool; container_path = spool_container_path; mode = read_write } ∷ []

  unfoldable pub build_mount_plan : (String → String) → ResolvedTask → Result (List MountPlan)
  unfolding collect_paths spool_path mounts_of sort_mounts validate_workspace_path
      reject_mixed_mode_overlaps difference
  build_mount_plan debug task = do
    validate_workspace_path task.workspace_host_path
    reads ← collect_paths task [] task.permissions.paths.read
    writes ← collect_paths task [] task.permissions.paths.write
    reject_mixed_mode_overlaps reads writes
    spool ← spool_path debug task reads writes
    read_mounts ← mounts_of task read_only (difference reads writes)
    write_mounts ← mounts_of task read_write writes
    ok (sort_mounts (read_mounts ++ write_mounts ++ spool_mount spool))
