-- ===== src/Runner/Docker/Args.antt =====
-- crates/taskfence-runner/src/lib.rs: the arguments of `docker run`.
use Prim.Native.String.{[], ◌∷◌}
use task_fence.Prelude.{
  ℕ, zero, suc, Char, String, Bool, ◌||◌, Option, none, some, List, if◌then◌else◌,
}
use mathlib.Core.List
use task_fence.Std.Text.{any_char}
use task_fence.Std.Split.{is_char}
use task_fence.Std.Parse.{is_ascii_alphanumeric}
use task_fence.Std.Format.{format}
use task_fence.Std.Decimal.{to_decimal}
use task_fence.Std.Map.{BTreeMap}
use task_fence.Core.Error.{Result, ok, ◌>>=◌, ◌>>◌}
use task_fence.Core.Task.{TaskId, Utf8PathBuf, LimitConfig}
use task_fence.Core.Event.{
  AgentInvocation, MountMode, read_only, read_write, MountPlan, PreparedRun,
}
use task_fence.Runner.Mounts.{refuse}
use task_fence.Runner.Docker.{docker_network_arg}

abbrev pub words : String → String → List String
words a b = List.◌∷◌ a (List.◌∷◌ b List.[])

unfoldable pub reject_docker_arg : String → String → Result (Unit {0})
reject_docker_arg field value =
    if any_char (is_char 0) value
    then refuse (format (words field " must not contain NUL"))
    else ok tt

unfoldable pub reject_docker_mount_path : String → Utf8PathBuf → Result (Unit {0})
unfolding reject_docker_arg
reject_docker_mount_path field path =
    reject_docker_arg field path
    >> (if any_char (is_char b',') path
        then refuse (
            format
              (List.◌∷◌ field (words " must not contain ',' for Docker --mount syntax: " path)))
        else ok tt)

abbrev mode_suffix : MountMode → String
mode_suffix read_only = ",readonly"
mode_suffix read_write = ""

unfoldable pub docker_mount_arg : MountPlan → Result String
unfolding reject_docker_mount_path
docker_mount_arg mount =
    reject_docker_mount_path "mount source" mount.host_path
    >> reject_docker_mount_path "mount target" mount.container_path
    >> ok (
        format (
          List.◌∷◌ "type=bind,source=" (
            List.◌∷◌ mount.host_path
              (List.◌∷◌ ",target=" (words mount.container_path (mode_suffix mount.mode))))))

abbrev pub is_name_char : Char → Bool
is_name_char c = is_ascii_alphanumeric c || is_char b'_' c || is_char b'-' c || is_char b'.' c

-- The loop over the characters of the id.
unfoldable pub safe_name : String → String
safe_name [] = []
safe_name (c ∷ s) = if is_name_char c then c ∷ safe_name s else format (words "-" (safe_name s))

-- `truncate` of a text of ASCII characters.
unfoldable pub truncate : ℕ → String → String
truncate zero s = []
truncate (suc n) [] = []
truncate (suc n) (c ∷ s) = c ∷ truncate n s

unfoldable pub docker_container_name : TaskId → String
unfolding safe_name truncate
docker_container_name id = truncate 120 (format (words "taskfence-" (safe_name id)))

-- `for arg in … { reject_docker_arg(…)? }`
unfoldable pub reject_args : List String → Result (Unit {0})
reject_args List.[] = ok tt
reject_args (List.◌∷◌ arg args) = reject_docker_arg "agent argument" arg >> reject_args args

unfoldable pub mount_args : List MountPlan → Result (List String)
unfolding docker_mount_arg
mount_args List.[] = ok List.[]
mount_args (List.◌∷◌ mount mounts) = do
  arg ← docker_mount_arg mount
  rest ← mount_args mounts
  ok (List.◌∷◌ "--mount" (List.◌∷◌ arg rest))

unfoldable pub env_args : BTreeMap String → Result (List String)
env_args List.[] = ok List.[]
env_args (List.◌∷◌ (name, value) env) = do
  reject_docker_arg "environment variable name" name
  reject_docker_arg "environment variable value" value
  rest ← env_args env
  ok (List.◌∷◌ "--env" (List.◌∷◌ (format (List.◌∷◌ name (words "=" value))) rest))

abbrev cpu_args : Option ℕ → List String
cpu_args none = List.[]
cpu_args (some cpu) = words "--cpus" (to_decimal cpu)

abbrev memory_args : Option String → Result (List String)
memory_args none = ok List.[]
memory_args (some memory) = reject_docker_arg "memory limit" memory >> ok (words "--memory" memory)

abbrev disk_args : Option String → Result (List String)
disk_args none = ok List.[]
disk_args (some disk) =
    reject_docker_arg "disk limit" disk >> ok (words "--storage-opt" (format (words "size=" disk)))

unfoldable pub limit_args : LimitConfig → Result (List String)
unfolding reject_docker_arg to_decimal format
limit_args limits = do
  memory ← memory_args limits.memory
  disk ← disk_args limits.disk
  ok (List.◌++◌ (cpu_args limits.cpu) (List.◌++◌ memory disk))

abbrev image_of : Option String → Result String
image_of none = refuse "sandbox.image is required for Docker execution"
image_of (some image) = ok image

unfoldable pub build_docker_run_args : String → PreparedRun → AgentInvocation → Result (List String)
unfolding mount_args env_args limit_args reject_args
build_docker_run_args runner_ref prepared invocation = do
  image ← image_of prepared.image
  reject_docker_arg "sandbox.image" image
  reject_docker_arg "agent executable" invocation.executable
  reject_args invocation.args
  network ← docker_network_arg prepared
  mounts ← mount_args prepared.mounts
  env ← env_args prepared.env
  limits ← limit_args prepared.limits
  ok (
      List.◌∷◌ "run" (
        List.◌∷◌ "--rm" (
          List.◌∷◌ "--pull=never" (
            List.◌∷◌ "--name" (
              List.◌∷◌ runner_ref (
                List.◌∷◌ "--workdir" (
                  List.◌∷◌ invocation.working_dir (
                    List.◌∷◌ "--network" (
                      List.◌∷◌ network (
                        List.◌++◌ mounts (
                          List.◌++◌ env (
                            List.◌++◌ limits (
                              List.◌∷◌ image
                                (List.◌∷◌ invocation.executable invocation.args))))))))))))))
