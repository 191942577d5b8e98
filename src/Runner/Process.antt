-- ===== src/Runner/Process.antt =====
-- crates/taskfence-runner/src/lib.rs: `run_command_with_timeout`. The operating system's processes, its
-- threads and its clock are the record `Processes`; times are milliseconds. Here: what is done before the
-- loop.
pub mod Loop
pub mod Ends
use task_fence.Prelude.{
  ℕ, ◌+◌, String, Bool, true, false, Option, none, some, List, [], ◌∷◌, if◌then◌else◌,
}
use task_fence.Prelude.Int.{ℤ}
use task_fence.Std.Format.{format}
use task_fence.Std.Decimal.{to_decimal}
use task_fence.Core.Error.{map_err, ok, err, TaskFenceError, runner}
use task_fence.Std.Io.{IoError, not_found, other, Io, failed, message_of}
use task_fence.Core.Effect.{Effect, pure, ◌>>=◌, ◌>>◌}
use task_fence.Core.Event.{ExitStatus}

-- `std::process::ExitStatus` of a Unix process.
pub record ProcessStatus : Type 0 where
  pub code : Option ℤ
  pub signal : Option ℕ

-- What the code calls, a child being known by its number. `take_…` says whether there is a pipe,
-- `read_…` starts the thread that reads it, and `join_…` gives its text, if the thread did not panic.
-- `wait`, `output` and `join_…` wait for another process or thread, and give `none` where that never ends;
-- `latest` is the last instant that an `Instant` holds.
pub record Processes (W : Type 0) : Type 0 where
  pub spawn : String → List String → W → Io ℕ × W
  pub take_stdout : ℕ → W → Bool × W
  pub take_stderr : ℕ → W → Bool × W
  pub read_stdout : ℕ → W → W
  pub read_stderr : ℕ → W → W
  pub try_wait : ℕ → W → Io (Option ProcessStatus) × W
  pub kill : ℕ → W → Io (Unit {0}) × W
  pub wait : ℕ → W → Option (Io ProcessStatus × W)
  pub output : String → List String → W → Option (Io (Unit {0}) × W)
  pub join_stdout : ℕ → W → Option (Option String × W)
  pub join_stderr : ℕ → W → Option (Option String × W)
  pub instant : W → ℕ
  pub latest : ℕ
  pub sleep : ℕ → W → W

pub record ProcessMessages : Type 0 where
  pub unavailable_message : String
  pub start_label : String
  pub wait_label : String
  pub kill_label : String
  pub stdout_label : String
  pub stderr_label : String

-- `map_err` with a text that the error's own follows.
unfoldable pub labelled : String → IoError → TaskFenceError
unfolding format
labelled prefix e = runner (format (prefix ∷ ": " ∷ message_of e ∷ []))

abbrev spawn_error : ProcessMessages → IoError → TaskFenceError
spawn_error messages (not_found m) = runner messages.unavailable_message
spawn_error messages (other m) =
    labelled (format ("failed to start " ∷ messages.start_label ∷ [])) (other m)

abbrev exit_signal : ProcessStatus → Option String
exit_signal status = elim status.signal [ none ↦ none | some signal ↦ some (to_decimal signal) ]

unfoldable pub exit_status_of : Bool → ProcessStatus → ExitStatus
unfolding to_decimal
exit_status_of true status = record { code = none; timed_out = true; signal = some "timeout" }
exit_status_of false status = record {
  code = status.code;
  timed_out = false;
  signal = exit_signal status;
}

module _ {W : Type 0} (p : Processes W) where
  -- A call of the system whose error is passed on.
  unfoldable pub io : {A : Type 0} → (IoError → TaskFenceError) → (W → Io A × W) → Effect W A
  io f call w = (map_err f (call w).0, (call w).1)

  -- `take().ok_or_else(…)?`
  unfoldable pub captured : String → (W → Bool × W) → Effect W (Unit {0})
  unfolding format
  captured label take w = (
    if (take w).0 then ok tt else err (runner (format ("failed to capture " ∷ label ∷ []))),
    (take w).1,
  )

  unfoldable pub run_reader : (W → W) → Effect W (Unit {0})
  run_reader start w = (ok tt, start w)

  -- What is done before the loop: the child, with the pipes being read.
  unfoldable pub start_child : ProcessMessages → String → List String → Effect W ℕ
  unfolding io captured run_reader labelled format
  start_child messages executable args = do
    child ← io (spawn_error messages) (p.spawn executable args)
    captured messages.stdout_label (p.take_stdout child)
    captured messages.stderr_label (p.take_stderr child)
    run_reader (p.read_stdout child)
    run_reader (p.read_stderr child)
    pure child
