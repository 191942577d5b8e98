-- ===== src/Runner/Process/Loop.antt =====
-- crates/taskfence-runner/src/lib.rs: `run_command_with_timeout` from its deadline on. The loop runs on
-- fuel, one unit for each poll.
use task_fence.Prelude.{
  ℕ, zero, suc, ◌+◌, String, Bool, true, false, Option, none, some, List, [], ◌∷◌, leb,
  if◌then◌else◌,
}
use task_fence.Std.Format.{format}
use task_fence.Std.Io.{IoError, Io, done, failed}
use task_fence.Core.Error.{map_err, Result, ok, err, TaskFenceError, runner}
use task_fence.Core.Blocking.{Blocking, pure, ◌>>=◌, ◌>>◌}
use task_fence.Core.Event.{RunOutput}
use task_fence.Runner.Process.{
  ProcessStatus, Processes, ProcessMessages, labelled, exit_status_of, start_child,
}

abbrev joined : String → Option String → Result String
joined stream none = err (runner (format (stream ∷ " reader panicked" ∷ [])))
joined stream (some text) = ok text

module _ {W : Type 0} where
  -- The result of a call that may not return.
  abbrev pub answered : {A B : Type 0} → (A → Result B) → Option (A × W) → Option (Result B × W)
  answered f none = none
  answered f (some (a, w)) = some (f a, w)

  unfoldable pub join_reader : String → (W → Option (Option String × W)) → Blocking W String
  unfolding format
  join_reader stream join w = answered (joined stream) (join w)

  -- A call of the system that returns, with its error passed on.
  unfoldable pub at_once : {A : Type 0} → (IoError → TaskFenceError) → (W → Io A × W) → Blocking W A
  at_once f call w = some (map_err f (call w).0, (call w).1)

  -- A call of the system that may not return, with its error passed on.
  unfoldable pub waited :
      {A : Type 0} → (IoError → TaskFenceError) → (W → Option (Io A × W)) → Blocking W A
  waited f call w = answered (map_err f) (call w)

module _ {W : Type 0} (p : Processes W) where
  -- Its result is dropped.
  unfoldable pub clean_up : Option (String × String) → Blocking W (Unit {0})
  clean_up none w = pure tt w
  clean_up (some (docker_command, runner_ref)) w =
      answered (λ _. ok tt) (p.output docker_command ("rm" ∷ "-f" ∷ runner_ref ∷ []) w)

  module _ (messages : ProcessMessages) (docker_cleanup : Option (String × String)) where
    -- The branch at the deadline.
    unfoldable pub kill_child : ℕ → Blocking W (Bool × ProcessStatus)
    unfolding at_once waited clean_up labelled format
    kill_child child = do
      at_once (labelled (format ("failed to kill " ∷ messages.kill_label ∷ []))) (p.kill child)
      clean_up docker_cleanup
      status ←
          waited (labelled (format ("failed to wait for killed " ∷ messages.wait_label ∷ [])))
            (p.wait child)
      pure (true, status)

    abbrev pub is_over : Option ℕ → ℕ → Bool
    is_over none now = false
    is_over (some deadline) now = leb deadline now

    module _ (child : ℕ) (deadline : Option ℕ) where
      -- A round after `try_wait`; `again` is the next round.
      unfoldable pub round :
          Blocking W (Bool × ProcessStatus)
          → Io (Option ProcessStatus)
          → Blocking W (Bool × ProcessStatus)
      unfolding kill_child labelled format
      round again (failed e) w =
          some (err (labelled (format ("failed to wait for " ∷ messages.wait_label ∷ [])) e), w)
      round again (done (some status)) w = some (ok (false, status), w)
      round again (done none) w =
          if is_over deadline (p.instant w) then kill_child child w else again (p.sleep 50 w)

      -- The loop.
      unfoldable pub polls : ℕ → Blocking W (Bool × ProcessStatus)
      unfolding round
      polls zero w = none
      polls (suc fuel) w = round (polls fuel) (p.try_wait child w).0 (p.try_wait child w).1

  -- What is done after the loop.
  unfoldable pub finish : ProcessMessages → ℕ → (Bool × ProcessStatus) → Blocking W RunOutput
  unfolding join_reader exit_status_of
  finish messages child (timed_out, status) = do
    stdout ← join_reader messages.stdout_label (p.join_stdout child)
    stderr ← join_reader messages.stderr_label (p.join_stderr child)
    pure
        (record { exit_status = exit_status_of timed_out status; stdout = stdout; stderr = stderr })

  -- `Instant::now() + duration`, which panics where no `Instant` holds the sum.
  unfoldable pub deadline_of : Option ℕ → Blocking W (Option ℕ)
  deadline_of none w = pure none w
  deadline_of (some timeout) w =
      let deadline = p.instant w + timeout in
      if leb deadline p.latest then some (ok (some deadline), w) else none

  module _ (fuel : ℕ) (timeout : Option ℕ) (messages : ProcessMessages)
      (docker_cleanup : Option (String × String)) where
    unfoldable pub with_child : Result ℕ → Blocking W RunOutput
    unfolding deadline_of polls finish
    with_child (err e) w = some (err e, w)
    with_child (ok child) w =
        (deadline_of timeout >>= λ deadline.
        polls messages docker_cleanup child deadline fuel >>= finish messages child)
          w

    unfoldable pub run_command_with_timeout : String → List String → Blocking W RunOutput
    unfolding start_child with_child
    run_command_with_timeout executable args w =
        with_child (start_child p messages executable args w).0
          (start_child p messages executable args w).1
