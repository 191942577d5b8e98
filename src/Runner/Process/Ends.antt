-- ===== src/Runner/Process/Ends.antt =====
-- The end of the wait for a process that is given a time.
use task_fence.Prelude.{ℕ, ◌+◌, ◌≤◌, String, ◌≡◌, Option, some, List}
use task_fence.Core.Error.{Result}
use task_fence.Core.Blocking.{Blocking}
use task_fence.Runner.Process.{ProcessStatus, Processes, ProcessMessages}
use task_fence.Std.Io.{Io, done}

-- Asking for a process does not turn the clock back, and a sleep lasts at least its time.
pub record IsClock {W : Type 0} (p : Processes W) : Type 0 where
  pub tries : (child : ℕ) (w : W) → p.instant w ≤ p.instant (p.try_wait child w).1
  pub sleeps : (d : ℕ) (w : W) → p.instant w + d ≤ p.instant (p.sleep d w)

-- A call that returns, to a world where `P` holds.
abbrev pub Answers : {W A : Type 0} → (W → Type 0) → Option (A × W) → Type 0
Answers {W} {A} P q = (a : A) × (w : W) × (q ≡ some (a, w)) × P w

-- `HasEnded child w` says that the child has ended in the world `w`, and with it all that could write to
-- its pipes. A child has ended once `kill` succeeds or `try_wait` gives its status. Only for a child that
-- has ended is it known that `wait` and the threads that read its pipes return, and that the command of
-- the cleanup does.
pub record EndsChildren {W : Type 0} (p : Processes W) (HasEnded : ℕ → W → Type 0) : Type 0 where
  pub kill :
      (child : ℕ) (w : W) {u : Unit {0}}
      → (p.kill child w).0 ≡ done u
      → HasEnded child (p.kill child w).1
  pub try_wait :
      (child : ℕ) (w : W) {status : ProcessStatus}
      → (p.try_wait child w).0 ≡ done (some status)
      → HasEnded child (p.try_wait child w).1
  pub output :
      (executable : String) (args : List String) (child : ℕ) (w : W)
      → HasEnded child w
      → Answers (HasEnded child) (p.output executable args w)
  pub wait : (child : ℕ) (w : W) → HasEnded child w → Answers (HasEnded child) (p.wait child w)
  pub join_stdout :
      (child : ℕ) (w : W) → HasEnded child w → Answers (HasEnded child) (p.join_stdout child w)
  pub join_stderr :
      (child : ℕ) (w : W) → HasEnded child w → Answers (HasEnded child) (p.join_stderr child w)

module _ {W : Type 0} (p : Processes W) (HasEnded : ℕ → W → Type 0) (ends : EndsChildren p HasEnded)
    (messages : ProcessMessages) (cleanup : Option (String × String)) (child : ℕ) where
  abbrev Ended : {A : Type 0} → A → W → Type 0
  Ended _ = HasEnded child

-- The code returns, with a value or with an error.
abbrev pub Finishes : {A W : Type 0} → Option (Result A × W) → Type 0
Finishes {A} {W} q = (r : Result A) × (w : W) × (q ≡ some (r, w))
