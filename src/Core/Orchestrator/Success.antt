-- ===== src/Core/Orchestrator/Success.antt =====
-- A run that succeeds has a clean exit behind it.
use task_fence.Prelude.{String, ◌≡◌, ◌≢◌, refl, subst, Bool, true, false, Option, none, some, arith}
use task_fence.Prelude.Int.{pos}
use task_fence.Core.Error.{TaskFenceError, Result, ok, err}
use task_fence.Core.Task.{TaskId, TaskStatus, succeeded, denied, ResolvedTask}
use task_fence.Core.Event.{
  AgentInvocation, RunningTask, RunOutput, ExitStatus, ArtifactRefs, WorkspaceBaseline, TaskResult,
}
use task_fence.Core.Effect.{Ensures, Ensures-bind, ◌>>=◌, pure}
use task_fence.Core.Orchestrator.Calls.{Orchestrator, Run, has_status}
use task_fence.Core.Orchestrator.{
  final_status, close, pre_run_status, finish_pre_run_failure, fail_run, end_run, finish_run,
  after_exit, after_start, after_check, run, run_task,
}

-- The agent exited with code 0, in time.
pub record IsClean (x : ExitStatus) : Type 0 where
  pub code : x.code ≡ some (pos 0)
  pub in_time : x.timed_out ≡ false

final_status-eq-succeeded :
    (m : Option String) (x : ExitStatus) → final_status m x ≡ succeeded → (m ≡ none) × IsClean x
unfolding final_status
final_status-eq-succeeded m x h = ground arith

-- A result that says `Succeeded` has a clean exit and no failure message.
abbrev IsJustified : Result TaskResult → Type 0
IsJustified (ok r) =
    r.status ≡ succeeded
    → (r.message ≡ none) × ((x : ExitStatus) × (r.exit_status ≡ some x) × IsClean x)
IsJustified (err e) = Unit

module _ {W : Type 0} (o : Orchestrator W) where
  abbrev Justifies : Run W TaskResult → Type 0
  Justifies m = Ensures (λ s. Unit {0}) m (λ r s. IsJustified r)

  rest-Justifies :
      {A : Type 0} (m : Run W A) (f : A → Run W TaskResult)
      → ((a : A) → Justifies (f a))
      → Justifies (m >>= f)
  rest-Justifies m f h =
      Ensures-bind (λ s. Unit {0}) (λ r s. Unit {0}) (λ r s. IsJustified r) m f (λ s u. tt) h
        (λ e s u. tt)

  -- The status and the message that `close` is given.
  abbrev IsHonest : TaskStatus → Option String → Option ExitStatus → Type 0
  IsHonest st m x = st ≡ succeeded → (m ≡ none) × ((e : ExitStatus) × (x ≡ some e) × IsClean e)

  close-Justifies :
      (t : ResolvedTask) (x : Option ExitStatus) (a : ArtifactRefs) (st : TaskStatus)
      (m : Option String) (r : Result (Unit {0}))
      → IsHonest st m x
      → Justifies (close o t x a st m r)
  unfolding close pure
  close-Justifies t x a st m (ok u) h = λ s _. h
  close-Justifies t x a st m (err e) h =
      rest-Justifies _ _ (λ _. rest-Justifies _ _ (λ _ s u k. cc k))

  fail_run-Justifies :
      (t : ResolvedTask) (a : ArtifactRefs) (e : TaskFenceError) → Justifies (fail_run o t a e)
  unfolding fail_run pure
  fail_run-Justifies t a e =
      rest-Justifies _ _ (λ _. rest-Justifies _ _ (λ _. rest-Justifies _ _ (λ _ s u k. cc k)))

  abbrev IsFailure : Result TaskStatus → Type 0
  IsFailure (ok st) = st ≢ succeeded
  IsFailure (err e) = Unit

  pre_run-IsFailure :
      (id : TaskId) (b : Bool)
      → Ensures (λ s. Unit {0}) (pre_run_status o id b) (λ r s. IsFailure r)
  unfolding pre_run_status pure
  pre_run-IsFailure id true = λ s u k. cc k
  pre_run-IsFailure id false =
      Ensures-bind (λ s. Unit {0}) (λ r s. Unit {0}) (λ r s. IsFailure r) _ _ (λ s u. tt)
        (λ _ s u k. cc k) (λ e s u. tt)

  finish_pre_run_failure-Justifies :
      (t : ResolvedTask) (a : ArtifactRefs) (e : TaskFenceError)
      → Justifies (finish_pre_run_failure o t a e)
  unfolding finish_pre_run_failure
  finish_pre_run_failure-Justifies t a e = rest-Justifies _ _ (λ events.
      Ensures-bind (λ s. Unit {0}) (λ r s. IsFailure r) (λ r s. IsJustified r) _ _
        (pre_run-IsFailure t.id (has_status events denied))
        (λ st s no.
          rest-Justifies _ _
            (λ _. rest-Justifies _ _ (λ r. close-Justifies t none a st _ r (λ k. absurd (no k)))) s
            tt)
        (λ f s u. tt))

  end_run-Justifies :
      (t : ResolvedTask) (a : ArtifactRefs) (r : RunOutput) (m : Option String)
      → Justifies (end_run o t a r m)
  unfolding end_run
  end_run-Justifies t a r m = rest-Justifies _ _ (λ _. rest-Justifies _ _ (λ _.
      rest-Justifies _ _ (λ reported. close-Justifies t (some r.exit_status) a _ m reported (λ k.
        let (no_message, clean) = final_status-eq-succeeded m r.exit_status k in
        (no_message, (r.exit_status, refl, clean))))))

  after_exit-Justifies :
      (t : ResolvedTask) (a : ArtifactRefs) (b : WorkspaceBaseline) (g : RunningTask)
      (r : Result RunOutput)
      → Justifies (after_exit o t a b g r)
  unfolding after_exit finish_run
  after_exit-Justifies t a b g (ok out) = rest-Justifies _ _ (λ _. rest-Justifies _ _ (λ _.
      rest-Justifies _ _ (λ _.
        rest-Justifies _ _
          (λ _. rest-Justifies _ _ (λ _. rest-Justifies _ _ (λ m. end_run-Justifies t a out m))))))
  after_exit-Justifies t a b g (err e) = rest-Justifies _ _ (λ _. fail_run-Justifies t a e)

  after_check-Justifies :
      (t : ResolvedTask) (i : AgentInvocation) (a : ArtifactRefs) (r : Result (Unit {0}))
      → Justifies (after_check o t i a r)
  unfolding after_check after_start
  after_check-Justifies t i a (err e) = finish_pre_run_failure-Justifies t a e
  after_check-Justifies t i a (ok u) = rest-Justifies _ _ (λ b.
      rest-Justifies _ _ (λ p. rest-Justifies _ _ (λ _. rest-Justifies _ _ (λ r. started t a b r))))
    where
      started :
          (t : ResolvedTask) (a : ArtifactRefs) (b : WorkspaceBaseline) (r : Result RunningTask)
          → Justifies (after_start o t a b r)
      started t a b (ok g) = rest-Justifies _ _ (λ r. after_exit-Justifies t a b g r)
      started t a b (err e) = fail_run-Justifies t a e

  run-Justifies : (t : ResolvedTask) → Justifies (run o t)
  unfolding run
  run-Justifies t = rest-Justifies _ _ (λ _. rest-Justifies _ _ (λ at. rest-Justifies _ _ (λ _.
      rest-Justifies _ _ (λ _. rest-Justifies _ _ (λ i. rest-Justifies _ _ (λ _.
        rest-Justifies _ _ (λ a.
          rest-Justifies _ _ (λ _. rest-Justifies _ _ (λ r. after_check-Justifies t i a r)))))))))

  justified :
      (r : Result TaskResult) (result : TaskResult)
      → IsJustified r
      → r ≡ ok result
      → IsJustified (ok result)
  justified (ok r) result h e = subst IsJustified e h
  justified (err f) result h e = cc

  -- A run that returns `Succeeded` saw the agent exit with code 0 before the timeout, and has no
  -- failure message.
  pub run_task-succeeded :
      (t : ResolvedTask) (w : W) (result : TaskResult)
      → (run_task o t w).0 ≡ ok result
      → result.status ≡ succeeded
      → (result.message ≡ none) × ((x : ExitStatus) × (result.exit_status ≡ some x) × IsClean x)
  unfolding run_task
  run_task-succeeded t w result h k = justified _ result (run-Justifies t _ tt) h k
