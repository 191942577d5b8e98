-- ===== src/Runner/Runs/Kept.antt =====
-- The output that a runner keeps of a run.
use task_fence.Prelude.{String, ◌≡◌, refl, ap, false, arith, Option, none, some}
use task_fence.Std.Map.{BTreeMap, insert, get-insert}
use task_fence.Core.Error.{Result, ok, err}
use task_fence.Core.Event.{RunningTask, RunOutput}
use task_fence.Runner.Runs.{Completed, lock_completed, remember, finished, collect_exit}

-- A store that can be locked is not poisoned.
lock_is_sound :
    (name : String) (c : Completed) (outputs : BTreeMap RunOutput)
    → lock_completed name c ≡ ok outputs
    → c.poisoned ≡ false
unfolding lock_completed
lock_is_sound name c outputs e = ground arith

-- What a runner has put in its store is what it finds there.
remembered-found :
    (name : String) (running : RunningTask) (c : Completed) (output : RunOutput)
    (outputs : BTreeMap RunOutput)
    → c.poisoned ≡ false
    → (collect_exit name running
        (record c { completed = insert running.runner_ref output outputs })).0
      ≡ ok output
unfolding collect_exit lock_completed
remembered-found name running c output outputs h =
    rw h (rw (get-insert running.runner_ref output outputs) refl)

module _ {W : Type 0} (name : String) (running : RunningTask) (c' : Completed) (w' : W)
    (r : RunningTask) where
  -- A run that succeeds: its command did, and its output is the one that is collected.
  abbrev pub IsKept : Option (Result RunOutput × W) → Type 0
  IsKept q =
      (output : RunOutput) × (q ≡ some (ok output, w'))
      × (r ≡ running)
      × ((collect_exit name r c').0 ≡ ok output)

  remember-IsKept :
      (c : Completed) (output : RunOutput) (lock : Result (BTreeMap RunOutput)) (w : W)
      → lock_completed name c ≡ lock
      → remember name running output c lock w ≡ (ok r, c', w')
      → IsKept (some (ok output, w))
  remember-IsKept c output (err x) w l e = cc e
  remember-IsKept c output (ok outputs) w l e =
      let er : r ≡ running = cc e in
      let ec : c' ≡ record c { completed = insert running.runner_ref output outputs } = cc e in
      let ew : w ≡ w' = cc e in
      (
        output,
        ap (λ v. some (ok output, v)) ew,
        er,
        rw er (
            rw ec
              (remembered-found name running c output outputs (lock_is_sound name c outputs l))),
      )

  pub finished-IsKept :
      (c : Completed) (q : Option (Result RunOutput × W))
      → finished name running c q ≡ some (ok r, c', w')
      → IsKept q
  finished-IsKept c none e = cc e
  finished-IsKept c (some (err x, w)) e = cc e
  finished-IsKept c (some (ok output, w)) e =
      remember-IsKept c output (lock_completed name c) w refl (cc e)
