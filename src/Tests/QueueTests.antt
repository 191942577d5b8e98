-- ===== src/Tests/QueueTests.antt =====
-- A queue with one lease.
use task_fence.Prelude.{◌≡◌, refl, false, some, [], ◌∷◌}
use task_fence.Std.Text.{trim}
use task_fence.Std.Map.{get}
use task_fence.Core.Error.{ok}
use task_fence.Core.Effect.{lift, gets, pure, raise, modify, proceed, ◌>>=◌}
use task_fence.State.Types.{WorkerLease, pending, leased}
use task_fence.State.Validate.{normalize_non_empty}
use task_fence.State.Leases.{find, set_state}
use task_fence.State.Queue.{InMemoryWorkerQueue, lock, lease_next, take_entry}
use task_fence.State.Queue.Board.{take, Step, perform}
use task_fence.State.Queue.Refined.{Implements, perform-Implements}

abbrev waiting : WorkerLease
waiting = record { task_id = "t1"; organization = "acme"; state = pending }

abbrev one_waiting : InMemoryWorkerQueue
one_waiting = record { leases = ("t1", waiting) ∷ []; poisoned = false }

taken :
    (perform (λ s. s) (take " acme " "w1") one_waiting).0
    ≡ ok (some (set_state (leased "w1") waiting))
unfolding perform lease_next take_entry lock lift gets pure raise modify proceed ◌>>=◌
    normalize_non_empty find trim
taken = refl

perform-Implements_example :
    Implements
      (λ b c reply. Step b c (take " acme " "w1") reply)
      one_waiting
      (perform (λ s. s) (take " acme " "w1") one_waiting).0
      (perform (λ s. s) (take " acme " "w1") one_waiting).1
unfolding get
perform-Implements_example = perform-Implements (λ s. s) (take " acme " "w1") one_waiting (refl, tt)
