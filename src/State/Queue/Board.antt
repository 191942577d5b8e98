-- ===== src/State/Queue/Board.antt =====
-- The specification of a queue of leases: a board that gives each task its lease, if it has one, and the steps
-- that change it.
use task_fence.Prelude.{String, ◌≡◌, true, false, Option, none, some, ◌==◌}
use task_fence.Core.Error.{Result, ok, err}
use task_fence.Core.Task.{TaskId}
use task_fence.Core.Effect.{Effect}
use task_fence.Std.Map.{get}
use task_fence.State.Types.{WorkerLease, pending, leased, completed, failed}
use task_fence.State.Validate.{normalize_non_empty}
use task_fence.State.Leases.{set_state, is_waiting}
use task_fence.State.Queue.{InMemoryWorkerQueue, enqueue, lease_next, complete, fail}

abbrev pub Board : Type 0
Board = TaskId → Option WorkerLease

-- The lease of one task is set, and no other.
abbrev pub Sets : Board → TaskId → WorkerLease → Board → Type 0
Sets b id lease c =
    (c id ≡ some lease) × ((other : TaskId) → (id == other) ≡ false → c other ≡ b other)

abbrev pub Normal : String → String → String → Type 0
Normal field text value = normalize_non_empty field text ≡ ok value

pub data Operation : Type 0 where
  queue : String → TaskId → Operation
  take : String → String → Operation
  complete_by : TaskId → String → Operation
  fail_by : TaskId → String → String → Operation

abbrev pub new_lease : TaskId → String → WorkerLease
new_lease id organization = record { task_id = id; organization = organization; state = pending }

-- A task is queued once; some task that waits is taken, if one of the organization waits; and only the
-- worker that holds a lease finishes it.
pub data Step (b c : Board) : Operation → Option WorkerLease → Type 0 where
  queues :
      (text organization : String) (id : TaskId)
      → Normal "organization" text organization
      → b id ≡ none
      → Sets b id (new_lease id organization) c
      → Step b c (queue text id) (some (new_lease id organization))
  takes :
      (text organization worker_text worker : String) (id : TaskId) (lease : WorkerLease)
      → Normal "organization" text organization
      → Normal "worker_id" worker_text worker
      → b id ≡ some lease
      → is_waiting organization lease ≡ true
      → Sets b id (set_state (leased worker) lease) c
      → Step b c (take text worker_text) (some (set_state (leased worker) lease))
  idles :
      (text organization worker_text : String)
      → Normal "organization" text organization
      → ((id : TaskId) (lease : WorkerLease)
          → b id ≡ some lease
          → is_waiting organization lease ≡ false)
      → ((id : TaskId) → c id ≡ b id)
      → Step b c (take text worker_text) none
  completes :
      (id : TaskId) (worker_text worker : String) (lease : WorkerLease)
      → Normal "worker_id" worker_text worker
      → b id ≡ some lease
      → lease.state ≡ leased worker
      → Sets b id (set_state completed lease) c
      → Step b c (complete_by id worker_text) (some (set_state completed lease))
  fails :
      (id : TaskId) (worker_text worker reason_text reason : String) (lease : WorkerLease)
      → Normal "worker_id" worker_text worker
      → Normal "reason" reason_text reason
      → b id ≡ some lease
      → lease.state ≡ leased worker
      → Sets b id (set_state (failed reason) lease) c
      → Step b c (fail_by id worker_text reason_text) (some (set_state (failed reason) lease))

-- The board of a queue.
abbrev pub board : InMemoryWorkerQueue → Board
board q id = get id q.leases

abbrev pub some_ok : {A : Type 0} → Result A → Result (Option A)
some_ok (ok a) = ok (some a)
some_ok (err e) = err e

abbrev pub some_of :
    {A : Type 0} → Effect InMemoryWorkerQueue A → Effect InMemoryWorkerQueue (Option A)
some_of m q = (some_ok (m q).0, (m q).1)

-- An operation on the queue, with the lease that it gives.
unfoldable pub perform :
    (String → String) → Operation → Effect InMemoryWorkerQueue (Option WorkerLease)
unfolding enqueue lease_next complete fail
perform debug (queue text id) = some_of (enqueue debug text id)
perform debug (take text worker) = lease_next debug text worker
perform debug (complete_by id worker) = some_of (complete debug id worker)
perform debug (fail_by id worker reason) = some_of (fail debug id worker reason)
