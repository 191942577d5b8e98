-- ===== src/State/Queue.antt =====
-- crates/taskfence-state/src/lib.rs: `InMemoryWorkerQueue`. A mutex is poisoned where a thread that held
-- it has panicked.
pub mod Entries
pub mod Board
pub mod Refined
use task_fence.Prelude.{
  String, Bool, true, false, not, Option, none, some, List, ◌==◌, [], ◌∷◌, map, if◌then◌else◌,
}
use task_fence.Std.Format.{format}
use task_fence.Std.Map.{BTreeMap, get, insert}
use task_fence.Core.Error.{TaskFenceError, Result, state}
use task_fence.Core.Task.{TaskId}
use task_fence.Core.Effect.{Effect, pure, raise, lift, gets, modify, ◌>>=◌, ◌>>◌}
use task_fence.State.Types.{WorkerLease, WorkerLeaseState, pending, leased, completed, failed}
use task_fence.State.Validate.{normalize_non_empty, validate_task_id_component}
use task_fence.State.Leases.{find, update_first, set_state, is_waiting, check_holder}

pub record InMemoryWorkerQueue : Type 0 where
  pub leases : BTreeMap WorkerLease
  pub poisoned : Bool

unfoldable pub new : InMemoryWorkerQueue
new = record { leases = []; poisoned = false }

abbrev pub with_entries :
    (BTreeMap WorkerLease → BTreeMap WorkerLease) → InMemoryWorkerQueue → InMemoryWorkerQueue
with_entries f q = record q { leases = f q.leases }

-- `self.leases.lock()`, with the map that it guards.
unfoldable pub lock : Effect InMemoryWorkerQueue (BTreeMap WorkerLease)
lock = gets (λ q. q) >>= λ q.
    if q.poisoned then raise (state "worker queue is poisoned") else pure q.leases

-- A write through a reference to the first entry that matches.
abbrev pub write_entry :
    ((String × WorkerLease) → Bool) → WorkerLeaseState → BTreeMap WorkerLease → BTreeMap WorkerLease
write_entry p next m = update_first p (λ entry. (entry.0, set_state next entry.1)) m

abbrev pub is_entry : TaskId → (String × WorkerLease) → Bool
is_entry task_id entry = entry.0 == task_id

abbrev pub is_waiting_entry : String → (String × WorkerLease) → Bool
is_waiting_entry organization entry = is_waiting organization entry.1

module _ (debug : String → String) where
  -- The match on `contains_key`.
  unfoldable pub enqueue_new :
      String → TaskId → Option WorkerLease → Effect InMemoryWorkerQueue WorkerLease
  enqueue_new organization task_id (some queued) =
      raise (state (format ("task " ∷ task_id ∷ " is already queued for team execution" ∷ [])))
  enqueue_new organization task_id none = do
    let lease : WorkerLease = record {
      task_id = task_id;
      organization = organization;
      state = pending;
    }
    modify (with_entries (insert task_id lease))
    pure lease

  unfoldable pub enqueue : String → TaskId → Effect InMemoryWorkerQueue WorkerLease
  unfolding enqueue_new lock
  enqueue organization_text task_id = do
    lift (validate_task_id_component debug task_id)
    organization ← lift (normalize_non_empty "organization" organization_text)
    leases ← lock
    enqueue_new organization task_id (get task_id leases)

  -- The rest of `lease_next`, with the entry that was found.
  unfoldable pub take_entry :
      String
      → String
      → Option (String × WorkerLease)
      → Effect InMemoryWorkerQueue (Option WorkerLease)
  take_entry organization worker_id none = pure none
  take_entry organization worker_id (some entry) = do
    modify (with_entries (write_entry (is_waiting_entry organization) (leased worker_id)))
    pure (some (set_state (leased worker_id) entry.1))

  unfoldable pub lease_next : String → String → Effect InMemoryWorkerQueue (Option WorkerLease)
  unfolding take_entry lock
  lease_next organization_text worker_text = do
    organization ← lift (normalize_non_empty "organization" organization_text)
    worker_id ← lift (normalize_non_empty "worker_id" worker_text)
    leases ← lock
    take_entry organization worker_id (find (is_waiting_entry organization) leases)

  -- The rest of `finish_leased`, with what `get_mut` gives.
  unfoldable pub finish_entry :
      TaskId
      → String
      → WorkerLeaseState
      → Option WorkerLease
      → Effect InMemoryWorkerQueue WorkerLease
  finish_entry task_id worker_id next none =
      raise (state (format ("task " ∷ task_id ∷ " is not queued for team execution" ∷ [])))
  finish_entry task_id worker_id next (some lease) = do
    lift (check_holder task_id worker_id lease.state)
    modify (with_entries (write_entry (is_entry task_id) next))
    pure (set_state next lease)

  unfoldable pub finish_leased :
      TaskId → String → WorkerLeaseState → Effect InMemoryWorkerQueue WorkerLease
  unfolding finish_entry lock
  finish_leased task_id worker_text next = do
    lift (validate_task_id_component debug task_id)
    worker_id ← lift (normalize_non_empty "worker_id" worker_text)
    leases ← lock
    finish_entry task_id worker_id next (get task_id leases)

  unfoldable pub complete : TaskId → String → Effect InMemoryWorkerQueue WorkerLease
  unfolding finish_leased
  complete task_id worker_id = finish_leased task_id worker_id completed

  unfoldable pub fail : TaskId → String → String → Effect InMemoryWorkerQueue WorkerLease
  unfolding finish_leased
  fail task_id worker_id reason_text = do
    reason ← lift (normalize_non_empty "reason" reason_text)
    finish_leased task_id worker_id (failed reason)

  unfoldable pub snapshot : Effect InMemoryWorkerQueue (List WorkerLease)
  unfolding lock
  snapshot = do leases ← lock; pure (map (λ entry. entry.1) leases)
