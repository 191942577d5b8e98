-- ===== src/State/Leases.antt =====
-- crates/taskfence-state/src/lib.rs: the worker leases of `LocalTeamStateStore`. `persist` writes the
-- state to its file, and `debug` is what `{:?}` prints for a text.
pub mod Update
pub mod Moves
use task_fence.Prelude.{
  String, Bool, true, false, ◌&&◌, Option, none, some, List, [], ◌∷◌, ◌++◌, any, ◌==◌,
  if◌then◌else◌,
}
use task_fence.Std.Format.{format}
use task_fence.Core.Error.{TaskFenceError, Result, ok, err, state}
use task_fence.Core.Task.{TaskId}
use task_fence.Core.Effect.{Effect, pure, raise, lift, gets, modify, ◌>>=◌, ◌>>◌}
use task_fence.State.Types.{
  OrganizationPolicy, WorkerLease, WorkerLeaseState, pending, leased, completed, failed,
  FileTeamState,
}
use task_fence.State.Validate.{normalize_non_empty, validate_task_id_component}

-- The store, and the world that it is written to.
pub record LocalTeamStateStore (W : Type 0) : Type 0 where
  pub policy : OrganizationPolicy
  pub state : FileTeamState
  pub world : W

-- `iter_mut().find(…)`, and a write through the reference that it gives.
unfoldable pub find {ℓ} : {A : Type ℓ} → (A → Bool) → List A → Option A
find p [] = none
find p (x ∷ xs) = if p x then some x else find p xs

unfoldable pub update_first {ℓ} : {A : Type ℓ} → (A → Bool) → (A → A) → List A → List A
update_first p f [] = []
update_first p f (x ∷ xs) = if p x then f x ∷ xs else x ∷ update_first p f xs

abbrev pub is_pending : WorkerLeaseState → Bool
is_pending pending = true
is_pending _ = false

abbrev pub set_state : WorkerLeaseState → WorkerLease → WorkerLease
set_state next lease = record lease { state = next }

-- The match on `lease.state`: only the worker that holds the lease may finish it.
unfoldable pub check_holder : TaskId → String → WorkerLeaseState → Result (Unit {0})
check_holder task_id worker_id (leased leased_by) =
    if leased_by == worker_id
    then ok tt
    else err (
        state (
          format
            ("task " ∷ task_id ∷ " is leased by worker " ∷ leased_by ∷ ", not " ∷ worker_id ∷ [])))
check_holder task_id worker_id pending =
    err (state (format ("task " ∷ task_id ∷ " has not been leased by a worker" ∷ [])))
check_holder task_id worker_id completed =
    err (state (format ("task " ∷ task_id ∷ " is already completed" ∷ [])))
check_holder task_id worker_id (failed reason) =
    err (state (format ("task " ∷ task_id ∷ " is already failed: " ∷ reason ∷ [])))

module _ {W : Type 0} where
  abbrev pub leases_of : LocalTeamStateStore W → List WorkerLease
  leases_of s = s.state.leases

  abbrev pub with_leases : List WorkerLease → LocalTeamStateStore W → LocalTeamStateStore W
  with_leases leases s = record s { state = record s.state { leases = leases } }

unfoldable pub persist_state :
    {W : Type 0} → (FileTeamState → Effect W (Unit {0})) → Effect (LocalTeamStateStore W) (Unit {0})
persist_state persist s =
    ((persist s.state s.world).0, record s { world = (persist s.state s.world).1 })

abbrev pub is_waiting : String → WorkerLease → Bool
is_waiting organization lease = lease.organization == organization && is_pending lease.state

abbrev pub is_task : String → TaskId → WorkerLease → Bool
is_task organization task_id lease = lease.organization == organization && lease.task_id == task_id

module _ {W : Type 0} (debug : String → String)
    (persist : FileTeamState → Effect W (Unit {0})) where
  unfoldable pub enqueue_task : String → TaskId → Effect (LocalTeamStateStore W) WorkerLease
  enqueue_task organization_text task_id = do
    lift (validate_task_id_component debug task_id)
    organization ← lift (normalize_non_empty "organization" organization_text)
    queued ← gets (λ s. any (λ lease. lease.task_id == task_id) (leases_of s))
    if queued
        then raise
            (state (format ("task " ∷ task_id ∷ " is already queued for team execution" ∷ [])))
        else do
          let lease : WorkerLease = record {
            task_id = task_id;
            organization = organization;
            state = pending;
          }
          modify (λ s. with_leases (leases_of s ++ lease ∷ []) s)
          persist_state persist
          pure lease

  pub take_lease :
      String → String → Option WorkerLease → Effect (LocalTeamStateStore W) (Option WorkerLease)
  take_lease organization worker_id none = pure none
  take_lease organization worker_id (some lease) = do
    modify (λ s.
        with_leases
          (update_first (is_waiting organization) (set_state (leased worker_id)) (leases_of s)) s)
    persist_state persist
    pure (some (set_state (leased worker_id) lease))

  unfoldable pub lease_next : String → String → Effect (LocalTeamStateStore W) (Option WorkerLease)
  unfolding take_lease
  lease_next organization_text worker_text = do
    organization ← lift (normalize_non_empty "organization" organization_text)
    worker_id ← lift (normalize_non_empty "worker_id" worker_text)
    found ← gets (λ s. find (is_waiting organization) (leases_of s))
    take_lease organization worker_id found

  pub finish_found :
      String
      → TaskId
      → String
      → WorkerLeaseState
      → Option WorkerLease
      → Effect (LocalTeamStateStore W) WorkerLease
  finish_found organization task_id worker_id next none =
      raise (state (format ("task " ∷ task_id ∷ " is not queued for team execution" ∷ [])))
  finish_found organization task_id worker_id next (some lease) = do
    lift (check_holder task_id worker_id lease.state)
    modify (λ s.
        with_leases (update_first (is_task organization task_id) (set_state next) (leases_of s)) s)
    persist_state persist
    pure (set_state next lease)

  unfoldable pub finish_lease :
      String → TaskId → String → WorkerLeaseState → Effect (LocalTeamStateStore W) WorkerLease
  unfolding finish_found
  finish_lease organization_text task_id worker_text next = do
    organization ← lift (normalize_non_empty "organization" organization_text)
    lift (validate_task_id_component debug task_id)
    worker_id ← lift (normalize_non_empty "worker_id" worker_text)
    found ← gets (λ s. find (is_task organization task_id) (leases_of s))
    finish_found organization task_id worker_id next found

  unfoldable pub complete_task :
      String → TaskId → String → Effect (LocalTeamStateStore W) WorkerLease
  unfolding finish_lease
  complete_task organization task_id worker_id =
      finish_lease organization task_id worker_id completed

  unfoldable pub fail_task :
      String → TaskId → String → String → Effect (LocalTeamStateStore W) WorkerLease
  unfolding finish_lease
  fail_task organization task_id worker_id reason_text = do
    reason ← lift (normalize_non_empty "reason" reason_text)
    finish_lease organization task_id worker_id (failed reason)
