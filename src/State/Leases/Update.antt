-- ===== src/State/Leases/Update.antt =====
-- What a write to the first matching lease does to the states of the tasks.
use task_fence.Prelude.{
  ◌≡◌, refl, Bool, true, Option, none, some, List, [], ◌∷◌, ◌++◌, Bool-cases, inl, inr, ◌⊎◌, arith,
  ◌==◌, if◌then◌else◌,
}
use task_fence.Core.Task.{TaskId}
use task_fence.State.Types.{WorkerLease, WorkerLeaseState}
use task_fence.State.Leases.{find, update_first, set_state}

-- The state of a task: that of its lease, if it is queued.
abbrev pub state_of : TaskId → List WorkerLease → Option WorkerLeaseState
state_of id [] = none
state_of id (lease ∷ ls) = if lease.task_id == id then some lease.state else state_of id ls

-- The write reaches a task only through the lease that was found.
pub state_of-update_first :
    (id : TaskId) (p : WorkerLease → Bool) (next : WorkerLeaseState) (ls : List WorkerLease)
    → (state_of id (update_first p (set_state next) ls) ≡ state_of id ls)
      ⊎ ((l : WorkerLease) × (find p ls ≡ some l)
          × (state_of id ls ≡ some l.state)
          × (state_of id (update_first p (set_state next) ls) ≡ some next))
unfolding find update_first
state_of-update_first id p next [] = inl refl
state_of-update_first id p next (l ∷ ls) = elim (Bool-cases (p l)) [
  | inl here ↦ elim (Bool-cases (l.task_id == id)) [
    | inl same ↦ inr (l, rw here, rw same, rw here (rw same))
    | inr other ↦ inl (rw here (rw other))
  ]
  | inr past ↦ elim (Bool-cases (l.task_id == id)) [
    | inl same ↦ inl (rw past (rw same))
    | inr other ↦ elim (state_of-update_first id p next ls) [
      | inl kept ↦ inl (rw past (rw other kept))
      | inr (x, found, old, new) ↦ inr (x, rw past found, rw other old, rw past (rw other new))
    ]
  ]
]

-- A lease at the end of the queue is seen only where the task was not queued.
pub state_of-append :
    (id : TaskId) (ls : List WorkerLease) (l : WorkerLease)
    → state_of id (ls ++ l ∷ []) ≡ elim (state_of id ls) [
      | none ↦ if l.task_id == id then some l.state else none
      | some st ↦ some st
    ]
state_of-append id [] l = ground arith
state_of-append id (x ∷ ls) l = ground (arith, state_of-append id ls l)

-- The first lease that matches does match.
pub find-matches :
    (p : WorkerLease → Bool) (ls : List WorkerLease) (l : WorkerLease)
    → find p ls ≡ some l
    → p l ≡ true
unfolding find
find-matches p [] l h = cc
find-matches p (x ∷ ls) l h = ground (arith, find-matches p ls l)
