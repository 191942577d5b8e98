-- ===== src/State/Leases/Moves.antt =====
-- How the operations move the lease of a task.
use task_fence.Prelude.{
  String, ◌≡◌, refl, sym, ap, subst, Bool, true, false, Option, none, some, List, [], ◌∷◌, ◌++◌,
  any, Bool-cases, inl, inr, arith, ◌==◌, eq_iff, eq_refl,
}
use task_fence.Core.Error.{Result, ok}
use task_fence.Core.Task.{TaskId}
use task_fence.Core.Effect.{
  Effect, Ensures, Ensures-bind, Ensures-first, Ensures-gets, Keeps-lift, pure, raise, lift, modify,
  ◌>>◌,
}
use task_fence.State.Types.{
  WorkerLease, WorkerLeaseState, pending, leased, completed, failed, FileTeamState,
}
use task_fence.State.Leases.{
  LocalTeamStateStore, find, update_first, set_state, is_waiting, is_task, check_holder, leases_of,
  persist_state, enqueue_task, lease_next, take_lease, finish_found, finish_lease, complete_task,
  fail_task,
}
use task_fence.State.Leases.Update.{state_of, state_of-update_first, state_of-append, find-matches}

-- A lease is queued as pending, taken by one worker, and finished; a finished lease stays as it is.
abbrev pub can_move : Option WorkerLeaseState → Option WorkerLeaseState → Bool
can_move none none = true
can_move none (some pending) = true
can_move (some pending) (some pending) = true
can_move (some pending) (some (leased worker_id)) = true
can_move (some (leased a)) (some (leased b)) = a == b
can_move (some (leased a)) (some completed) = true
can_move (some (leased a)) (some (failed reason)) = true
can_move (some completed) (some completed) = true
can_move (some (failed a)) (some (failed b)) = a == b
can_move _ _ = false

can_move_refl : (a : Option WorkerLeaseState) → can_move a a ≡ true
can_move_refl none = refl
can_move_refl (some pending) = refl
can_move_refl (some (leased w)) = eq_refl w
can_move_refl (some completed) = refl
can_move_refl (some (failed r)) = eq_refl r

abbrev pub is_final : WorkerLeaseState → Bool
is_final completed = true
is_final (failed reason) = true
is_final _ = false

module _ {W : Type 0} (persist : FileTeamState → Effect W (Unit {0})) where
  -- Whether or not the state reaches the file, a write leaves the leases that it wrote.
  pub write-Ensures :
      {A : Type 0} (P : List WorkerLease → Type 0)
      (f : LocalTeamStateStore W → LocalTeamStateStore W) (x : A) (s : LocalTeamStateStore W)
      → P (leases_of (f s))
      → P (leases_of ((modify f >> (persist_state persist >> pure x)) s).1)
  unfolding modify persist_state pure
  write-Ensures P f x s h =
      Ensures-bind (λ t. P (leases_of (f t))) (λ _ t. P (leases_of t)) (λ _ t. P (leases_of t)) _ _
        (λ t k. k)
        (λ _.
          Ensures-bind (λ t. P (leases_of t)) (λ _ t. P (leases_of t)) (λ _ t. P (leases_of t)) _ _
            (λ t k. k) (λ _ t k. k) (λ e t k. k))
        (λ e t k. k) s h

module _ {W : Type 0} (debug : String → String) (persist : FileTeamState → Effect W (Unit {0}))
    (id : TaskId) (a : Option WorkerLeaseState) where
  -- The task was in state `a`; it has moved on from `a`, if at all, by a move that is allowed.
  abbrev IsAt : LocalTeamStateStore W → Type 0
  IsAt s = state_of id (leases_of s) ≡ a

  abbrev HasMoved : LocalTeamStateStore W → Type 0
  HasMoved s = can_move a (state_of id (leases_of s)) ≡ true

  unmoved : (s : LocalTeamStateStore W) → IsAt s → HasMoved s
  unmoved s h = rw h (can_move_refl a)

  queue_moves :
      (ls : List WorkerLease) (organization task_id : String)
      → state_of id ls ≡ a
      → any (λ lease. lease.task_id == task_id) ls ≡ false
      → can_move a (
          state_of id
            (ls ++ record { task_id = task_id; organization = organization; state = pending } ∷ []))
        ≡ true
  queue_moves ls organization task_id h fresh = ground (
    arith,
    can_move_refl a,
    state_of-append id ls
        (record { task_id = task_id; organization = organization; state = pending }),
  )

  enqueue-HasMoved :
      (organization task_id : String)
      → Ensures IsAt (enqueue_task debug persist organization task_id) (λ _ s. HasMoved s)
  unfolding enqueue_task raise
  enqueue-HasMoved organization_text task_id =
      Ensures-first IsAt HasMoved _ _ unmoved (Keeps-lift _) (λ _.
        Ensures-first IsAt HasMoved _ _ unmoved (Keeps-lift _) (λ organization.
          Ensures-gets IsAt HasMoved _ _ (λ s h.
            elim (Bool-cases
              (any (λ (lease : WorkerLease). lease.task_id == task_id) (leases_of s))) [
                | inl queued ↦ rw queued (unmoved s h)
                | inr fresh ↦ rw fresh (
                    write-Ensures persist (λ ls. can_move a (state_of id ls) ≡ true) _ _ s
                      (queue_moves (leases_of s) organization task_id h fresh))
              ])))

  update_moves :
      (p : WorkerLease → Bool) (next : WorkerLeaseState) (ls : List WorkerLease)
      → state_of id ls ≡ a
      → ((l : WorkerLease) → find p ls ≡ some l → can_move (some l.state) (some next) ≡ true)
      → can_move a (state_of id (update_first p (set_state next) ls)) ≡ true
  update_moves p next ls h step = elim (state_of-update_first id p next ls) [
    | inl kept ↦ rw (kept, h) (can_move_refl a)
    | inr (l, found, old, new) ↦ rw new (rw (sym h) (rw old (step l found)))
  ]

  taking :
      (organization worker_id : String) (ls : List WorkerLease) (l : WorkerLease)
      → find (is_waiting organization) ls ≡ some l
      → can_move (some l.state) (some (leased worker_id)) ≡ true
  taking organization worker_id ls l h =
      ground (arith, find-matches (is_waiting organization) ls l h)

  take-HasMoved :
      (organization worker_id : String) (found : Option WorkerLease) (s : LocalTeamStateStore W)
      → IsAt s
      → find (is_waiting organization) (leases_of s) ≡ found
      → HasMoved (take_lease debug persist organization worker_id found s).1
  unfolding take_lease pure
  take-HasMoved organization worker_id none s h e = unmoved s h
  take-HasMoved organization worker_id (some lease) s h e =
      write-Ensures persist (λ ls. can_move a (state_of id ls) ≡ true) _ _ s
        (update_moves (is_waiting organization) (leased worker_id) (leases_of s) h
          (taking organization worker_id (leases_of s)))

  lease_next-HasMoved :
      (organization worker_id : String)
      → Ensures IsAt (lease_next debug persist organization worker_id) (λ _ s. HasMoved s)
  unfolding lease_next
  lease_next-HasMoved organization_text worker_text =
      Ensures-first IsAt HasMoved _ _ unmoved (Keeps-lift _) (λ organization.
        Ensures-first IsAt HasMoved _ _ unmoved (Keeps-lift _) (λ worker_id.
          Ensures-gets IsAt HasMoved _ _ (λ s h. take-HasMoved organization worker_id _ s h refl)))

  finishing :
      (task_id worker_id : String) (l : WorkerLease) (next : WorkerLeaseState) {u : Unit {0}}
      → is_final next ≡ true
      → check_holder task_id worker_id l.state ≡ ok u
      → can_move (some l.state) (some next) ≡ true
  unfolding check_holder
  finishing task_id worker_id l next f h = ground arith

  finish-HasMoved :
      (organization task_id worker_id : String) (next : WorkerLeaseState)
      (found : Option WorkerLease) (s : LocalTeamStateStore W)
      → is_final next ≡ true
      → IsAt s
      → find (is_task organization task_id) (leases_of s) ≡ found
      → HasMoved (finish_found debug persist organization task_id worker_id next found s).1
  unfolding finish_found raise lift
  finish-HasMoved organization task_id worker_id next none s f h e = unmoved s h
  finish-HasMoved organization task_id worker_id next (some lease) s f h e =
      Ensures-bind Found Held (λ _ t. HasMoved t) _ _ (λ t k. (refl, k))
        (λ u t k.
          write-Ensures persist (λ ls. can_move a (state_of id ls) ≡ true) _ _ t
            (update_moves (is_task organization task_id) next (leases_of t) k.1.0 (λ l same.
              finishing task_id worker_id l next {u = u} f (held l (leases_of t) k.1.1 same k.0))))
        (λ _ t k. unmoved t k.1.0) s (h, e)
    where
      Found : LocalTeamStateStore W → Type 0
      Found t = IsAt t × (find (is_task organization task_id) (leases_of t) ≡ some lease)

      Held : Result (Unit {0}) → LocalTeamStateStore W → Type 0
      Held r t = (check_holder task_id worker_id lease.state ≡ r) × Found t

      held :
          (l : WorkerLease) (ls : List WorkerLease) {u : Unit {0}}
          → find (is_task organization task_id) ls ≡ some lease
          → find (is_task organization task_id) ls ≡ some l
          → check_holder task_id worker_id lease.state ≡ ok u
          → check_holder task_id worker_id l.state ≡ ok u
      held l ls p q r = cc (p, q, r)

  finish_lease-HasMoved :
      (organization task_id worker_id : String) (next : WorkerLeaseState)
      → is_final next ≡ true
      → Ensures IsAt
          (finish_lease debug persist organization task_id worker_id next)
          (λ _ s. HasMoved s)
  unfolding finish_lease
  finish_lease-HasMoved organization_text task_id worker_text next f =
      Ensures-first IsAt HasMoved _ _ unmoved (Keeps-lift _) (λ organization.
        Ensures-first IsAt HasMoved _ _ unmoved (Keeps-lift _) (λ _.
          Ensures-first IsAt HasMoved _ _ unmoved (Keeps-lift _) (λ worker_id.
            Ensures-gets IsAt HasMoved _ _
              (λ s h. finish-HasMoved organization task_id worker_id next _ s f h refl))))

-- The requests that change the leases of a store.
pub data LeaseRequest : Type 0 where
  enqueue : String → TaskId → LeaseRequest
  next : String → String → LeaseRequest
  complete : String → TaskId → String → LeaseRequest
  fail : String → TaskId → String → String → LeaseRequest

module _ {W : Type 0} (debug : String → String)
    (persist : FileTeamState → Effect W (Unit {0})) where
  -- The store after one request, whether it succeeds or fails.
  abbrev pub serve : LeaseRequest → LocalTeamStateStore W → LocalTeamStateStore W
  serve (enqueue organization task_id) s = (enqueue_task debug persist organization task_id s).1
  serve (next organization worker_id) s = (lease_next debug persist organization worker_id s).1
  serve (complete organization task_id worker_id) s =
      (complete_task debug persist organization task_id worker_id s).1
  serve (fail organization task_id worker_id reason) s =
      (fail_task debug persist organization task_id worker_id reason s).1

  pub serve_all : List LeaseRequest → LocalTeamStateStore W → LocalTeamStateStore W
  serve_all [] s = s
  serve_all (r ∷ rs) s = serve_all rs (serve r s)

  -- Every request, also one that fails, moves the lease of every task only along the allowed moves.
  pub serve-can_move :
      (r : LeaseRequest) (id : TaskId) (s : LocalTeamStateStore W)
      → can_move (state_of id (leases_of s)) (state_of id (leases_of (serve r s))) ≡ true
  unfolding complete_task fail_task
  serve-can_move (enqueue organization task_id) id s =
      enqueue-HasMoved debug persist id _ organization task_id s refl
  serve-can_move (next organization worker_id) id s =
      lease_next-HasMoved debug persist id _ organization worker_id s refl
  serve-can_move (complete organization task_id worker_id) id s =
      finish_lease-HasMoved debug persist id _ organization task_id worker_id completed refl s refl
  serve-can_move (fail organization task_id worker_id reason_text) id s =
      Ensures-first (IsAt debug persist id (state_of id (leases_of s)))
        (HasMoved debug persist id (state_of id (leases_of s))) _ _ (unmoved debug persist id _)
        (Keeps-lift _)
        (λ reason.
          finish_lease-HasMoved debug persist id _ organization task_id worker_id (failed reason)
            refl)
        s refl

  completed_stays :
      (b : Option WorkerLeaseState) → can_move (some completed) b ≡ true → b ≡ some completed
  completed_stays b h = ground arith

  failed_stays :
      (reason : String) (b : Option WorkerLeaseState)
      → can_move (some (failed reason)) b ≡ true
      → b ≡ some (failed reason)
  failed_stays reason (some (failed other)) h =
      ap (λ r. some (failed r)) (sym ((eq_iff reason other).0 h))
  failed_stays reason none h = cc
  failed_stays reason (some pending) h = cc
  failed_stays reason (some (leased w)) h = cc
  failed_stays reason (some completed) h = cc

  -- A finished task is never leased or finished again, whatever requests follow.
  pub serve_all-finished :
      (rs : List LeaseRequest) (id : TaskId) (st : WorkerLeaseState) (s : LocalTeamStateStore W)
      → is_final st ≡ true
      → state_of id (leases_of s) ≡ some st
      → state_of id (leases_of (serve_all rs s)) ≡ some st
  unfolding serve_all
  serve_all-finished [] id st s f h = h
  serve_all-finished (r ∷ rs) id st s f h = serve_all-finished rs id st (serve r s) f (
      finished_stays st _ f (
        subst (λ b. can_move b (state_of id (leases_of (serve r s))) ≡ true) h
          (serve-can_move r id s)))
    where
      finished_stays :
          (st : WorkerLeaseState) (b : Option WorkerLeaseState)
          → is_final st ≡ true
          → can_move (some st) b ≡ true
          → b ≡ some st
      finished_stays completed b f k = completed_stays b k
      finished_stays (failed reason) b f k = failed_stays reason b k
      finished_stays pending b f k = cc
      finished_stays (leased w) b f k = cc
