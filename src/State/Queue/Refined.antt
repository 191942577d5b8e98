-- ===== src/State/Queue/Refined.antt =====
-- The operations of the queue beside the steps of its board.
use task_fence.Prelude.{
  String, ◌≡◌, refl, sym, subst, Bool, true, false, Option, none, some, arith, eq_iff,
  if◌then◌else◌,
}
use task_fence.Core.Error.{TaskFenceError, Result, ok, err}
use task_fence.Core.Task.{TaskId}
use task_fence.Core.Effect.{Effect, lift, gets, pure, raise, modify, proceed, ◌>>=◌, ◌>>◌}
use task_fence.Std.Map.{BTreeMap, get, insert, get-insert, get-insert_other}
use task_fence.State.Types.{WorkerLease, WorkerLeaseState, pending, leased, completed, failed}
use task_fence.State.Leases.{find, set_state, check_holder}
use task_fence.State.Queue.{
  InMemoryWorkerQueue, lock, with_entries, write_entry, is_entry, is_waiting_entry, enqueue_new,
  enqueue, take_entry, lease_next, finish_entry, finish_leased, complete, fail,
}
use task_fence.State.Queue.Entries.{
  IsDistinct, insert-IsDistinct, write-IsDistinct, found-get, get-write_found, get-write_other,
  find-none, find-some, find-key,
}
use task_fence.State.Queue.Board.{
  Board, Sets, Normal, Operation, queue, take, complete_by, fail_by, new_lease, Step, queues, takes,
  idles, completes, fails, board, some_ok, perform,
}

-- Keys stay distinct, a value is that of a step of the board, and an error changes nothing.
abbrev pub Implements :
    {A : Type 0}
    → (Board → Board → A → Type 0)
    → InMemoryWorkerQueue
    → Result A
    → InMemoryWorkerQueue
    → Type 0
Implements step q (ok a) r = IsDistinct r.leases × step (board q) (board r) a
Implements step q (err e) r = r ≡ q

module _ {B : Type 0} (step : Board → Board → B → Type 0) (q : InMemoryWorkerQueue) where
  abbrev Runs : Effect InMemoryWorkerQueue B → Type 0
  Runs m = Implements step q (m q).0 (m q).1

  lift-Runs :
      {A : Type 0} (r : Result A) (f : A → Effect InMemoryWorkerQueue B)
      → ((a : A) → r ≡ ok a → Runs (f a))
      → Runs (lift r >>= f)
  unfolding lift ◌>>=◌ proceed
  lift-Runs (ok a) f h = h a refl
  lift-Runs (err e) f h = refl

  guarded-Runs :
      (poisoned : Bool) (e : TaskFenceError) (leases : BTreeMap WorkerLease)
      (f : BTreeMap WorkerLease → Effect InMemoryWorkerQueue B)
      → Runs (f leases)
      → Runs ((if poisoned then raise e else pure leases) >>= f)
  unfolding raise pure ◌>>=◌ proceed
  guarded-Runs true e leases f h = refl
  guarded-Runs false e leases f h = h

  lock-Runs :
      (f : BTreeMap WorkerLease → Effect InMemoryWorkerQueue B)
      → Runs (f q.leases)
      → Runs (lock >>= f)
  unfolding lock gets ◌>>=◌ proceed
  lock-Runs f h = guarded-Runs q.poisoned _ q.leases f h

abbrev Queues : String → TaskId → Board → Board → WorkerLease → Type 0
Queues text id b c lease = Step b c (queue text id) (some lease)

abbrev Takes : String → String → Board → Board → Option WorkerLease → Type 0
Takes text worker_text b c taken = Step b c (take text worker_text) taken

module _ (debug : String → String) (q : InMemoryWorkerQueue) (d : IsDistinct q.leases) where
  insert-Sets :
      (id : TaskId) (lease : WorkerLease)
      → Sets (board q) id lease (λ other. get other (insert id lease q.leases))
  insert-Sets id lease =
      (get-insert id lease q.leases, λ other n. get-insert_other id other lease q.leases n)

  write-Sets :
      (p : (String × WorkerLease) → Bool) (next : WorkerLeaseState) (id : TaskId)
      (lease : WorkerLease)
      → find p q.leases ≡ some (id, lease)
      → Sets (board q) id (set_state next lease) (λ other. get other (write_entry p next q.leases))
  write-Sets p next id lease e = (
    get-write_found p (set_state next) q.leases id lease d e,
    λ other n. get-write_other p (set_state next) q.leases id lease other e n,
  )

  enqueue_new-Runs :
      (text organization : String) (id : TaskId) (found : Option WorkerLease)
      → Normal "organization" text organization
      → board q id ≡ found
      → Runs (Queues text id) q (enqueue_new debug organization id found)
  unfolding enqueue_new raise modify pure ◌>>=◌ proceed
  enqueue_new-Runs text organization id (some lease) n e = refl
  enqueue_new-Runs text organization id none n e = (
    insert-IsDistinct id _ q.leases e d,
    queues text organization id n e (insert-Sets id (new_lease id organization)),
  )

  enqueue-Runs : (text : String) (id : TaskId) → Runs (Queues text id) q (enqueue debug text id)
  unfolding enqueue
  enqueue-Runs text id = lift-Runs (Queues text id) q _ _ (λ u v.
      lift-Runs (Queues text id) q _ _ (λ organization n.
        lock-Runs (Queues text id) q _
          (enqueue_new-Runs text organization id (get id q.leases) n refl)))

  take_entry-Runs :
      (text organization worker_text worker : String) (found : Option (String × WorkerLease))
      → Normal "organization" text organization
      → Normal "worker_id" worker_text worker
      → find (is_waiting_entry organization) q.leases ≡ found
      → Runs (Takes text worker_text) q (take_entry debug organization worker found)
  unfolding take_entry modify pure ◌>>=◌ proceed
  take_entry-Runs text organization worker_text worker none n m e = (
    d,
    idles text organization worker_text n (λ id lease g. find-none _ (λ l. l) q.leases id lease e g)
        (λ id. refl),
  )
  take_entry-Runs text organization worker_text worker (some (id, lease)) n m e = (
    write-IsDistinct _ _ q.leases d,
    takes text organization worker_text worker id lease n m
        (found-get _ (λ l. l) q.leases id lease d e) (find-some _ (λ l. l) q.leases (id, lease) e)
        (write-Sets _ (leased worker) id lease e),
  )

  lease_next-Runs :
      (text worker_text : String)
      → Runs (Takes text worker_text) q (lease_next debug text worker_text)
  unfolding lease_next
  lease_next-Runs text worker_text = lift-Runs (Takes text worker_text) q _ _ (λ organization n.
      lift-Runs (Takes text worker_text) q _ _ (λ worker m.
        lock-Runs (Takes text worker_text) q _
          (take_entry-Runs text organization worker_text worker _ n m refl)))

  check_holder-leased :
      (id worker : String) (s : WorkerLeaseState) {u : Unit {0}}
      → check_holder id worker s ≡ ok u
      → s ≡ leased worker
  unfolding check_holder
  check_holder-leased id worker (leased by) e = ground (arith, eq_iff by worker)
  check_holder-leased id worker pending e = cc e
  check_holder-leased id worker completed e = cc e
  check_holder-leased id worker (failed reason) e = cc e

  -- A lease that is held is finished.
  abbrev Finishes : TaskId → String → WorkerLeaseState → Board → Board → WorkerLease → Type 0
  Finishes id worker_text next b c lease =
      (worker : String) × (held : WorkerLease) × Normal "worker_id" worker_text worker
      × (b id ≡ some held)
      × (held.state ≡ leased worker)
      × (lease ≡ set_state next held)
      × Sets b id lease c

  finish_held-Runs :
      (id : TaskId) (worker_text worker : String) (next : WorkerLeaseState) (held : WorkerLease)
      → Normal "worker_id" worker_text worker
      → board q id ≡ some held
      → held.state ≡ leased worker
      → Runs
          (Finishes id worker_text next)
          q
          (modify (with_entries (write_entry (is_entry id) next)) >> pure (set_state next held))
  unfolding modify pure ◌>>=◌ proceed
  finish_held-Runs id worker_text worker next held n e l = (
    write-IsDistinct _ _ q.leases d,
    (
      worker,
      held,
      n,
      e,
      l,
      refl,
      write-Sets (is_entry id) next id held (find-key id q.leases held e),
    ),
  )

  finish_entry-Runs :
      (id : TaskId) (worker_text worker : String) (next : WorkerLeaseState)
      (found : Option WorkerLease)
      → Normal "worker_id" worker_text worker
      → board q id ≡ found
      → Runs (Finishes id worker_text next) q (finish_entry debug id worker next found)
  unfolding finish_entry raise
  finish_entry-Runs id worker_text worker next none n e = refl
  finish_entry-Runs id worker_text worker next (some held) n e =
      lift-Runs (Finishes id worker_text next) q _ _ (λ u checked.
        finish_held-Runs id worker_text worker next held n e
          (check_holder-leased id worker held.state checked))

  finish_leased-Runs :
      (id : TaskId) (worker_text : String) (next : WorkerLeaseState)
      → Runs (Finishes id worker_text next) q (finish_leased debug id worker_text next)
  unfolding finish_leased
  finish_leased-Runs id worker_text next =
      let P = Finishes id worker_text next in
      lift-Runs P q _ _ (λ u v. lift-Runs P q _ _ (λ worker n.
        lock-Runs P q _ (finish_entry-Runs id worker_text worker next (get id q.leases) n refl)))

  -- A step for a lease is a step for the reply.
  some-Implements :
      (step : Board → Board → WorkerLease → Type 0) (op : Operation) (r : Result WorkerLease)
      (after : InMemoryWorkerQueue)
      → ((lease : WorkerLease)
          → step (board q) (board after) lease
          → Step (board q) (board after) op (some lease))
      → Implements step q r after
      → Implements (λ b c lease. Step b c op (some lease)) q r after
  some-Implements step op (ok lease) after f (k, s) = (k, f lease s)
  some-Implements step op (err e) after f h = h

  replied :
      (op : Operation) (r : Result WorkerLease) (after : InMemoryWorkerQueue)
      → Implements (λ b c lease. Step b c op (some lease)) q r after
      → Implements (λ b c reply. Step b c op reply) q (some_ok r) after
  replied op (ok a) after h = h
  replied op (err e) after h = h

  completed-Step :
      (id : TaskId) (worker_text : String) (c : Board) (lease : WorkerLease)
      → Finishes id worker_text completed (board q) c lease
      → Step (board q) c (complete_by id worker_text) (some lease)
  completed-Step id worker_text c lease (worker, held, n, e, l, same, sets) =
      subst (λ x. Step (board q) c (complete_by id worker_text) (some x)) (sym same)
        (completes id worker_text worker held n e l (subst (λ x. Sets (board q) id x c) same sets))

  failed-Step :
      (id : TaskId) (worker_text reason_text reason : String) (c : Board) (lease : WorkerLease)
      → Normal "reason" reason_text reason
      → Finishes id worker_text (failed reason) (board q) c lease
      → Step (board q) c (fail_by id worker_text reason_text) (some lease)
  failed-Step id worker_text reason_text reason c lease m (worker, held, n, e, l, same, sets) =
      subst (λ x. Step (board q) c (fail_by id worker_text reason_text) (some x)) (sym same)
        (fails id worker_text worker reason_text reason held n m e l
          (subst (λ x. Sets (board q) id x c) same sets))

  fail-Runs :
      (id : TaskId) (worker_text reason_text : String)
      → Runs
          (λ b c lease. Step b c (fail_by id worker_text reason_text) (some lease))
          q
          (fail debug id worker_text reason_text)
  unfolding fail
  fail-Runs id worker_text reason_text =
      lift-Runs (λ b c lease. Step b c (fail_by id worker_text reason_text) (some lease)) q _ _
        (λ reason m.
          some-Implements (Finishes id worker_text (failed reason))
            (fail_by id worker_text reason_text) _ _
            (λ lease. failed-Step id worker_text reason_text reason _ lease m)
            (finish_leased-Runs id worker_text (failed reason)))

-- Every operation on a queue whose keys are distinct is a step of its board with the lease that it
-- gives, and keeps the keys distinct; an operation that fails leaves the queue as it is.
pub perform-Implements :
    (debug : String → String) (op : Operation) (q : InMemoryWorkerQueue)
    → IsDistinct q.leases
    → Implements (λ b c reply. Step b c op reply) q (perform debug op q).0 (perform debug op q).1
unfolding perform complete
perform-Implements debug (queue text id) q d =
    replied debug q d _ _ _ (enqueue-Runs debug q d text id)
perform-Implements debug (take text worker) q d = lease_next-Runs debug q d text worker
perform-Implements debug (complete_by id worker) q d = replied debug q d _ _ _ (
    some-Implements debug q d (Finishes debug q d id worker completed) (complete_by id worker) _ _
      (λ lease. completed-Step debug q d id worker _ lease)
      (finish_leased-Runs debug q d id worker completed))
perform-Implements debug (fail_by id worker reason) q d =
    replied debug q d _ _ _ (fail-Runs debug q d id worker reason)
