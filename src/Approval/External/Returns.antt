-- ===== src/Approval/External/Returns.antt =====
-- The end of the wait for an external approval.
use task_fence.Prelude.{
  ℕ, zero, suc, ◌+◌, ◌-◌, ◌≤◌, ◌≡◌, ◌≢◌, refl, sym, subst, if◌then◌else◌, Bool, true, false, Option,
  none, some, Bool-cases, inl, inr, leb, arith,
}
use task_fence.Core.Error.{Result, ok, err, TaskFenceError}
use task_fence.Core.Task.{ApprovalId, Utf8PathBuf}
use task_fence.Core.Action.{ApprovalDecision, ApprovalRecord}
use task_fence.Core.Effect.{
  Effect, Keeps, Keeps-bind, Keeps-if, Keeps-lift, Keeps-raise, Keeps-pure, pure, raise, gets,
  attempt, proceed, ◌>>=◌,
}
use task_fence.Std.Map.{BTreeMap, get}
use task_fence.Approval.Store.{
  Outside, read, read_record_at, approval_path, resolve_read, resolve_with_actor,
}
use task_fence.Approval.External.{
  LocalExternalApprovalEngine, Timeouts, resolved_meanwhile, after_resolve, expire, after_read,
  round, polls, beside, wait_until, wait, timeout_for_approval, lock_timeouts, or_default,
}

-- Reading a file does not turn the clock back, and a sleep lasts at least its time.
pub record IsClock {W : Type 0} (o : Outside W) : Type 0 where
  pub reads :
      (least : ℕ) (path : Utf8PathBuf) (id : ApprovalId)
      → Keeps (λ w. least ≤ o.instant w) (o.read_json path id)
  pub sleeps : (d : ℕ) (w : W) → o.instant w + d ≤ o.instant (o.sleep d w)

abbrev pub IsDecided : Result ApprovalRecord → Type 0
IsDecided (ok r) = r.decision ≢ none
IsDecided (err e) = Unit {0}

module _ {W : Type 0} where
  abbrev Decides : Effect W ApprovalRecord → Type 0
  Decides m = (w : W) → IsDecided (m w).0

  proceed-Decides :
      {A : Type 0} (r : Result A) (f : A → Effect W ApprovalRecord) (w : W)
      → ((a : A) → r ≡ ok a → Decides (f a))
      → IsDecided (proceed r f w).0
  unfolding proceed
  proceed-Decides (ok a) f w h = h a refl w
  proceed-Decides (err e) f w h = tt

  then-Decides :
      {A : Type 0} (m : Effect W A) (f : A → Effect W ApprovalRecord)
      → ((a : A) → Decides (f a))
      → Decides (m >>= f)
  unfolding ◌>>=◌
  then-Decides m f h w = proceed-Decides (m w).0 f (m w).1 (λ a e. h a)

module _ {W : Type 0} (o : Outside W) (engine : LocalExternalApprovalEngine) (id : ApprovalId) where
  resolve_read-Decides :
      (path : Utf8PathBuf) (d : ApprovalDecision) (actor : _) (source : _) (r : ApprovalRecord)
      (earlier : Option ApprovalDecision)
      → Decides (resolve_read o path id d actor source r earlier)
  unfolding resolve_read raise pure
  resolve_read-Decides path d actor source r (some earlier) w = tt
  resolve_read-Decides path d actor source r none w =
      then-Decides _ _ (λ at. then-Decides _ _ (λ written v e. cc e)) w

  resolve-Decides :
      (path : Utf8PathBuf) (d : ApprovalDecision) (actor : _) (source : _)
      → Decides (resolve_with_actor o path id d actor source)
  unfolding resolve_with_actor
  resolve-Decides path d actor source =
      then-Decides _ _ (λ r. resolve_read-Decides path d actor source r r.decision)

  meanwhile-Decides :
      (e : TaskFenceError) (r : ApprovalRecord) (d : Option ApprovalDecision)
      → r.decision ≡ d
      → Decides (resolved_meanwhile o engine e r d)
  unfolding resolved_meanwhile pure raise
  meanwhile-Decides e r (some d) h w = λ n. ground (arith, h, n)
  meanwhile-Decides e r none h w = tt

  after_resolve-Decides :
      (r : Result ApprovalRecord) → IsDecided r → Decides (after_resolve o engine id r)
  unfolding after_resolve pure
  after_resolve-Decides (ok r) h w = h
  after_resolve-Decides (err e) h w =
      then-Decides _ _ (λ current. meanwhile-Decides e current current.decision refl) w

  expire-Decides : Decides (expire o engine id)
  unfolding expire attempt ◌>>=◌ proceed
  expire-Decides w =
      after_resolve-Decides _ (resolve-Decides engine.workspace ApprovalDecision.timed_out _ _ w) _

  read-Keeps :
      (h : IsClock o) (least : ℕ) → Keeps (λ w. least ≤ o.instant w) (read o engine.workspace id)
  unfolding read read_record_at approval_path
  read-Keeps h least = Keeps-bind _ _ (Keeps-bind _ _ (Keeps-lift _) (λ u. Keeps-pure _)) (λ path.
      Keeps-bind _ _ (h.reads least path id) (λ found.
        Keeps-bind _ _ (Keeps-lift _) (λ u. Keeps-if _ _ _ (Keeps-raise _) (Keeps-pure _))))

  -- A run of the loop that returns, with a decision if it returns a record.
  abbrev Returns : Option (Result ApprovalRecord × W) → Type 0
  Returns q = (p : Result ApprovalRecord × W) × (q ≡ some p) × IsDecided p.0

  module _ (timeout started : ℕ) where
    after_read-Returns :
        (again : W → Option (Result ApprovalRecord × W)) (r : ApprovalRecord)
        (d : Option ApprovalDecision) (w : W)
        → r.decision ≡ d
        → ((leb timeout (o.instant w - started) ≡ false)
            → Returns (again (o.sleep engine.poll_interval w)))
        → Returns (after_read o engine id timeout started again r d w)
    unfolding after_read
    after_read-Returns again r (some d) w h k = ((ok r, w), refl, λ n. ground (arith, h, n))
    after_read-Returns again r none w h k =
        elim (Bool-cases (leb timeout (o.instant w - started))) [
          | inl over ↦ rw over (expire o engine id w, refl, expire-Decides w)
          | inr left ↦ rw left (k left)
        ]

    round-Returns :
        (again : W → Option (Result ApprovalRecord × W)) (r : Result ApprovalRecord) (w : W)
        → ((leb timeout (o.instant w - started) ≡ false)
            → Returns (again (o.sleep engine.poll_interval w)))
        → Returns (round o engine id timeout started again r w)
    unfolding round
    round-Returns again (ok r) w k = after_read-Returns again r r.decision w refl k
    round-Returns again (err e) w k = ((err e, w), refl, tt)

    late :
        (before now : ℕ)
        → started + timeout ≤ before + 0
        → before ≤ now
        → leb timeout (now - started) ≡ false
        → ⊥
    late before now enough later left = ground arith

    slept :
        (before now after fuel : ℕ)
        → 1 ≤ engine.poll_interval
        → started + timeout ≤ before + suc fuel
        → before ≤ now
        → now + engine.poll_interval ≤ after
        → started + timeout ≤ after + fuel
    slept before now after fuel p enough later s = omega arith

    read-later : IsClock o → (w : W) → o.instant w ≤ o.instant (read o engine.workspace id w).1
    read-later h w = (read-Keeps h (o.instant w)).after w (omega arith)

    -- As many polls as there are milliseconds left are enough, if each sleep takes one.
    polls-Returns :
        (h : IsClock o)
        → 1 ≤ engine.poll_interval
        → (fuel : ℕ) (w : W) → started + timeout ≤ o.instant w + fuel
        → Returns (polls o engine id timeout started (suc fuel) w)
    unfolding polls
    polls-Returns h p zero w enough =
        round-Returns (polls o engine id timeout started zero) (read o engine.workspace id w).0
          (read o engine.workspace id w).1
          (λ left. absurd (late (o.instant w) _ enough (read-later h w) left))
    polls-Returns h p (suc fuel) w enough =
        round-Returns (polls o engine id timeout started (suc fuel))
          (read o engine.workspace id w).0 (read o engine.workspace id w).1
          (λ left.
            polls-Returns h p fuel _
              (slept (o.instant w) _ _ fuel p enough (read-later h w) (h.sleeps _ _)))

  some_injective : {A : Type 0} {a b : A} → some a ≡ some b → a ≡ b
  some_injective e = cc e

  abbrev ReturnsBeside : Option (Result ApprovalRecord × Timeouts W) → Type 0
  ReturnsBeside q = (p : Result ApprovalRecord × Timeouts W) × (q ≡ some p) × IsDecided p.0

  beside-Returns :
      (s : Timeouts W) (q : Option (Result ApprovalRecord × W))
      → Returns q
      → ReturnsBeside (beside o engine s q)
  beside-Returns s none (p, e, h) = cc e
  beside-Returns s (some (r, w)) (p, e, h) =
      ((r, record s { world = w }), refl, subst (λ x. IsDecided x.0) (sym (some_injective e)) h)

  wait_until-Returns :
      IsClock o
      → 1 ≤ engine.poll_interval
      → (poisoned : Bool) (e : TaskFenceError) (s : Timeouts W) → (f : BTreeMap ℕ → ℕ)
      → let found : Effect (Timeouts W) ℕ =
          (if poisoned then raise e else pure s.timeouts) >>= λ m. pure (f m) in
        ReturnsBeside (wait_until o engine (suc (f s.timeouts)) id (found s).0 (found s).1)
  unfolding wait_until raise pure ◌>>=◌ proceed
  wait_until-Returns h p true e s f = ((err e, s), refl, tt)
  wait_until-Returns h p false e s f =
      beside-Returns s _
        (polls-Returns (f s.timeouts) (o.instant s.world) h p (f s.timeouts) s.world (omega arith))

-- A wait returns, whatever the store holds and other processes do to it: it takes at most one poll more
-- than the timeout has milliseconds, if reading a file does not turn the clock back and each sleep lasts
-- at least the poll interval, which is not zero. A record that it returns has a decision.
pub wait-Returns :
    {W : Type 0} (o : Outside W) (engine : LocalExternalApprovalEngine) (id : ApprovalId)
    (s : Timeouts W)
    → IsClock o
    → 1 ≤ engine.poll_interval
    → (p : Result ApprovalRecord × Timeouts W) × (wait o engine
          (suc (or_default (get id s.timeouts)))
          id
          s
        ≡ some p)
      × IsDecided p.0
unfolding wait timeout_for_approval lock_timeouts gets raise pure ◌>>=◌ proceed
wait-Returns o engine id s h p =
    wait_until-Returns o engine id h p s.poisoned _ s (λ m. or_default (get id m))
