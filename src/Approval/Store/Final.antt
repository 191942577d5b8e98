-- ===== src/Approval/Store/Final.antt =====
-- The resolution of approvals that are decided already.
use task_fence.Prelude.{
  String, ◌≡◌, ◌≢◌, refl, Bool, true, false, Option, none, some, if◌then◌else◌,
}
use task_fence.Core.Error.{Result, ok, err, TaskFenceError}
use task_fence.Core.Task.{ApprovalId, Utf8PathBuf}
use task_fence.Core.Action.{ApprovalDecision, ApprovalRecord}
use task_fence.Core.Effect.{
  Effect, Ensures, Ensures-bind, Keeps-bind, Keeps-lift, Keeps-pure, pure, raise, lift, ◌>>=◌,
}
use task_fence.Approval.Store.{
  Outside, approval_path, read_record_at, read, resolve_read, resolve_with_actor,
}

-- Reading keeps `P`, and where `P` holds, a record that is read has a decision.
pub record ReadsDecided {W : Type 0} (P : W → Type 0) (o : Outside W) : Type 0 where
  pub keeps : (path : Utf8PathBuf) (id : ApprovalId) (w : W) → P w → P (o.read_json path id w).1
  pub decided :
      (path : Utf8PathBuf) (id : ApprovalId) (w : W) (r : ApprovalRecord)
      → P w
      → (o.read_json path id w).0 ≡ ok r
      → r.decision ≢ none

-- An error that leaves the world as reading leaves it.
abbrev pub Refuses : {W A : Type 0} → (W → Type 0) → Result A → W → Type 0
Refuses P (ok a) w = ⊥
Refuses P (err e) w = P w

module _ {W : Type 0} (P : W → Type 0) (o : Outside W) (h : ReadsDecided P o) where
  abbrev Read : Result ApprovalRecord → W → Type 0
  Read (ok r) w = (r.decision ≢ none) × P w
  Read (err e) w = P w

  given-Read :
      (r : Result ApprovalRecord) (w : W)
      → ((a : ApprovalRecord) → r ≡ ok a → a.decision ≢ none)
      → P w
      → Read r w
  given-Read (ok r) w n p = (n r refl, p)
  given-Read (err e) w n p = p

  matching-Read :
      (found : ApprovalRecord) (b : Bool) (e : TaskFenceError)
      → Ensures (Read (ok found)) (if b then raise e else pure found) Read
  unfolding raise pure
  matching-Read found true e w p = p.1
  matching-Read found false e w p = p

  valid-Read :
      (found : ApprovalRecord) (u : Result (Unit {0})) (f : Unit {0} → Effect W ApprovalRecord)
      → Ensures (Read (ok found)) (f tt) Read
      → Ensures (Read (ok found)) (lift u >>= f) Read
  unfolding lift
  valid-Read found u f k =
      Ensures-bind (Read (ok found)) (λ _. Read (ok found)) Read _ _ (λ w p. p) (λ _. k)
        (λ e w p. p.1)

  read_record_at-Read :
      (path : Utf8PathBuf) (id : ApprovalId) → Ensures P (read_record_at o path id) Read
  unfolding read_record_at lift
  read_record_at-Read path id =
      Ensures-bind P Read Read _ _
        (λ w p. given-Read _ _ (λ a. h.decided path id w a p) (h.keeps path id w p))
        (λ found. valid-Read found _ _ (matching-Read found _ _)) (λ e w p. p)

  read-Read : (path : Utf8PathBuf) (id : ApprovalId) → Ensures P (read o path id) Read
  unfolding read approval_path
  read-Read path id =
      Ensures-bind P (λ _. P) Read _ _
        (Keeps-bind _ _ (Keeps-lift {P = P} _) (λ u. Keeps-pure _)).after
        (λ at. read_record_at-Read at id) (λ e w p. p)

  refused-Refuses :
      (path : Utf8PathBuf) (id : ApprovalId) (d : ApprovalDecision) (actor : String)
      (source : Option String) (r : ApprovalRecord) (earlier : Option ApprovalDecision)
      → r.decision ≡ earlier
      → Ensures (Read (ok r)) (resolve_read o path id d actor source r earlier) (Refuses P)
  unfolding resolve_read raise
  refused-Refuses path id d actor source r (some earlier) e w p = p.1
  refused-Refuses path id d actor source r none e w p = absurd (p.0 e)

-- A decision is final: where every record in the files has one, resolving an approval fails, and it
-- changes the world by nothing but reading, so it writes no file.
pub resolve_with_actor-final :
    {W : Type 0} (P : W → Type 0) (o : Outside W) (path : Utf8PathBuf) (id : ApprovalId)
    (d : ApprovalDecision) (actor : String) (source : Option String) (w : W)
    → ReadsDecided P o
    → P w
    → Refuses P
        (resolve_with_actor o path id d actor source w).0
        (resolve_with_actor o path id d actor source w).1
unfolding resolve_with_actor
resolve_with_actor-final P o path id d actor source w h p =
    Ensures-bind P (Read P o h) (Refuses P) _ _ (read-Read P o h path id)
      (λ r. refused-Refuses P o h path id d actor source r r.decision refl) (λ e v q. q) w p
