-- ===== src/Core/Effect.antt =====
-- Code that calls into the outside world and may fail. What was done before an error stays done, so
-- the state comes back beside the error too.
use task_fence.Prelude.{◌≡◌, refl, Bool, true, false, if◌then◌else◌}
use task_fence.Core.Error.{TaskFenceError, Result, ok, err}

abbrev pub Effect : Type 0 → Type 0 → Type 0
Effect S A = S → Result A × S

module _ {S A : Type 0} where
  unfoldable pub pure : A → Effect S A
  pure a s = (ok a, s)

  unfoldable pub raise : TaskFenceError → Effect S A
  raise e s = (err e, s)

  -- A call whose error is inspected, and not passed on by `?`.
  unfoldable pub attempt : Effect S A → Effect S (Result A)
  attempt m s = (ok (m s).0, (m s).1)

module _ {S A B : Type 0} where
  unfoldable pub proceed : Result A → (A → Effect S B) → Effect S B
  proceed (ok a) f s = f a s
  proceed (err e) f s = (err e, s)

  infixl 5 ◌>>=◌ ◌>>◌
  -- The `?` operator: an error ends the block.
  unfoldable pub ◌>>=◌ : Effect S A → (A → Effect S B) → Effect S B
  unfolding proceed pure raise attempt
  ◌>>=◌ m f s = proceed (m s).0 f (m s).1

  abbrev pub ◌>>◌ : Effect S A → Effect S B → Effect S B
  m >> n = m >>= λ _. n

-- A postcondition of the result and the state after, from a precondition of the state before.
abbrev pub Ensures : {S A : Type 0} → (S → Type 0) → Effect S A → (Result A → S → Type 0) → Type 0
Ensures {S} P m Q = (s : S) → P s → Q (m s).0 (m s).1

-- The state keeps `P`, whether the code returns or fails.
pub record Keeps {S A : Type 0} (P : S → Type 0) (m : Effect S A) : Type 0 where
  pub after : (s : S) → P s → P (m s).1

module _ {S A B : Type 0} where
  ensures_proceed :
      (Q : Result B → S → Type 0) (R : Result A → S → Type 0) (f : A → Effect S B)
      → ((a : A) → Ensures (R (ok a)) (f a) Q)
      → ((e : TaskFenceError) (s : S) → R (err e) s → Q (err e) s)
      → (r : Result A) (s : S) → R r s
      → Q (proceed r f s).0 (proceed r f s).1
  unfolding proceed
  ensures_proceed Q R f hf he (ok a) s h = hf a s h
  ensures_proceed Q R f hf he (err e) s h = he e s h

  -- The rule of `?`: what the first step leaves is what the rest starts from, or the final error.
  pub Ensures-bind :
      (P : S → Type 0) (R : Result A → S → Type 0) (Q : Result B → S → Type 0) (m : Effect S A)
      (f : A → Effect S B)
      → Ensures P m R
      → ((a : A) → Ensures (R (ok a)) (f a) Q)
      → ((e : TaskFenceError) (s : S) → R (err e) s → Q (err e) s)
      → Ensures P (m >>= f) Q
  unfolding ◌>>=◌
  Ensures-bind P R Q m f hm hf he s h = ensures_proceed Q R f hf he (m s).0 (m s).1 (hm s h)

  pub Keeps-bind :
      {P : S → Type 0} (m : Effect S A) (f : A → Effect S B)
      → Keeps P m
      → ((a : A) → Keeps P (f a))
      → Keeps P (m >>= f)
  Keeps-bind {P} m f hm hf = record {
    after = Ensures-bind P (λ _ s. P s) (λ _ s. P s) m f hm.after (λ a. (hf a).after) (λ e s h. h);
  }

module _ {S A B : Type 0} {P : S → Type 0} where
  keeps_proceed :
      (f : A → Effect S B) (r : Result A) (s : S)
      → ((a : A) → r ≡ ok a → Keeps P (f a))
      → P s
      → P (proceed r f s).1
  unfolding proceed
  keeps_proceed f (ok a) s h p = (h a refl).after s p
  keeps_proceed f (err e) s h p = p

  -- The rest is known to start from a value that the first step gave.
  pub Keeps-bind_given :
      (m : Effect S A) (f : A → Effect S B)
      → Keeps P m
      → ((a : A) (s : S) → (m s).0 ≡ ok a → Keeps P (f a))
      → Keeps P (m >>= f)
  unfolding ◌>>=◌
  Keeps-bind_given m f k h = record {
    after = λ s p. keeps_proceed f (m s).0 (m s).1 (λ a e. h a s e) (k.after s p);
  }

pub Keeps-raise : {S A : Type 0} {P : S → Type 0} (e : TaskFenceError) → Keeps P (raise {A = A} e)
unfolding raise
Keeps-raise e = record { after = λ s h. h }

module _ {S A : Type 0} {P : S → Type 0} where
  pub Keeps-if :
      (b : Bool) (m n : Effect S A) → Keeps P m → Keeps P n → Keeps P (if b then m else n)
  Keeps-if true m n km kn = km
  Keeps-if false m n km kn = kn

  pub Keeps-pure : (a : A) → Keeps P (pure a)
  unfolding pure
  Keeps-pure a = record { after = λ s h. h }

  pub Keeps-attempt : (m : Effect S A) → Keeps P m → Keeps P (attempt m)
  unfolding attempt
  Keeps-attempt m hm = record { after = hm.after }

pub ruleset keeps_rules = (Keeps-bind, Keeps-pure, Keeps-raise, Keeps-attempt, Keeps-if)

proceed-eq-ok :
    {S A B : Type 0} (r : Result A) (f : A → Effect S B) (s : S) {b : B}
    → (proceed r f s).0 ≡ ok b
    → (a : A) × (r ≡ ok a) × ((f a s).0 ≡ ok b) × (proceed r f s ≡ f a s)
unfolding proceed
proceed-eq-ok (ok a) f s h = (a, refl, h, refl)
proceed-eq-ok (err e) f s h = cc

-- A block that succeeds has succeeded at its first step, and at the rest from there.
pub bind-eq-ok :
    {S A B : Type 0} (m : Effect S A) (f : A → Effect S B) (s : S) {b : B}
    → ((m >>= f) s).0 ≡ ok b
    → (a : A) × ((m s).0 ≡ ok a) × ((f a (m s).1).0 ≡ ok b) × ((m >>= f) s ≡ f a (m s).1)
unfolding ◌>>=◌
bind-eq-ok m f s h = proceed-eq-ok (m s).0 f (m s).1 h

module _ {S A : Type 0} where
  -- A fallible step that touches no state.
  unfoldable pub lift : Result A → Effect S A
  lift r s = (r, s)

  unfoldable pub gets : (S → A) → Effect S A
  gets f s = (ok (f s), s)

unfoldable pub modify : {S : Type 0} → (S → S) → Effect S (Unit {0})
modify f s = (ok tt, f s)

module _ {S A B : Type 0} (P Q : S → Type 0) where
  -- A first step that keeps `P`, of which `Q` follows where it fails, and a rest that leads to `Q`.
  pub Ensures-first :
      (m : Effect S A) (f : A → Effect S B)
      → ((s : S) → P s → Q s)
      → Keeps P m
      → ((a : A) → Ensures P (f a) (λ _ s. Q s))
      → Ensures P (m >>= f) (λ _ s. Q s)
  Ensures-first m f weaken k h =
      Ensures-bind P (λ _ s. P s) (λ _ s. Q s) m f k.after h (λ e s p. weaken s p)

  -- A read of the state: the rest is known to start from the value that was read.
  pub Ensures-gets :
      (g : S → A) (f : A → Effect S B)
      → ((s : S) → P s → Q (f (g s) s).1)
      → Ensures P (gets g >>= f) (λ _ s. Q s)
  unfolding gets ◌>>=◌
  Ensures-gets g f h = h

pub Keeps-lift : {S A : Type 0} {P : S → Type 0} (r : Result A) → Keeps P (lift r)
unfolding lift
Keeps-lift r = record { after = λ s h. h }
