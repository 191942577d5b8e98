-- ===== src/Core/Blocking.antt =====
-- Code that calls into the outside world, may fail, and may not return: `none` stands for a call that
-- blocks for ever, for a panic, and for a loop whose fuel is spent.
use task_fence.Prelude.{◌≡◌, refl, Option, none, some}
use task_fence.Core.Error.{Result, ok, err}

abbrev pub Blocking : Type 0 → Type 0 → Type 0
Blocking S A = S → Option (Result A × S)

unfoldable pub pure : {S A : Type 0} → A → Blocking S A
pure a s = some (ok a, s)

module _ {S A B : Type 0} where
  unfoldable pub proceed : Option (Result A × S) → (A → Blocking S B) → Option (Result B × S)
  proceed none f = none
  proceed (some (ok a, s)) f = f a s
  proceed (some (err e, s)) f = some (err e, s)

  infixl 5 ◌>>=◌ ◌>>◌
  -- The `?` operator: an error ends the block.
  unfoldable pub ◌>>=◌ : Blocking S A → (A → Blocking S B) → Blocking S B
  unfolding proceed
  ◌>>=◌ m f s = proceed (m s) f

  abbrev pub ◌>>◌ : Blocking S A → Blocking S B → Blocking S B
  m >> n = m >>= λ _. n

abbrev pub OnValue : {S A : Type 0} → (A → S → Type 0) → Result A → S → Type 0
OnValue Q (ok a) s = Q a s
OnValue Q (err e) s = Unit {0}

-- The code returns, and where it returns a value, `Q` holds of it and of the state.
abbrev pub Returns : {S A : Type 0} → (A → S → Type 0) → Option (Result A × S) → Type 0
Returns {S} {A} Q q = (r : Result A) × (s : S) × (q ≡ some (r, s)) × OnValue Q r s

module _ {S A B : Type 0} (Q : A → S → Type 0) (R : B → S → Type 0) (f : A → Blocking S B) where
  returned :
      (r : Result A) (s : S)
      → OnValue Q r s
      → ((a : A) (v : S) → Q a v → Returns R (f a v))
      → Returns R (proceed (some (r, s)) f)
  unfolding proceed
  returned (ok a) s h k = k a s h
  returned (err e) s h k = (err e, s, refl, tt)

  pub Returns-bind :
      (m : Blocking S A) (s : S)
      → Returns Q (m s)
      → ((a : A) (v : S) → Q a v → Returns R (f a v))
      → Returns R ((m >>= f) s)
  unfolding ◌>>=◌
  Returns-bind m s (r, v, e, h) k = rw e (returned r v h k)
