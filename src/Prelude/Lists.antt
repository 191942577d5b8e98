-- ===== src/Prelude/Lists.antt =====
-- Lists and options as the code's iterator chains use them.
use mathlib.Core.Path.{◌≡◌, refl, ap, sym, subst, ◌∙◌}
use mathlib.Core.Logic.{inl, inr}
use task_fence.Prelude.Tests.{Bool-cases}
use native.Mathlib.Omega.{arith}
use mathlib.Core.Bool.{Bool, true, false, ◌||◌, ◌&&◌}
use mathlib.Core.Option.{Option, none, some}
use mathlib.Core.List.{List, [], ◌∷◌, ◌++◌, append_assoc, append-nil}
use Prim.Native.Nat.{ℕ, suc}

module _ {ℓ} {A : Type ℓ} where
  -- `iter().any(…)`
  abbrev pub any : (A → Bool) → List A → Bool
  any p [] = false
  any p (x ∷ xs) = p x || any p xs

  -- `iter().all(…)`
  abbrev pub all : (A → Bool) → List A → Bool
  all p [] = true
  all p (x ∷ xs) = p x && all p xs

  abbrev pub length : List A → ℕ
  length [] = 0
  length (x ∷ xs) = suc (length xs)

  pub any-append : (p : A → Bool) (xs : List A) (x : A) → any p (xs ++ x ∷ []) ≡ (any p xs || p x)
  any-append p [] x = ground arith
  any-append p (y ∷ ys) x = ground (arith, any-append p ys x)

module _ {ℓ κ} {A : Type ℓ} (P : A → Type κ) where
  -- Every element satisfies `P`, by recursion.
  abbrev pub All : List A → Type κ
  All [] = Unit
  All (x ∷ xs) = P x × All xs

  pub All-append : (xs ys : List A) → All xs → All ys → All (xs ++ ys)
  All-append [] ys h k = k
  All-append (x ∷ xs) ys (p, h) k = (p, All-append xs ys h k)

module _ {ℓ κ} {A : Type ℓ} (P Q : A → Type κ) where
  pub All-weaken : (xs : List A) → ((x : A) → P x → Q x) → All P xs → All Q xs
  All-weaken [] f h = tt
  All-weaken (x ∷ xs) f (p, h) = (f x p, All-weaken xs f h)

  pub All-zip : (xs : List A) → All P xs → All Q xs → All (λ x. P x × Q x) xs
  All-zip [] h k = tt
  All-zip (x ∷ xs) (p, h) (q, k) = ((p, q), All-zip xs h k)

abbrev pub AllSome {ℓ κ} : {A : Type ℓ} → (A → Type κ) → Option A → Type κ
AllSome P none = Unit
AllSome P (some a) = P a

-- An element at some place of a list satisfies `P`.
abbrev pub Somewhere : {A : Type 0} → (A → Type 0) → List A → Type 0
Somewhere {A} P xs =
    (before : List A) × (x : A) × (after : List A) × (xs ≡ before ++ x ∷ after) × P x

module _ {A : Type 0} (P : A → Type 0) where
  pub Somewhere-later : (x : A) (xs : List A) → Somewhere P xs → Somewhere P (x ∷ xs)
  Somewhere-later x xs (before, y, after, e, h) = (x ∷ before, y, after, ap (λ l. x ∷ l) e, h)

module _ {A : Type 0} (p : A → Bool) where
  pub any-Somewhere : (xs : List A) → any p xs ≡ true → Somewhere (λ x. p x ≡ true) xs
  any-Somewhere [] e = cc e
  any-Somewhere (x ∷ xs) e = elim (Bool-cases (p x)) [
    | inl holds ↦ ([], x, xs, refl, holds)
    | inr fails ↦ Somewhere-later _ x xs (any-Somewhere xs (ground (arith, e, fails)))
  ]

  any-at :
      (before : List A) (x : A) (after : List A) → p x ≡ true → any p (before ++ x ∷ after) ≡ true
  any-at [] x after h = ground (arith, h)
  any-at (y ∷ before) x after h = ground (arith, any-at before x after h)

  pub Somewhere-any : (xs : List A) → Somewhere (λ x. p x ≡ true) xs → any p xs ≡ true
  Somewhere-any xs (before, x, after, e, h) = rw e (any-at before x after h)

module _ {A : Type 0} (P Q : A → Type 0) where
  -- Every element of `xs`, which follows `earlier`, that satisfies `P` comes after one that satisfies `Q`.
  abbrev pub Preceded : List A → List A → Type 0
  Preceded earlier [] = Unit {0}
  Preceded earlier (x ∷ xs) = (P x → Somewhere Q earlier) × Preceded (earlier ++ x ∷ []) xs

  pub Preceded-append :
      (earlier xs : List A) (x : A)
      → Preceded earlier xs
      → (P x → Somewhere Q (earlier ++ xs))
      → Preceded earlier (xs ++ x ∷ [])
  Preceded-append earlier [] x h k = (λ r. subst (Somewhere Q) (append-nil earlier) (k r), tt)
  Preceded-append earlier (y ∷ xs) x (here, h) k = (
    here,
    Preceded-append (earlier ++ y ∷ []) xs x h
        (λ r. subst (Somewhere Q) (sym (append_assoc earlier (y ∷ []) xs)) (k r)),
  )

pub Somewhere-append :
    {A : Type 0} (P : A → Type 0) (xs : List A) (x : A)
    → Somewhere P xs
    → Somewhere P (xs ++ x ∷ [])
Somewhere-append P xs x (before, y, after, split, h) = (
  before,
  y,
  after ++ x ∷ [],
  ap (λ l. l ++ x ∷ []) split ∙ append_assoc before (y ∷ after) (x ∷ []),
  h,
)
