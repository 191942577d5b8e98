-- ===== src/Std/Map.antt =====
-- `BTreeMap` with string keys: an association list in the order of its keys.
use Prim.Native.String.{compare}
use Prim.Native.Nat.{Ordering}
use task_fence.Prelude.{
  ℕ, String, ◌≡◌, refl, Bool, true, false, Option, none, some, List, [], ◌∷◌, ◌==◌, if◌then◌else◌,
  arith, eq_refl, eq_iff, All, Bool-cases, inl, inr,
}

abbrev pub BTreeMap {ℓ} : Type ℓ → Type ℓ
BTreeMap V = List (String × V)

-- The byte order of strings.
abbrev pub is_less : String → String → Bool
is_less a b = elim (compare a b) [ Ordering.lt ↦ true | _ ↦ false ]

module _ {ℓ} {V : Type ℓ} where
  -- `get`
  unfoldable pub get : String → BTreeMap V → Option V
  get k [] = none
  get k ((j, v) ∷ m) = if j == k then some v else get k m

  -- `insert`: replaces the value of a key that is there, and keeps the order of the keys.
  unfoldable pub insert : String → V → BTreeMap V → BTreeMap V
  insert k v [] = (k, v) ∷ []
  insert k v ((j, w) ∷ m) =
      if j == k
      then (k, v) ∷ m
      else if is_less k j
      then (k, v) ∷ (j, w) ∷ m
      else (j, w) ∷ insert k v m

  -- The value that was inserted is the one that is found.
  pub get-insert : (k : String) (v : V) (m : BTreeMap V) → get k (insert k v m) ≡ some v
  unfolding get insert
  get-insert k v [] = ground (arith, eq_refl k)
  get-insert k v ((j, w) ∷ m) = ground (arith, eq_refl k, get-insert k v m)

  -- No other value changes.
  pub get-insert_other :
      (k other : String) (v : V) (m : BTreeMap V)
      → (k == other) ≡ false
      → get other (insert k v m) ≡ get other m
  unfolding get insert
  get-insert_other k other v [] h = ground (arith, h)
  get-insert_other k other v ((j, w) ∷ m) h =
      ground (arith, h, get-insert_other k other v m h, eq_iff j k)

-- What holds of the entries of a map and of a new one holds of all entries after.
pub insert-All {ℓ} :
    {V : Type ℓ} (P : (String × V) → Type ℓ) (k : String) (v : V) (m : BTreeMap V)
    → P (k, v)
    → All P m
    → All P (insert k v m)
unfolding insert
insert-All P k v [] p h = (p, tt)
insert-All P k v ((j, w) ∷ m) p (q, h) = elim (Bool-cases (j == k)) [
  | inl same ↦ rw same (p, h)
  | inr other ↦ elim (Bool-cases (is_less k j)) [
    | inl first ↦ rw other (rw first (p, (q, h)))
    | inr later ↦ rw other (rw later (q, insert-All P k v m p h))
  ]
]

-- `remove`: the value that was there, and the map without it.
unfoldable pub remove {ℓ} : {V : Type ℓ} → String → BTreeMap V → BTreeMap V
remove k [] = []
remove k ((j, v) ∷ m) = if j == k then m else (j, v) ∷ remove k m

insert_test :
    insert {V = ℕ} "b" 2 (insert "c" 3 (insert "a" 1 [])) ≡ ("a", 1) ∷ ("b", 2) ∷ ("c", 3) ∷ []
unfolding insert
insert_test = refl
