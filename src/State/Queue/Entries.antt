-- ===== src/State/Queue/Entries.antt =====
-- Maps whose keys are distinct, and what a write to the first matching entry does to them.
use task_fence.Prelude.{
  String, ◌≡◌, refl, Bool, true, false, none, some, [], ◌∷◌, ◌==◌, arith, eq_refl, eq_iff,
  Bool-cases, inl, inr,
}
use task_fence.Std.Map.{BTreeMap, get, insert, get-insert_other}
use task_fence.State.Leases.{find, update_first}

module _ {V : Type 0} where
  abbrev pub IsDistinct : BTreeMap V → Type 0
  IsDistinct [] = Unit {0}
  IsDistinct ((k, v) ∷ m) = (get k m ≡ none) × IsDistinct m

  -- A new key keeps the keys distinct.
  pub insert-IsDistinct :
      (k : String) (v : V) (m : BTreeMap V)
      → get k m ≡ none
      → IsDistinct m
      → IsDistinct (insert k v m)
  unfolding get insert
  insert-IsDistinct k v [] n d = (refl, tt)
  insert-IsDistinct k v ((j, w) ∷ m) n d =
      ground (
        arith,
        insert-IsDistinct k v m,
        get-insert_other k j v m,
        eq_iff j k,
        eq_iff k j,
        eq_refl k,
      )

module _ {V : Type 0} (p : (String × V) → Bool) (f : V → V) where
  abbrev pub write : BTreeMap V → BTreeMap V
  write m = update_first p (λ entry. (entry.0, f entry.1)) m

  get-write_none : (k : String) (m : BTreeMap V) → get k m ≡ none → get k (write m) ≡ none
  unfolding get update_first
  get-write_none k [] n = refl
  get-write_none k ((j, w) ∷ m) n = ground (arith, get-write_none k m)

  pub write-IsDistinct : (m : BTreeMap V) → IsDistinct m → IsDistinct (write m)
  unfolding update_first
  write-IsDistinct [] d = tt
  write-IsDistinct ((j, w) ∷ m) (n, d) = elim (Bool-cases (p (j, w))) [
    | inl here ↦ rw here (n, d)
    | inr past ↦ rw past (get-write_none j m n, write-IsDistinct m d)
  ]

  pub found-get :
      (m : BTreeMap V) (k : String) (v : V)
      → IsDistinct m
      → find p m ≡ some (k, v)
      → get k m ≡ some v
  unfolding get find
  found-get [] k v d e = cc e
  found-get ((j, w) ∷ m) k v (n, d) e = ground (arith, found-get m k v d, eq_iff j k, eq_refl k)

  -- The write reaches the key of the entry that was found.
  pub get-write_found :
      (m : BTreeMap V) (k : String) (v : V)
      → IsDistinct m
      → find p m ≡ some (k, v)
      → get k (write m) ≡ some (f v)
  unfolding get find update_first
  get-write_found [] k v d e = cc e
  get-write_found ((j, w) ∷ m) k v (n, d) e =
      ground (arith, get-write_found m k v d, found-get m k v d, eq_iff j k, eq_refl k)

  -- It reaches no other key.
  pub get-write_other :
      (m : BTreeMap V) (k : String) (v : V) (j : String)
      → find p m ≡ some (k, v)
      → (k == j) ≡ false
      → get j (write m) ≡ get j m
  unfolding get find update_first
  get-write_other [] k v j e h = refl
  get-write_other ((i, w) ∷ m) k v j e h =
      ground (arith, get-write_other m k v j, eq_iff i j, eq_iff k j, eq_iff i k, eq_refl k)

  pub find-none :
      (m : BTreeMap V) (k : String) (v : V) → find p m ≡ none → get k m ≡ some v → p (k, v) ≡ false
  unfolding get find
  find-none [] k v e g = cc g
  find-none ((j, w) ∷ m) k v e g = ground (arith, find-none m k v, eq_iff j k)

  pub find-some : (m : BTreeMap V) (entry : String × V) → find p m ≡ some entry → p entry ≡ true
  unfolding find
  find-some [] entry e = cc e
  find-some ((j, w) ∷ m) entry e = ground (arith, find-some m entry)

-- The entry of a key is the first that matches it.
pub find-key :
    {V : Type 0} (k : String) (m : BTreeMap V) (v : V)
    → get k m ≡ some v
    → find (λ entry. entry.0 == k) m ≡ some (k, v)
unfolding get find
find-key k [] v g = cc g
find-key k ((j, w) ∷ m) v g = ground (arith, find-key k m v, eq_iff j k)
