-- ===== src/Std/Split.antt =====
-- Rust's `str` operations that look for a character.
use Prim.Native.String.{[], ◌∷◌}
use task_fence.Prelude.{
  ℕ, zero, suc, Char, code, String, ◌≡◌, refl, Bool, true, ◌&&◌, List, eqb, if◌then◌else◌,
}
use task_fence.Std.Text.{is_empty}

abbrev pub is_char : ℕ → Char → Bool
is_char n c = eqb (code c) n

-- `&s[..s.find(p)]`, and the whole text where `p` finds nothing.
unfoldable pub before : (Char → Bool) → String → String
before p [] = []
before p (c ∷ s) = let rest = before p s in if p c then [] else c ∷ rest

-- `&s[s.find(p)..]`, and the empty text where `p` finds nothing.
unfoldable pub from_char : (Char → Bool) → String → String
from_char p [] = []
from_char p (c ∷ s) = let rest = from_char p s in if p c then c ∷ s else rest

-- `&s[n..]` of a text whose first `n` characters are ASCII.
unfoldable pub skip : ℕ → String → String
skip zero s = s
skip (suc n) [] = []
skip (suc n) (c ∷ s) = skip n s

-- `matches(c).count()`
unfoldable pub count_char : (Char → Bool) → String → ℕ
count_char p [] = 0
count_char p (c ∷ s) = if p c then suc (count_char p s) else count_char p s

-- `split(c)`: the pieces between the separators, which may be empty.
abbrev first_piece : Char → List String → List String
first_piece c List.[] = List.◌∷◌ (c ∷ []) List.[]
first_piece c (List.◌∷◌ piece pieces) = List.◌∷◌ (c ∷ piece) pieces

unfoldable pub split : (Char → Bool) → String → List String
split p [] = List.◌∷◌ [] List.[]
split p (c ∷ s) = let rest = split p s in if p c then List.◌∷◌ [] rest else first_piece c rest

-- `trim_end_matches(c)`
unfoldable pub trim_end_matches : (Char → Bool) → String → String
trim_end_matches p [] = []
trim_end_matches p (c ∷ s) =
    let rest = trim_end_matches p s in if is_empty rest && p c then [] else c ∷ rest

-- `chars().all(…)`
unfoldable pub all_chars : (Char → Bool) → String → Bool
all_chars p [] = true
all_chars p (c ∷ s) = p c && all_chars p s

split_test : split (is_char b'.') "a..b" ≡ List.◌∷◌ "a" (List.◌∷◌ "" (List.◌∷◌ "b" List.[]))
unfolding split
split_test = refl
