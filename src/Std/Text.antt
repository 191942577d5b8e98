-- ===== src/Std/Text.antt =====
-- Rust's `char` and `str` operations that the modelled code calls.
use Prim.Native.Char.{char, IsScalar}
use Prim.Native.String.{[], ◌∷◌}
use Prim.Native.String
use Prim.Native.String.append
use mathlib.Core.Logic.{dite}
use task_fence.Prelude.{
  ℕ, ◌+◌, ◌-◌, ◌<◌, Char, code, String, ◌≡◌, refl, Bool, true, false, ◌&&◌, ◌||◌, arith, leb, eqb,
  ◌==◌, if◌then◌else◌, dec_lt,
}

-- `char::is_whitespace`: the Unicode property White_Space.
unfoldable pub is_whitespace : Char → Bool
is_whitespace c =
    let n = code c in
    (leb 0x9 n && leb n 0xd)
    || eqb n 0x20
    || eqb n 0x85
    || eqb n 0xa0
    || eqb n 0x1680
    || (leb 0x2000 n && leb n 0x200a)
    || eqb n 0x2028
    || eqb n 0x2029
    || eqb n 0x202f
    || eqb n 0x205f
    || eqb n 0x3000

-- `char::is_control`: the Unicode category Cc.
unfoldable pub is_control : Char → Bool
is_control c = let n = code c in leb n 0x1f || (leb 0x7f n && leb n 0x9f)

pub IsScalar-of_lt : (n : ℕ) → n < 0xd800 → IsScalar n
IsScalar-of_lt n h = ground arith

-- `char::to_ascii_lowercase`.
lower_char : Char → Char
unfolding dec_lt
lower_char (char n p) =
    dite (dec_lt 64 n)
      (λ h.
        dite (dec_lt n 91) (λ k. char (n + 32) (IsScalar-of_lt (n + 32) (omega arith)))
          (λ _. char n p))
      (λ _. char n p)

-- `str::to_ascii_lowercase`.
unfoldable pub to_ascii_lowercase : String → String
unfolding lower_char
to_ascii_lowercase [] = []
to_ascii_lowercase (c ∷ s) = lower_char c ∷ to_ascii_lowercase s

-- `char::to_ascii_uppercase`.
upper_char : Char → Char
unfolding dec_lt
upper_char (char n p) =
    dite (dec_lt 96 n)
      (λ h.
        dite (dec_lt n 123) (λ k. char (n - 32) (IsScalar-of_lt (n - 32) (omega arith)))
          (λ _. char n p))
      (λ _. char n p)

-- `str::to_ascii_uppercase`.
unfoldable pub to_ascii_uppercase : String → String
unfolding upper_char
to_ascii_uppercase [] = []
to_ascii_uppercase (c ∷ s) = upper_char c ∷ to_ascii_uppercase s

abbrev pub is_empty : String → Bool
is_empty [] = true
is_empty (c ∷ s) = false

trim_start : String → String
unfolding is_whitespace
trim_start [] = []
trim_start (c ∷ s) = let rest = trim_start s in if is_whitespace c then rest else c ∷ s

trim_end : String → String
unfolding is_whitespace
trim_end [] = []
trim_end (c ∷ s) =
    let rest = trim_end s in if is_empty rest && is_whitespace c then [] else c ∷ rest

-- `str::trim`.
unfoldable pub trim : String → String
unfolding trim_start trim_end
trim s = trim_end (trim_start s)

-- `str::starts_with` of a string.
unfoldable pub starts_with : String → String → Bool
starts_with s [] = true
starts_with [] (p ∷ ps) = false
starts_with (c ∷ s) (p ∷ ps) = eqb (code c) (code p) && starts_with s ps

-- A text starts with what it was put together from.
pub starts_with-append : (p s : String) → starts_with (String.◌++◌ p s) p ≡ true
unfolding starts_with
starts_with-append [] s = refl
starts_with-append (c ∷ p) s = rw append.cons (ground (arith, starts_with-append p s))

-- `str::contains` of a string.
unfoldable pub contains : String → String → Bool
unfolding starts_with
contains [] pat = is_empty pat
contains (c ∷ s) pat = starts_with (c ∷ s) pat || contains s pat

-- `str::ends_with` of a string.
unfoldable pub ends_with : String → String → Bool
ends_with [] pat = is_empty pat
ends_with (c ∷ s) pat = (c ∷ s) == pat || ends_with s pat

-- `chars().any(…)`.
unfoldable pub any_char : (Char → Bool) → String → Bool
any_char p [] = false
any_char p (c ∷ s) = p c || any_char p s

trim_test : trim "  a b\t" ≡ "a b"
unfolding trim
trim_test = refl

lower_test : to_ascii_lowercase "Ab-Z" ≡ "ab-z"
unfolding to_ascii_lowercase
lower_test = refl

contains_test : contains "my token=1" "token=" ≡ true
unfolding contains
contains_test = refl
