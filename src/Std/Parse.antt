-- ===== src/Std/Parse.antt =====
-- `parse::<u16>()` of Rust's standard library, with the texts of its errors.
use Prim.Native.String.{[], ◌∷◌}
use task_fence.Prelude.{
  ℕ, ◌+◌, ◌-◌, ◌*◌, ◌≤◌, Char, code, String, ◌≡◌, refl, Bool, ◌&&◌, ◌||◌, leb, ltb, arith,
  if◌then◌else◌,
}
use task_fence.Std.Split.{is_char}

pub data IntResult : Type 0 where
  parsed : ℕ → IntResult
  int_error : String → IntResult

abbrev pub is_digit : Char → Bool
is_digit c = leb b'0' (code c) && leb (code c) b'9'

abbrev in_range : ℕ → ℕ → Char → Bool
in_range least most c = leb least (code c) && leb (code c) most

-- `char::is_ascii_alphanumeric`
abbrev pub is_ascii_alphanumeric : Char → Bool
is_ascii_alphanumeric c = in_range b'A' b'Z' c || in_range b'a' b'z' c || is_digit c

-- The largest value of the type is `max`. The first bad digit or overflow decides.
parse_digits : ℕ → ℕ → String → IntResult
parse_digits max n [] = parsed n
parse_digits max n (c ∷ s) =
    let rest = parse_digits max (n * 10 + (code c - b'0')) s in
    if is_digit c
    then (if ltb max (n * 10 + (code c - b'0'))
        then int_error "number too large to fit in target type"
        else rest)
    else int_error "invalid digit found in string"

abbrev after_sign : ℕ → String → IntResult
unfolding parse_digits
after_sign max [] = int_error "invalid digit found in string"
after_sign max (c ∷ s) = parse_digits max 0 (c ∷ s)

unfoldable pub parse_int : ℕ → String → IntResult
unfolding parse_digits
parse_int max [] = int_error "cannot parse integer from empty string"
parse_int max (c ∷ s) = if is_char b'+' c then after_sign max s else parse_digits max 0 (c ∷ s)

unfoldable pub parse_u16 : String → IntResult
unfolding parse_int
parse_u16 s = parse_int 65535 s

parse_digits-le :
    (max n : ℕ) (s : String) (m : ℕ) → n ≤ max → parse_digits max n s ≡ parsed m → m ≤ max
unfolding parse_digits
parse_digits-le max n [] m h e = ground arith
parse_digits-le max n (c ∷ s) m h e =
    ground (arith, parse_digits-le max (n * 10 + (code c - b'0')) s m)

-- A number that is read lies in the range of its type.
pub parse_int-le : (max : ℕ) (s : String) (m : ℕ) → parse_int max s ≡ parsed m → m ≤ max
unfolding parse_int
parse_int-le max [] m e = ground arith
parse_int-le max (c ∷ []) m e = ground (arith, parse_digits-le max 0 (c ∷ []) m)
parse_int-le max (c ∷ d ∷ s) m e =
    ground (arith, parse_digits-le max 0 (c ∷ d ∷ s) m, parse_digits-le max 0 (d ∷ s) m)

parse_test : parse_u16 "8080" ≡ parsed 8080
unfolding parse_u16
parse_test = refl
