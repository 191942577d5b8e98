-- ===== src/Std/Decimal.antt =====
-- `to_string` of an unsigned number.
use Prim.Native.Char.{char}
use Prim.Native.Nat.{◌/◌, ◌%◌}
use Prim.Native.String.{[], ◌∷◌}
use task_fence.Prelude.{ℕ, zero, suc, ◌+◌, Char, String, ◌≡◌, refl, eqb, arith, if◌then◌else◌}
use task_fence.Std.Text.{IsScalar-of_lt}

digit_char : ℕ → Char
digit_char n = char (b'0' + n % 10) (IsScalar-of_lt (b'0' + n % 10) (omega arith))

-- The digits of `n` before `out`. A number has no more digits than its value and one.
digits : ℕ → ℕ → String → String
unfolding digit_char
digits zero n out = out
digits (suc fuel) n out =
    let rest = digits fuel (n / 10) (digit_char n ∷ out) in
    if eqb (n / 10) 0 then digit_char n ∷ out else rest

unfoldable pub to_decimal : ℕ → String
unfolding digits
to_decimal n = digits (suc n) n []

decimal_test : to_decimal 2048 ≡ "2048"
unfolding to_decimal
decimal_test = refl
