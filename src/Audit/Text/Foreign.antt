-- ===== src/Audit/Text/Foreign.antt =====
-- Texts that the markers of the sanitiser do not help to make.
use Prim.Native.String.{[], ◌∷◌}
use Prim.Native.String
use Prim.Native.String.append
use task_fence.Prelude.{Char, code, String, ◌≡◌, refl, Bool, true, false, not, arith, eqb}
use task_fence.Std.Text.{starts_with, contains}
use task_fence.Std.Split.{is_char, all_chars}
use task_fence.Audit.Text.{redaction_marker, truncation_marker}

abbrev pub differs : Char → Char → Bool
differs d c = not (eqb (code c) (code d))

abbrev pub not_bracket : Char → Bool
not_bracket c = not (is_char b'[' c)

-- A text that no marker of the sanitiser can hold or help to make.
abbrev pub IsForeign : String → Type 0
IsForeign [] = true ≡ false
IsForeign (d ∷ q) =
    (all_chars (differs d) redaction_marker ≡ true)
    × (all_chars not_bracket (d ∷ q) ≡ true)
    × (contains truncation_marker (d ∷ q) ≡ false)

pub contains-append :
    (d : Char) (q u t : String)
    → all_chars (differs d) u ≡ true
    → contains (String.◌++◌ u t) (d ∷ q) ≡ contains t (d ∷ q)
unfolding contains starts_with all_chars
contains-append d q [] t h = rw (append.nil t) refl
contains-append d q (c ∷ u) t h =
    rw (append.cons c u t) (ground (arith, h, contains-append d q u t))

-- A text that starts with a bracket starts with no text without one.
pub starts_bracket :
    (d : Char) (q t : String)
    → all_chars not_bracket (d ∷ q) ≡ true
    → starts_with ("[" ∷ t) (d ∷ q) ≡ false
unfolding starts_with all_chars
starts_bracket d q t h = ground (arith, h)

pub marker_bracket : (t : String) → String.◌++◌ redaction_marker t ≡ "[" ∷ String.◌++◌ "redacted]" t
marker_bracket t = append.cons "[" "redacted]" t
