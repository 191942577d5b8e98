-- ===== src/Std/Format.antt =====
-- `format!` and `join`, which build texts from pieces.
use Prim.Native.String
use task_fence.Prelude.{String, ◌≡◌, refl, List, [], ◌∷◌}

-- `format!`: the pieces of the template and its arguments, in order.
unfoldable pub format : List String → String
format [] = ""
format (piece ∷ rest) = String.◌++◌ piece (format rest)

-- `join` of a list of strings.
unfoldable pub join : String → List String → String
join sep [] = ""
join sep (x ∷ []) = x
join sep (x ∷ y ∷ ys) = String.◌++◌ x (String.◌++◌ sep (join sep (y ∷ ys)))

join_test : join " " ("cargo" ∷ "test" ∷ "-q" ∷ []) ≡ "cargo test -q"
unfolding join
join_test = refl
