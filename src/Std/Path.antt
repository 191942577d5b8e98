-- ===== src/Std/Path.antt =====
-- `std::path` on Unix, which `camino` wraps: a path is its text, read through its components.
use Prim.Native.String
use Prim.Native.String.{[], ◌∷◌}
use Prim.Native.Char.{code}
use Prim.Native.Nat
use Prim.Native.Nat.{Ordering}
use task_fence.Prelude.{
  ℕ, zero, suc, ◌-◌, String, ◌≡◌, refl, Bool, true, false, ◌&&◌, ◌||◌, Option, none, some, List,
  any, length, eqb, ◌==◌, if◌then◌else◌,
}
use task_fence.Std.Text.{is_empty}
use task_fence.Std.Format

pub data Component : Type 0 where
  root_dir cur_dir parent_dir : Component
  normal : String → Component

-- Equality of components.
abbrev pub same : Component → Component → Bool
same root_dir root_dir = true
same cur_dir cur_dir = true
same parent_dir parent_dir = true
same (normal a) (normal b) = a == b
same _ _ = false

-- The text cut at every `/`; `current` is the piece read so far.
split_slash : String → String → List String
split_slash current [] = List.◌∷◌ current List.[]
split_slash current (c ∷ s) =
    let closed = List.◌∷◌ current (split_slash "" s) in
    let longer = split_slash (String.◌++◌ current (c ∷ [])) s in
    if eqb (code c) b'/' then closed else longer

-- Empty pieces and `.` are dropped.
named : List String → List Component
named List.[] = List.[]
named (List.◌∷◌ p ps) =
    if p == "" || p == "."
    then named ps
    else List.◌∷◌ (if p == ".." then parent_dir else normal p) (named ps)

-- A leading `.` of a relative path is kept.
relative : List String → List Component
relative List.[] = List.[]
relative (List.◌∷◌ p ps) = if p == "." then List.◌∷◌ cur_dir (named ps) else named (List.◌∷◌ p ps)

-- `Path::is_absolute`.
unfoldable pub is_absolute : String → Bool
is_absolute [] = false
is_absolute (c ∷ s) = eqb (code c) b'/'

-- `Path::components`.
unfoldable pub components : String → List Component
unfolding split_slash named relative is_absolute
components path =
    if is_absolute path
    then List.◌∷◌ root_dir (named (split_slash "" path))
    else relative (split_slash "" path)

-- One list of components is a prefix of another.
unfoldable pub is_prefix : List Component → List Component → Bool
is_prefix List.[] ys = true
is_prefix (List.◌∷◌ x xs) List.[] = false
is_prefix (List.◌∷◌ x xs) (List.◌∷◌ y ys) = same x y && is_prefix xs ys

-- `Path::starts_with`: whole components, never a part of one.
unfoldable pub path_starts_with : String → String → Bool
unfolding components is_prefix
path_starts_with path base = is_prefix (components base) (components path)

ends_with_slash : String → Bool
ends_with_slash [] = false
ends_with_slash (c ∷ s) =
    let rest = ends_with_slash s in if is_empty s then eqb (code c) b'/' else rest

-- `Path::join`.
unfoldable pub join : String → String → String
unfolding ends_with_slash
join path other =
    if is_absolute other
    then other
    else if is_empty path || ends_with_slash path
    then String.◌++◌ path other
    else String.◌++◌ path (String.◌++◌ "/" other)

-- `components().any(|component| component.as_str() == "..")`
abbrev is_parent_dir : Component → Bool
is_parent_dir parent_dir = true
is_parent_dir _ = false

unfoldable pub contains_parent_dir : String → Bool
unfolding components
contains_parent_dir path = any is_parent_dir (components path)

-- The order of components, and of paths.
abbrev rank : Component → ℕ
rank root_dir = 0
rank cur_dir = 1
rank parent_dir = 2
rank (normal name) = 3

abbrev name_of : Component → String
name_of root_dir = ""
name_of cur_dir = ""
name_of parent_dir = ""
name_of (normal name) = name

abbrev then_compare : Ordering → Ordering → Ordering
then_compare Ordering.eq o = o
then_compare Ordering.lt o = Ordering.lt
then_compare Ordering.gt o = Ordering.gt

compare_components : List Component → List Component → Ordering
compare_components List.[] List.[] = Ordering.eq
compare_components List.[] (List.◌∷◌ y ys) = Ordering.lt
compare_components (List.◌∷◌ x xs) List.[] = Ordering.gt
compare_components (List.◌∷◌ x xs) (List.◌∷◌ y ys) =
    then_compare
      (then_compare (Nat.compare (rank x) (rank y)) (String.compare (name_of x) (name_of y)))
      (compare_components xs ys)

-- `Path::cmp`.
unfoldable pub compare_paths : String → String → Ordering
unfolding components compare_components
compare_paths a b = compare_components (components a) (components b)

-- `Path::eq`.
unfoldable pub same_path : String → String → Bool
unfolding compare_paths
same_path a b = elim (compare_paths a b) [ Ordering.eq ↦ true | _ ↦ false ]

-- `Path::strip_prefix` of an absolute path, with an absolute base: the text that is left, without
-- separators and `.` at its ends.
abbrev is_blank : String → Bool
is_blank piece = piece == "" || piece == "."

drop_named : ℕ → List String → List String
drop_named n List.[] = List.[]
drop_named zero (List.◌∷◌ p ps) =
    let rest = drop_named zero ps in if is_blank p then rest else List.◌∷◌ p ps
drop_named (suc n) (List.◌∷◌ p ps) =
    let same = drop_named (suc n) ps in
    let fewer = drop_named n ps in if is_blank p then same else fewer

abbrev put_piece : String → List String → List String
put_piece p List.[] = if is_blank p then List.[] else List.◌∷◌ p List.[]
put_piece p (List.◌∷◌ q qs) = List.◌∷◌ p (List.◌∷◌ q qs)

drop_blank_end : List String → List String
drop_blank_end List.[] = List.[]
drop_blank_end (List.◌∷◌ p ps) = put_piece p (drop_blank_end ps)

unfoldable pub strip_prefix : String → String → Option String
unfolding path_starts_with components drop_named drop_blank_end split_slash
strip_prefix path base =
    if path_starts_with path base
    then some (
        Format.join "/"
          (drop_blank_end (drop_named (length (components base) - 1) (split_slash "" path))))
    else none

strip_test : strip_prefix "/work//src/./lib/" "/work/" ≡ some "src/./lib"
unfolding strip_prefix path_starts_with is_prefix Format.join
strip_test = refl

join_test : join "/work/" (join "a" "b") ≡ "/work/a/b"
unfolding join is_absolute
join_test = refl

prefix_test : path_starts_with "/work/src/./lib.rs" "/work/src/" ≡ true
unfolding path_starts_with
prefix_test = refl

sibling_test : path_starts_with "/workspace" "/work" ≡ false
unfolding path_starts_with
sibling_test = refl
