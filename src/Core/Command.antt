-- ===== src/Core/Command.antt =====
-- crates/taskfence-core/src/lib.rs: `CommandAction::parse` and `split_command_words`.
use Prim.Native.String
use Prim.Native.String.{[], ◌∷◌}
use task_fence.Prelude.{
  Char, code, String, ◌≡◌, refl, Bool, true, false, not, ◌&&◌, ◌||◌, Option, none, some, List, ◌++◌,
  any, eqb, ◌==◌, if◌then◌else◌,
}
use task_fence.Std.Text.{is_whitespace, is_empty}
use task_fence.Core.Action.{CommandAction}

-- The variables of the loop of `split_command_words`.
pub record Splitter : Type 0 where
  pub words : List String
  pub current : String
  pub quote : Option Char
  pub escaped : Bool

abbrev pub start : Splitter
start = record { words = List.[]; current = ""; quote = none; escaped = false }

abbrev is_quote : Char → Bool
is_quote c = eqb (code c) b'\'' || eqb (code c) b'"'

-- `quote == Some(ch)`
abbrev closes : Option Char → Char → Bool
closes none c = false
closes (some q) c = eqb (code q) (code c)

abbrev is_open : Option Char → Bool
is_open none = false
is_open (some q) = true

abbrev pub push : Splitter → Char → Splitter
push s c = record s { current = String.◌++◌ s.current (c ∷ []) }

abbrev pub push_word : List String → String → List String
push_word words current = words ++ List.◌∷◌ current List.[]

-- One round of the loop.
unfoldable pub step : Splitter → Char → Splitter
unfolding is_whitespace
step s c =
    if s.escaped
    then record s { current = String.◌++◌ s.current (c ∷ []); escaped = false }
    else if eqb (code c) b'\\'
    then record s { escaped = true }
    else if is_quote c && closes s.quote c
    then record s { quote = none }
    else if is_quote c && not (is_open s.quote)
    then record s { quote = some c }
    else if is_whitespace c && not (is_open s.quote)
    then (if is_empty s.current
        then s
        else record s { words = push_word s.words s.current; current = "" })
    else push s c

unfoldable pub scan : Splitter → String → Splitter
unfolding step
scan s [] = s
scan s (c ∷ rest) = scan (step s c) rest

abbrev pub finish : Splitter → List String
finish s = if is_empty s.current then s.words else push_word s.words s.current

unfoldable pub split_command_words : String → List String
unfolding scan
split_command_words raw = finish (scan start raw)

-- The shells whose `-c` makes a command shell-wrapped.
abbrev pub is_shell : String → Bool
is_shell executable =
    executable == "sh"
    || executable == "bash"
    || executable == "zsh"
    || executable == "/bin/sh"
    || executable == "/bin/bash"
    || executable == "/bin/zsh"

abbrev pub first_or_default : List String → String
first_or_default List.[] = ""
first_or_default (List.◌∷◌ x xs) = x

abbrev pub skip_one : List String → List String
skip_one List.[] = List.[]
skip_one (List.◌∷◌ x xs) = xs

unfoldable pub parse : String → CommandAction
unfolding split_command_words
parse raw =
    let parts = split_command_words raw in
    let executable = first_or_default parts in
    let args = skip_one parts in
    record {
      executable = executable;
      args = args;
      raw = raw;
      shell_wrapped = is_shell executable && any (λ arg. arg == "-c") args;
    }

split_test :
    split_command_words "bash  -c 'rm -rf \"x y\"' a\\ b"
    ≡ List.◌∷◌ "bash" (List.◌∷◌ "-c" (List.◌∷◌ "rm -rf \"x y\"" (List.◌∷◌ "a b" List.[])))
unfolding split_command_words
split_test = refl
