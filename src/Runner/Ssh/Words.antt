-- ===== src/Runner/Ssh/Words.antt =====
-- What a POSIX shell reads in the command that is run over SSH: a reader of the quoting and the words that the command uses, which refuses every other text.
use Prim.Native.String.{[], ◌∷◌}
use task_fence.Prelude.{
  Char, code, String, ◌≡◌, refl, Bool, ◌&&◌, Option, none, some, List, leb, if◌then◌else◌,
}
use task_fence.Std.Split.{is_char}

pub data Token : Type 0 where
  and_then : Token
  word : String → Token

-- Where the reader stands: between words, in a bare word, in quotes, after a backslash, after one `&`.
pub data Mode : Type 0 where
  blank bare quoted escaped ampersand : Mode

-- A character of the word that is read.
abbrev pub put : Char → Option (List Token) → Option (List Token)
put c (some (List.◌∷◌ (word w) tokens)) = some (List.◌∷◌ (word (c ∷ w)) tokens)
put c _ = none

abbrev pub token : Token → Option (List Token) → Option (List Token)
token t none = none
token t (some tokens) = some (List.◌∷◌ t tokens)

abbrev pub is_letter : Char → Bool
is_letter c = leb b'a' (code c) && leb (code c) b'z'

unfoldable pub read_words : Mode → String → Option (List Token)
read_words blank [] = some List.[]
read_words bare [] = some (List.◌∷◌ (word []) List.[])
read_words quoted [] = none
read_words escaped [] = none
read_words ampersand [] = none
read_words blank (c ∷ s) =
    let next = read_words blank s in
    let inside = read_words quoted s in
    let both = read_words ampersand s in
    let rest = read_words bare s in
    if is_char b' ' c
    then next
    else if is_char b'\'' c
    then inside
    else if is_char b'&' c
    then both
    else if is_letter c
    then put c rest
    else none
read_words bare (c ∷ s) =
    let next = read_words blank s in
    let inside = read_words quoted s in
    let escape = read_words escaped s in
    let rest = read_words bare s in
    if is_char b' ' c
    then token (word []) next
    else if is_char b'\'' c
    then inside
    else if is_char b'\\' c
    then escape
    else if is_letter c
    then put c rest
    else none
read_words quoted (c ∷ s) =
    let closed = read_words bare s in
    let rest = read_words quoted s in if is_char b'\'' c then closed else put c rest
read_words escaped (c ∷ s) = put c (read_words bare s)
read_words ampersand (c ∷ s) =
    let rest = read_words blank s in if is_char b'&' c then token and_then rest else none

read_test :
    read_words blank "cd '/w k' && exec 'it'\\''s' ''"
    ≡ some (
        List.◌∷◌ (word "cd") (
          List.◌∷◌ (word "/w k") (
            List.◌∷◌ and_then
              (List.◌∷◌ (word "exec") (List.◌∷◌ (word "it's") (List.◌∷◌ (word "") List.[]))))))
unfolding read_words
read_test = refl
