-- ===== src/Audit/Text.antt =====
-- crates/taskfence-audit/src/lib.rs: the sanitising of a text. The two loops with a cursor are one pass over
-- the text, with a mode that says what is being passed over.
pub mod Foreign
pub mod Prefixes
pub mod Markers
pub mod Tokens
use Prim.Native.String.{[], ◌∷◌}
use Prim.Native.String
use task_fence.Prelude.{
  ℕ, zero, suc, ◌+◌, ◌-◌, Char, code, String, ◌≡◌, refl, Bool, true, false, not, ◌&&◌, ◌||◌, List,
  leb, ltb, eqb, if◌then◌else◌,
}
use mathlib.Core.List
use task_fence.Std.Text.{is_control, is_whitespace, to_ascii_lowercase, starts_with}
use task_fence.Std.Split.{is_char}
use task_fence.Std.Parse.{is_ascii_alphanumeric}

abbrev pub redaction_marker : String
redaction_marker = "[redacted]"

abbrev pub truncation_marker : String
truncation_marker = "[taskfence truncated]"

unfoldable pub strip_terminal_controls : String → String
unfolding is_control
strip_terminal_controls [] = []
strip_terminal_controls (c ∷ s) =
    let rest = strip_terminal_controls s in
    if is_control c && not (is_char b'\n' c || is_char b'\r' c || is_char b'\t' c)
    then " " ∷ rest
    else c ∷ rest

unfoldable pub is_token_char : Char → Bool
is_token_char c = is_ascii_alphanumeric c || is_char b'_' c || is_char b'-' c || is_char b'.' c

-- What the pass is doing: copying, passing over the rest of what was found, or over what follows it.
pub data Mode : Type 0 where
  copying : Mode
  within : ℕ → Mode
  following : Mode

unfoldable pub count : String → ℕ
count [] = 0
count (c ∷ s) = suc (count s)

-- The length of a text without its first character.
abbrev pub rest_count : String → ℕ
rest_count [] = 0
rest_count (c ∷ s) = count s

module _ (prefix : String) where
  unfoldable pub pass_prefix : Mode → String → String
  unfolding is_token_char starts_with count
  pass_prefix mode [] = []
  pass_prefix copying (c ∷ s) =
      let copied = pass_prefix copying s in
      let found = pass_prefix (within (rest_count prefix)) s in
      if starts_with (c ∷ s) prefix then String.◌++◌ redaction_marker found else c ∷ copied
  pass_prefix (within (suc n)) (c ∷ s) = pass_prefix (within n) s
  pass_prefix (within zero) (c ∷ s) =
      let passed = pass_prefix following s in
      let copied = pass_prefix copying s in
      let found = pass_prefix (within (rest_count prefix)) s in
      if is_token_char c
      then passed
      else if starts_with (c ∷ s) prefix
      then String.◌++◌ redaction_marker found
      else c ∷ copied
  pass_prefix following (c ∷ s) =
      let passed = pass_prefix following s in
      let copied = pass_prefix copying s in
      let found = pass_prefix (within (rest_count prefix)) s in
      if is_token_char c
      then passed
      else if starts_with (c ∷ s) prefix
      then String.◌++◌ redaction_marker found
      else c ∷ copied

  unfoldable pub redact_token_prefix : String → String
  unfolding pass_prefix
  redact_token_prefix input = pass_prefix copying input

abbrev pub ends_value : Char → Bool
ends_value c = is_whitespace c || is_char b',' c || is_char b';' c

module _ (marker : String) where
  abbrev pub finds : String → Bool
  finds s = starts_with (to_ascii_lowercase s) marker

  -- Within a marker, its characters are copied, and the value that follows it is not.
  unfoldable pub pass_marker : Mode → String → String
  unfolding is_whitespace starts_with to_ascii_lowercase count
  pass_marker copying [] = []
  pass_marker (within n) [] = redaction_marker
  pass_marker following [] = []
  pass_marker copying (c ∷ s) =
      let copied = pass_marker copying s in
      let found = pass_marker (within (rest_count marker)) s in
      if finds (c ∷ s) then c ∷ found else c ∷ copied
  pass_marker (within (suc n)) (c ∷ s) = c ∷ pass_marker (within n) s
  pass_marker (within zero) (c ∷ s) =
      let passed = pass_marker following s in
      let copied = pass_marker copying s in
      let found = pass_marker (within (rest_count marker)) s in
      String.◌++◌ redaction_marker
        (if ends_value c then (if finds (c ∷ s) then c ∷ found else c ∷ copied) else passed)
  pass_marker following (c ∷ s) =
      let passed = pass_marker following s in
      let copied = pass_marker copying s in
      let found = pass_marker (within (rest_count marker)) s in
      if ends_value c then (if finds (c ∷ s) then c ∷ found else c ∷ copied) else passed

  unfoldable pub redact_after_marker_case_insensitive : String → String
  unfolding pass_marker
  redact_after_marker_case_insensitive input = pass_marker copying input

abbrev pub prefixes : List String
prefixes =
    List.◌∷◌ "sk-"
      (List.◌∷◌ "ghp_" (List.◌∷◌ "github_pat_" (List.◌∷◌ "xoxb-" (List.◌∷◌ "xoxp-" List.[]))))

abbrev pub markers : List String
markers = List.◌∷◌ "token=" (
    List.◌∷◌ "token:" (
      List.◌∷◌ "password=" (
        List.◌∷◌ "password:" (
          List.◌∷◌ "secret=" (
            List.◌∷◌ "secret:" (
              List.◌∷◌ "api_key=" (
                List.◌∷◌ "api_key:" (
                  List.◌∷◌ "authorization="
                    (List.◌∷◌ "authorization:" (List.◌∷◌ "bearer " List.[]))))))))))

-- The two loops over the tables.
unfoldable pub redact_prefixes : List String → String → String
unfolding redact_token_prefix
redact_prefixes List.[] s = s
redact_prefixes (List.◌∷◌ p ps) s = redact_prefixes ps (redact_token_prefix p s)

unfoldable pub redact_markers : List String → String → String
unfolding redact_after_marker_case_insensitive
redact_markers List.[] s = s
redact_markers (List.◌∷◌ m ms) s = redact_markers ms (redact_after_marker_case_insensitive m s)

unfoldable pub redact_secret_like_text : String → String
unfolding redact_prefixes redact_markers
redact_secret_like_text input = redact_markers markers (redact_prefixes prefixes input)

-- `len_utf8`
unfoldable pub len_utf8 : Char → ℕ
len_utf8 c =
    let n = code c in
    if ltb n 0x80 then 1 else if ltb n 0x800 then 2 else if ltb n 0x10000 then 3 else 4

-- `len` of a text: its bytes.
unfoldable pub len : String → ℕ
unfolding len_utf8
len [] = 0
len (c ∷ s) = len_utf8 c + len s

-- `&input[..end]`, where `end` is the last boundary of a character up to `n`.
unfoldable pub take_bytes : ℕ → String → String
unfolding len_utf8
take_bytes n [] = []
take_bytes n (c ∷ s) =
    let rest = take_bytes (n - len_utf8 c) s in if leb (len_utf8 c) n then c ∷ rest else []

unfoldable pub truncate_utf8 : String → ℕ → String
unfolding len take_bytes
truncate_utf8 input max_bytes =
    if leb (len input) max_bytes
    then input
    else String.◌++◌ (take_bytes max_bytes input) truncation_marker

unfoldable pub sanitize_text : String → ℕ → String
unfolding strip_terminal_controls redact_secret_like_text truncate_utf8
sanitize_text input max_bytes =
    truncate_utf8 (redact_secret_like_text (strip_terminal_controls input)) max_bytes

redact_test :
    sanitize_text "key sk-abc.1, Token=xyz;next" 100 ≡ "key [redacted], Token=[redacted];next"
unfolding sanitize_text
redact_test = refl

truncate_test : sanitize_text "hello" 3 ≡ "hel[taskfence truncated]"
unfolding sanitize_text
truncate_test = refl
