-- ===== src/Audit/Text/Tokens.antt =====
-- What is left of the tokens in a text that is sanitised.
use Prim.Native.String.{[], ◌∷◌}
use task_fence.Prelude.{ℕ, String, ◌≡◌, refl, false, List, All}
use task_fence.Std.Text.{contains, starts_with}
use task_fence.Std.Split.{all_chars}
use task_fence.Audit.Text.{
  prefixes, markers, redact_token_prefix, redact_after_marker_case_insensitive, redact_prefixes,
  redact_markers, redact_secret_like_text, strip_terminal_controls, truncate_utf8, sanitize_text,
}
use task_fence.Audit.Text.Foreign.{IsForeign}
use task_fence.Audit.Text.Prefixes.{contains-redact_token_prefix, contains-redact_own}
use task_fence.Audit.Text.Markers.{contains-redact_after_marker, contains-truncate_utf8}

module _ (q : String) where
  kept-redact_prefixes :
      (ps : List String) (s : String)
      → IsForeign q
      → contains s q ≡ false
      → contains (redact_prefixes ps s) q ≡ false
  unfolding redact_prefixes
  kept-redact_prefixes List.[] s f e = e
  kept-redact_prefixes (List.◌∷◌ p ps) s f e =
      kept-redact_prefixes ps (redact_token_prefix p s) f (kept q p s f e)
    where
      kept :
          (q p s : String)
          → IsForeign q
          → contains s q ≡ false
          → contains (redact_token_prefix p s) q ≡ false
      kept [] p s f e = cc f
      kept (d ∷ q) p s (foreign, h, cut) e = contains-redact_token_prefix p d q foreign h s e

  kept-redact_markers :
      (ms : List String) (s : String)
      → IsForeign q
      → contains s q ≡ false
      → contains (redact_markers ms s) q ≡ false
  unfolding redact_markers
  kept-redact_markers List.[] s f e = e
  kept-redact_markers (List.◌∷◌ m ms) s f e =
      kept-redact_markers ms (redact_after_marker_case_insensitive m s) f (kept q m s f e)
    where
      kept :
          (q m s : String)
          → IsForeign q
          → contains s q ≡ false
          → contains (redact_after_marker_case_insensitive m s) q ≡ false
      kept [] m s f e = cc f
      kept (d ∷ q) m s (foreign, h, cut) e = contains-redact_after_marker m d q foreign h s e

own-redact_prefixes :
    (q : String) (ps : List String) (s : String)
    → IsForeign q
    → contains (redact_prefixes (List.◌∷◌ q ps) s) q ≡ false
unfolding redact_prefixes
own-redact_prefixes [] ps s f = cc f
own-redact_prefixes (d ∷ q) ps s (foreign, h, cut) =
    kept-redact_prefixes (d ∷ q) ps (redact_token_prefix (d ∷ q) s) (foreign, h, cut)
      (contains-redact_own d q foreign h s)

redact_prefixes-All :
    (ps : List String) (s : String)
    → All IsForeign ps
    → All (λ q. contains (redact_prefixes ps s) q ≡ false) ps
unfolding redact_prefixes
redact_prefixes-All List.[] s f = tt
redact_prefixes-All (List.◌∷◌ p ps) s (f, fs) =
    (own-redact_prefixes p ps s f, redact_prefixes-All ps (redact_token_prefix p s) fs)

sanitized :
    (q s : String) (n : ℕ)
    → IsForeign q
    → contains (redact_prefixes prefixes s) q ≡ false
    → contains (truncate_utf8 (redact_secret_like_text s) n) q ≡ false
unfolding redact_secret_like_text
sanitized [] s n f e = cc f
sanitized (d ∷ q) s n (foreign, h, cut) e =
    contains-truncate_utf8 d q h cut (redact_secret_like_text s) n
      (kept-redact_markers (d ∷ q) markers (redact_prefixes prefixes s) (foreign, h, cut) e)

sanitized-All :
    (ps : List String) (s : String) (n : ℕ)
    → All IsForeign ps
    → All (λ q. contains (redact_prefixes prefixes s) q ≡ false) ps
    → All (λ q. contains (truncate_utf8 (redact_secret_like_text s) n) q ≡ false) ps
sanitized-All List.[] s n f e = tt
sanitized-All (List.◌∷◌ p ps) s n (f, fs) (e, es) =
    (sanitized p s n f e, sanitized-All ps s n fs es)

prefixes-IsForeign : All IsForeign prefixes
unfolding all_chars contains starts_with
prefixes-IsForeign = (
  (refl, refl, refl),
  ((refl, refl, refl), ((refl, refl, refl), ((refl, refl, refl), ((refl, refl, refl), tt)))),
)

-- A text that is sanitised contains none of `sk-`, `ghp_`, `github_pat_`, `xoxb-` and `xoxp-`, whatever the
-- text was and wherever it is cut: no pass over the text puts such a prefix of a token together anew.
pub sanitize_text-All :
    (input : String) (max_bytes : ℕ)
    → All (λ prefix. contains (sanitize_text input max_bytes) prefix ≡ false) prefixes
unfolding sanitize_text
sanitize_text-All input max_bytes =
    sanitized-All prefixes (strip_terminal_controls input) max_bytes prefixes-IsForeign
      (redact_prefixes-All prefixes (strip_terminal_controls input) prefixes-IsForeign)
