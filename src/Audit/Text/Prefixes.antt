-- ===== src/Audit/Text/Prefixes.antt =====
-- What the pass over a prefix of tokens leaves.
use Prim.Native.String.{[], ◌∷◌}
use task_fence.Prelude.{
  zero, suc, Char, String, ◌≡◌, refl, ◌∙◌, true, false, Bool-cases, inl, inr, arith,
}
use task_fence.Std.Text.{starts_with, contains}
use task_fence.Std.Split.{all_chars}
use task_fence.Audit.Text.{
  redaction_marker, is_token_char, Mode, copying, within, following, rest_count, pass_prefix,
  redact_token_prefix,
}
use task_fence.Audit.Text.Foreign.{
  differs, not_bracket, contains-append, starts_bracket, marker_bracket,
}

-- What is copied starts with no more than the text did.
starts-pass_prefix :
    (p q s : String)
    → all_chars not_bracket q ≡ true
    → starts_with s q ≡ false
    → starts_with (pass_prefix p copying s) q ≡ false
unfolding pass_prefix starts_with all_chars
starts-pass_prefix p [] s h e = cc e
starts-pass_prefix p (d ∷ q) [] h e = refl
starts-pass_prefix p (d ∷ q) (c ∷ s) h e = elim (Bool-cases (starts_with (c ∷ s) p)) [
  | inl found ↦
      rw found
        (rw (marker_bracket (pass_prefix p (within (rest_count p)) s)) (starts_bracket d q _ h))
  | inr other ↦ rw other (ground (arith, h, e, starts-pass_prefix p q s))
]

module _ (p : String) (d : Char) (q : String) where
  -- Wherever the text starts with `d ∷ q`, it starts with the prefix.
  abbrev pub IsOnlyFound : String → Type 0
  IsOnlyFound [] = Unit {0}
  IsOnlyFound (c ∷ s) =
      ((starts_with (c ∷ s) p ≡ false) → starts_with (c ∷ s) (d ∷ q) ≡ false) × IsOnlyFound s

  module _ (foreign : all_chars (differs d) redaction_marker ≡ true)
      (h : all_chars not_bracket (d ∷ q) ≡ true) where
    contains-copying :
        (c : Char) (s : String)
        → ((starts_with (c ∷ s) p ≡ false) → starts_with (c ∷ s) (d ∷ q) ≡ false)
        → contains (pass_prefix p copying s) (d ∷ q) ≡ false
        → contains (pass_prefix p (within (rest_count p)) s) (d ∷ q) ≡ false
        → contains (pass_prefix p copying (c ∷ s)) (d ∷ q) ≡ false
    unfolding pass_prefix contains
    contains-copying c s only copied found = elim (Bool-cases (starts_with (c ∷ s) p)) [
      | inl hit ↦ rw hit (
          contains-append d q redaction_marker (pass_prefix p (within (rest_count p)) s) foreign
          ∙ found)
      | inr other ↦ rw other (
          ground (arith, copied, rw other at (starts-pass_prefix p (d ∷ q) (c ∷ s) h (only other))))
    ]

    contains-pass_prefix :
        (mode : Mode) (s : String) → IsOnlyFound s → contains (pass_prefix p mode s) (d ∷ q) ≡ false
    unfolding pass_prefix contains
    contains-pass_prefix mode [] k = refl
    contains-pass_prefix copying (c ∷ s) (only, k) =
        contains-copying c s only (contains-pass_prefix copying s k)
          (contains-pass_prefix (within (rest_count p)) s k)
    contains-pass_prefix (within (suc n)) (c ∷ s) (only, k) = contains-pass_prefix (within n) s k
    contains-pass_prefix (within zero) (c ∷ s) (only, k) = elim (Bool-cases (is_token_char c)) [
      | inl token ↦ rw token (contains-pass_prefix following s k)
      | inr other ↦ rw other (
          contains-copying c s only (contains-pass_prefix copying s k)
            (contains-pass_prefix (within (rest_count p)) s k))
    ]
    contains-pass_prefix following (c ∷ s) (only, k) = elim (Bool-cases (is_token_char c)) [
      | inl token ↦ rw token (contains-pass_prefix following s k)
      | inr other ↦ rw other (
          contains-copying c s only (contains-pass_prefix copying s k)
            (contains-pass_prefix (within (rest_count p)) s k))
    ]

    -- A text without `d ∷ q` has none after the pass.
    kept-IsOnlyFound : (s : String) → contains s (d ∷ q) ≡ false → IsOnlyFound s
    unfolding contains
    kept-IsOnlyFound [] e = tt
    kept-IsOnlyFound (c ∷ s) e = ((λ k. ground (arith, e)), kept-IsOnlyFound s (ground (arith, e)))

    pub contains-redact_token_prefix :
        (s : String)
        → contains s (d ∷ q) ≡ false
        → contains (redact_token_prefix p s) (d ∷ q) ≡ false
    unfolding redact_token_prefix
    contains-redact_token_prefix s e = contains-pass_prefix copying s (kept-IsOnlyFound s e)

-- A prefix that is redacted is in the text no more.
module _ (d : Char) (q : String) (foreign : all_chars (differs d) redaction_marker ≡ true)
    (h : all_chars not_bracket (d ∷ q) ≡ true) where
  own-IsOnlyFound : (s : String) → IsOnlyFound (d ∷ q) d q s
  own-IsOnlyFound [] = tt
  own-IsOnlyFound (c ∷ s) = ((λ k. k), own-IsOnlyFound s)

  pub contains-redact_own : (s : String) → contains (redact_token_prefix (d ∷ q) s) (d ∷ q) ≡ false
  unfolding redact_token_prefix
  contains-redact_own s = contains-pass_prefix (d ∷ q) d q foreign h copying s (own-IsOnlyFound s)
