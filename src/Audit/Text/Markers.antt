-- ===== src/Audit/Text/Markers.antt =====
-- What the pass over the values that follow a marker leaves, and what a truncation does.
use Prim.Native.String.{[], ◌∷◌}
use Prim.Native.String
use Prim.Native.String.append
use task_fence.Prelude.{
  ℕ, zero, suc, ◌-◌, Char, String, ◌≡◌, refl, sym, ap, ◌∙◌, true, false, Bool-cases, inl, inr,
  arith, leb,
}
use text.Mathlib.TextLemmas.{append-nil}
use task_fence.Std.Text.{starts_with, contains}
use task_fence.Std.Split.{all_chars}
use task_fence.Audit.Text.{
  redaction_marker, truncation_marker, Mode, copying, within, following, rest_count, ends_value,
  finds, pass_marker, redact_after_marker_case_insensitive, len, len_utf8, take_bytes,
  truncate_utf8,
}
use task_fence.Audit.Text.Foreign.{
  differs, not_bracket, contains-append, starts_bracket, marker_bracket,
}

-- What is copied starts with no more than the text did.
module _ (m : String) where
  mutual
    unfolding pass_marker starts_with all_chars

    starts-copying :
        (q s : String)
        → all_chars not_bracket q ≡ true
        → starts_with s q ≡ false
        → starts_with (pass_marker m copying s) q ≡ false
    starts-copying [] s h e = cc e
    starts-copying (d ∷ q) [] h e = refl
    starts-copying (d ∷ q) (c ∷ s) h e = elim (Bool-cases (finds m (c ∷ s))) [
      | inl found ↦ rw found (ground (arith, h, e, starts-within q s (rest_count m)))
      | inr other ↦ rw other (ground (arith, h, e, starts-copying q s))
    ]

    starts-within :
        (q s : String) (n : ℕ)
        → all_chars not_bracket q ≡ true
        → starts_with s q ≡ false
        → starts_with (pass_marker m (within n) s) q ≡ false
    starts-within [] s n h e = cc e
    starts-within (d ∷ q) [] n h e = starts_bracket d q "redacted]" h
    starts-within (d ∷ q) (c ∷ s) (suc n) h e = ground (arith, h, e, starts-within q s n)
    starts-within (d ∷ q) (c ∷ s) zero h e = rw (marker_bracket _) (starts_bracket d q _ h)

module _ (m : String) (d : Char) (q : String)
    (foreign : all_chars (differs d) redaction_marker ≡ true)
    (h : all_chars not_bracket (d ∷ q) ≡ true) where
  contains-marker : contains redaction_marker (d ∷ q) ≡ false
  unfolding contains starts_with
  contains-marker =
      ap (λ s. contains s (d ∷ q)) (sym (append-nil redaction_marker))
      ∙ contains-append d q redaction_marker [] foreign

  contains-copying :
      (c : Char) (s : String)
      → contains (c ∷ s) (d ∷ q) ≡ false
      → contains (pass_marker m copying s) (d ∷ q) ≡ false
      → contains (pass_marker m (within (rest_count m)) s) (d ∷ q) ≡ false
      → contains (pass_marker m copying (c ∷ s)) (d ∷ q) ≡ false
  unfolding pass_marker contains
  contains-copying c s e copied found = elim (Bool-cases (finds m (c ∷ s))) [
    | inl hit ↦
        rw hit (
          ground (arith, found, rw hit at (starts-copying m (d ∷ q) (c ∷ s) h (ground (arith, e)))))
    | inr other ↦ rw other (
        ground
          (arith, copied, rw other at (starts-copying m (d ∷ q) (c ∷ s) h (ground (arith, e)))))
  ]

  contains-pass_marker :
      (mode : Mode) (s : String)
      → contains s (d ∷ q) ≡ false
      → contains (pass_marker m mode s) (d ∷ q) ≡ false
  unfolding pass_marker contains
  contains-pass_marker copying [] e = refl
  contains-pass_marker (within n) [] e = contains-marker
  contains-pass_marker following [] e = refl
  contains-pass_marker copying (c ∷ s) e =
      contains-copying c s e (contains-pass_marker copying s (ground (arith, e)))
        (contains-pass_marker (within (rest_count m)) s (ground (arith, e)))
  contains-pass_marker (within (suc n)) (c ∷ s) e = ground (
    arith,
    contains-pass_marker (within n) s (ground (arith, e)),
    starts-within m (d ∷ q) (c ∷ s) (suc n) h (ground (arith, e)),
  )
  contains-pass_marker (within zero) (c ∷ s) e =
      contains-append d q redaction_marker _ foreign ∙ (elim (Bool-cases (ends_value c)) [
        | inl ends ↦ rw ends (
            contains-copying c s e (contains-pass_marker copying s (ground (arith, e)))
              (contains-pass_marker (within (rest_count m)) s (ground (arith, e))))
        | inr value ↦ rw value (contains-pass_marker following s (ground (arith, e)))
      ])
  contains-pass_marker following (c ∷ s) e = elim (Bool-cases (ends_value c)) [
    | inl ends ↦ rw ends (
        contains-copying c s e (contains-pass_marker copying s (ground (arith, e)))
          (contains-pass_marker (within (rest_count m)) s (ground (arith, e))))
    | inr value ↦ rw value (contains-pass_marker following s (ground (arith, e)))
  ]

  pub contains-redact_after_marker :
      (s : String)
      → contains s (d ∷ q) ≡ false
      → contains (redact_after_marker_case_insensitive m s) (d ∷ q) ≡ false
  unfolding redact_after_marker_case_insensitive
  contains-redact_after_marker s e = contains-pass_marker copying s e

-- What is cut starts with no more than the text did.
starts-cut :
    (q s : String) (n : ℕ)
    → all_chars not_bracket q ≡ true
    → starts_with s q ≡ false
    → starts_with (String.◌++◌ (take_bytes n s) truncation_marker) q ≡ false
unfolding take_bytes starts_with all_chars
starts-cut [] s n h e = cc e
starts-cut (d ∷ q) [] n h e = starts_bracket d q "taskfence truncated]" h
starts-cut (d ∷ q) (c ∷ s) n h e = elim (Bool-cases (leb (len_utf8 c) n)) [
  | inl fits ↦ rw fits (rw append.cons (ground (arith, h, e, starts-cut q s (n - len_utf8 c))))
  | inr long ↦ rw long (starts_bracket d q "taskfence truncated]" h)
]

-- A truncated text has no more in it.
module _ (d : Char) (q : String) (h : all_chars not_bracket (d ∷ q) ≡ true)
    (marked : contains truncation_marker (d ∷ q) ≡ false) where
  contains-cut :
      (s : String) (n : ℕ)
      → contains s (d ∷ q) ≡ false
      → contains (String.◌++◌ (take_bytes n s) truncation_marker) (d ∷ q) ≡ false
  unfolding take_bytes contains
  contains-cut [] n e = marked
  contains-cut (c ∷ s) n e = elim (Bool-cases (leb (len_utf8 c) n)) [
    | inl fits ↦ rw fits (
        rw append.cons (
          ground (
            arith,
            contains-cut s (n - len_utf8 c) (ground (arith, e)),
            rw append.cons at (rw fits at (starts-cut (d ∷ q) (c ∷ s) n h (ground (arith, e)))),
          )))
    | inr long ↦ rw long marked
  ]

  pub contains-truncate_utf8 :
      (s : String) (n : ℕ)
      → contains s (d ∷ q) ≡ false
      → contains (truncate_utf8 s n) (d ∷ q) ≡ false
  unfolding truncate_utf8
  contains-truncate_utf8 s n e = elim (Bool-cases (leb (len s) n)) [
    | inl fits ↦ rw fits e
    | inr long ↦ rw long (contains-cut s n e)
  ]
