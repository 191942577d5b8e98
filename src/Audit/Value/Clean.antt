-- ===== src/Audit/Value/Clean.antt =====
-- What a sanitised JSON value holds.
use task_fence.Prelude.{ℕ, ◌≡◌, refl, true, false, ◌⊎◌, inl, inr, Bool-cases, All}
use task_fence.Std.Text.{contains}
use task_fence.Audit.Text.{prefixes, redaction_marker}
use task_fence.Audit.Text.Tokens.{sanitize_text-All}
use task_fence.Audit.Value.{
  Value, null, boolean, number, string, array, object, Elements, no_elements, element, Map,
  no_entries, entry, is_secret_key, is_redacted_value_shape, redacted_value_marker, redacted,
  sanitize_json_value, sanitize_elements, sanitize_entries,
}

abbrev pub IsRedaction : Value → Type 0
IsRedaction value = (value ≡ string redaction_marker) ⊎ (value ≡ redacted_value_marker)

-- No text holds a prefix of a token, and the value of a secret key is a marker.
unfoldable mutual
  pub IsClean : Value → Type 0
  IsClean null = Unit {0}
  IsClean (boolean b) = Unit {0}
  IsClean (number n) = Unit {0}
  IsClean (string text) = All (λ prefix. contains text prefix ≡ false) prefixes
  IsClean (array elements) = AreCleanElements elements
  IsClean (object entries) = AreCleanEntries entries

  pub AreCleanElements : Elements → Type 0
  AreCleanElements no_elements = Unit {0}
  AreCleanElements (element value elements) = IsClean value × AreCleanElements elements

  pub AreCleanEntries : Map → Type 0
  AreCleanEntries no_entries = Unit {0}
  AreCleanEntries (entry key value entries) =
      (((is_secret_key key ≡ true) × IsRedaction value)
        ⊎ ((is_secret_key key ≡ false) × IsClean value))
      × AreCleanEntries entries

redacted-IsRedaction : (value : Value) → IsRedaction (redacted value)
unfolding redacted
redacted-IsRedaction value = elim (Bool-cases (is_redacted_value_shape value)) [
  | inl shaped ↦ rw shaped (inr refl)
  | inr other ↦ rw other (inl refl)
]

mutual
  unfolding IsClean sanitize_json_value

  sanitized-IsClean : (n : ℕ) (value : Value) → IsClean (sanitize_json_value n value)
  sanitized-IsClean n null = tt
  sanitized-IsClean n (boolean b) = tt
  sanitized-IsClean n (number m) = tt
  sanitized-IsClean n (string text) = sanitize_text-All text n
  sanitized-IsClean n (array elements) = elements-AreCleanElements n elements
  sanitized-IsClean n (object entries) = entries-AreCleanEntries n entries

  elements-AreCleanElements :
      (n : ℕ) (elements : Elements) → AreCleanElements (sanitize_elements n elements)
  elements-AreCleanElements n no_elements = tt
  elements-AreCleanElements n (element value elements) =
      (sanitized-IsClean n value, elements-AreCleanElements n elements)

  entries-AreCleanEntries : (n : ℕ) (entries : Map) → AreCleanEntries (sanitize_entries n entries)
  entries-AreCleanEntries n no_entries = tt
  entries-AreCleanEntries n (entry key value entries) = elim (Bool-cases (is_secret_key key)) [
    | inl secret ↦
        rw secret (inl (secret, redacted-IsRedaction value), entries-AreCleanEntries n entries)
    | inr plain ↦
        rw plain (inr (plain, sanitized-IsClean n value), entries-AreCleanEntries n entries)
  ]

pub sanitize_json_value-IsClean : (n : ℕ) (value : Value) → IsClean (sanitize_json_value n value)
sanitize_json_value-IsClean n value = sanitized-IsClean n value
