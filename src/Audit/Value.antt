-- ===== src/Audit/Value.antt =====
-- crates/taskfence-audit/src/lib.rs: `AuditSanitizer`, on JSON values. A number is its text.
pub mod Clean
use task_fence.Prelude.{ℕ, ◌*◌, String, ◌≡◌, refl, Bool, true, false, ◌||◌, ◌==◌, if◌then◌else◌}
use task_fence.Std.Text.{to_ascii_lowercase, contains}
use task_fence.Audit.Text.{redaction_marker, sanitize_text}

-- `serde_json::Value`, with its arrays and its objects in the order of their keys.
mutual
  pub data Map : Type 0 where
    no_entries : Map
    entry : String → Value → Map → Map

  pub data Elements : Type 0 where
    no_elements : Elements
    element : Value → Elements → Elements

  pub data Value : Type 0 where
    null : Value
    boolean : Bool → Value
    number string : String → Value
    array : Elements → Value
    object : Map → Value

unfoldable pub is_secret_name : String → Bool
unfolding contains
is_secret_name key =
    contains key "secret"
    || contains key "token"
    || contains key "password"
    || contains key "api_key"
    || contains key "apikey"
    || contains key "authorization"

unfoldable pub is_secret_key : String → Bool
unfolding is_secret_name to_ascii_lowercase
is_secret_key key = is_secret_name (to_ascii_lowercase key)

unfoldable pub is_redacted_value_shape : Value → Bool
is_redacted_value_shape (object (entry key value no_entries)) = key == "Plain" || key == "Redacted"
is_redacted_value_shape value = false

unfoldable pub redacted_value_marker : Value
redacted_value_marker = object (
    entry "Redacted"
      (object (entry "reason" (string "audit sanitizer redacted secret-like field") no_entries))
      no_entries)

-- What stands for the value of a secret key.
unfoldable pub redacted : Value → Value
unfolding is_redacted_value_shape redacted_value_marker
redacted value =
    if is_redacted_value_shape value then redacted_value_marker else string redaction_marker

abbrev pub default_max_string_bytes : ℕ
default_max_string_bytes = 64 * 1024

unfoldable mutual
  unfolding is_secret_key redacted sanitize_text

  pub sanitize_json_value : ℕ → Value → Value
  sanitize_json_value max_string_bytes (object entries) =
      object (sanitize_entries max_string_bytes entries)
  sanitize_json_value max_string_bytes (array elements) =
      array (sanitize_elements max_string_bytes elements)
  sanitize_json_value max_string_bytes (string text) = string (sanitize_text text max_string_bytes)
  sanitize_json_value max_string_bytes null = null
  sanitize_json_value max_string_bytes (boolean b) = boolean b
  sanitize_json_value max_string_bytes (number n) = number n

  pub sanitize_elements : ℕ → Elements → Elements
  sanitize_elements max_string_bytes no_elements = no_elements
  sanitize_elements max_string_bytes (element value elements) =
      element (sanitize_json_value max_string_bytes value)
        (sanitize_elements max_string_bytes elements)

  pub sanitize_entries : ℕ → Map → Map
  sanitize_entries max_string_bytes no_entries = no_entries
  sanitize_entries max_string_bytes (entry key value entries) =
      let rest = sanitize_entries max_string_bytes entries in
      let clean = sanitize_json_value max_string_bytes value in
      if is_secret_key key then entry key (redacted value) rest else entry key clean rest

sanitize_test :
    sanitize_json_value 100
      (object (entry "api_key" (string "x") (entry "text" (string "sk-1 y") no_entries)))
    ≡ object
        (entry "api_key" (string "[redacted]") (entry "text" (string "[redacted] y") no_entries))
unfolding sanitize_json_value
sanitize_test = refl
