-- ===== src/State/Validate.antt =====
-- crates/taskfence-state/src/lib.rs: checks of texts and paths. `debug` is what `{:?}` prints for a text,
-- which the standard library takes from Unicode tables.
use task_fence.Prelude.{
  code, String, Bool, true, false, not, ◌||◌, [], ◌∷◌, any, eqb, ◌==◌, if◌then◌else◌,
}
use task_fence.Std.Text.{trim, is_empty, is_control, any_char}
use task_fence.Std.Format.{format}
use task_fence.Std.Path.{Component, parent_dir, components, is_absolute}
use task_fence.Core.Error.{Result, ok, err, state, ◌>>◌}
use task_fence.State.Types.{TeamTaskRecord}

unfoldable pub normalize_non_empty : String → String → Result String
normalize_non_empty field value =
    let normalized = trim value in
    if is_empty normalized
    then err (state (format (field ∷ " must not be empty" ∷ [])))
    else ok normalized

-- The test of `validate_task_id_component`.
abbrev pub is_unsafe_component : String → Bool
is_unsafe_component value =
    is_empty value
    || value == "."
    || value == ".."
    || any_char (λ c. eqb (code c) b'/') value
    || any_char (λ c. eqb (code c) b'\\') value
    || any_char is_control value

unfoldable pub validate_task_id_component : (String → String) → String → Result (Unit {0})
validate_task_id_component debug value =
    if is_unsafe_component value
    then err (state (format ("task id is not a safe artifact path component: " ∷ debug value ∷ [])))
    else ok tt

abbrev is_parent_dir : Component → Bool
is_parent_dir parent_dir = true
is_parent_dir _ = false

unfoldable pub path_contains_parent_dir : String → Bool
path_contains_parent_dir path = any is_parent_dir (components path)

unfoldable pub validate_team_task_record : (String → String) → TeamTaskRecord → Result (Unit {0})
validate_team_task_record debug r = do
  normalize_non_empty "organization" r.organization
  validate_task_id_component debug r.task_id
  if not (is_absolute r.evidence_dir) || path_contains_parent_dir r.evidence_dir
      then err (
          state (
            format
              ("team task evidence_dir must be absolute without '..': " ∷ r.evidence_dir ∷ [])))
      else ok tt
