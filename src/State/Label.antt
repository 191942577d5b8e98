-- ===== src/State/Label.antt =====
-- crates/taskfence-state/src/lib.rs: the labels of task statuses in stored team state.
use task_fence.Prelude.{
  ◌↔◌, ◌∙◌, ap, arith, eq_iff, Bool-cases, inl, inr, String, ◌≡◌, refl, [], ◌∷◌, ◌==◌,
  if◌then◌else◌,
}
use task_fence.Std.Format.{format}
use task_fence.Core.Error.{Result, ok, err, state}
use task_fence.Core.Task.{
  TaskStatus, created, validating, preparing, running, waiting_for_approval, stopping,
  collecting_artifacts, reporting, succeeded, failed, denied, timed_out, cancelled,
}

unfoldable pub task_status_label : TaskStatus → String
task_status_label created = "created"
task_status_label validating = "validating"
task_status_label preparing = "preparing"
task_status_label running = "running"
task_status_label waiting_for_approval = "waiting_for_approval"
task_status_label stopping = "stopping"
task_status_label collecting_artifacts = "collecting_artifacts"
task_status_label reporting = "reporting"
task_status_label succeeded = "succeeded"
task_status_label failed = "failed"
task_status_label denied = "denied"
task_status_label timed_out = "timed_out"
task_status_label cancelled = "cancelled"

unfoldable pub task_status_from_label : String → Result TaskStatus
task_status_from_label value =
    if value == "created"
    then ok created
    else if value == "validating"
    then ok validating
    else if value == "preparing"
    then ok preparing
    else if value == "running"
    then ok running
    else if value == "waiting_for_approval"
    then ok waiting_for_approval
    else if value == "stopping"
    then ok stopping
    else if value == "collecting_artifacts"
    then ok collecting_artifacts
    else if value == "reporting"
    then ok reporting
    else if value == "succeeded"
    then ok succeeded
    else if value == "failed"
    then ok failed
    else if value == "denied"
    then ok denied
    else if value == "timed_out"
    then ok timed_out
    else if value == "cancelled"
    then ok cancelled
    else err (state (format ("unknown task status label from team state: " ∷ value ∷ [])))

-- One test of the chain: a status that it gives, or that the rest gives, has the value as its label.
read_by :
    (value name : String) (read status : TaskStatus) (rest : Result TaskStatus)
    → name ≡ task_status_label read
    → (rest ≡ ok status → value ≡ task_status_label status)
    → (if value == name then ok read else rest) ≡ ok status
    → value ≡ task_status_label status
read_by value name read status rest e k h = elim (Bool-cases (value == name)) [
  | inl same ↦ (eq_iff value name).0 same ∙ (e ∙ ap task_status_label (ground (arith, same, h)))
  | inr other ↦ k (ground (arith, other, h))
]

label_of_read :
    (value : String) (status : TaskStatus)
    → task_status_from_label value ≡ ok status
    → value ≡ task_status_label status
unfolding task_status_label task_status_from_label
label_of_read value status = read_by value "created" created status _ refl (
    read_by value "validating" validating status _ refl (
      read_by value "preparing" preparing status _ refl (
        read_by value "running" running status _ refl (
          read_by value "waiting_for_approval" waiting_for_approval status _ refl (
            read_by value "stopping" stopping status _ refl (
              read_by value "collecting_artifacts" collecting_artifacts status _ refl (
                read_by value "reporting" reporting status _ refl (
                  read_by value "succeeded" succeeded status _ refl (
                    read_by value "failed" failed status _ refl (
                      read_by value "denied" denied status _ refl (
                        read_by value "timed_out" timed_out status _ refl
                          (read_by value "cancelled" cancelled status _ refl (λ h. cc h)))))))))))))

label_is_read :
    (status : TaskStatus) → task_status_from_label (task_status_label status) ≡ ok status
unfolding task_status_label task_status_from_label
label_is_read created = refl
label_is_read _ = refl

-- A status is read from a text exactly when the text is that status's label.
pub task_status_from_label-label :
    (value : String) (status : TaskStatus)
    → (task_status_from_label value ≡ ok status) ↔ (value ≡ task_status_label status)
task_status_from_label-label value status =
    (label_of_read value status, λ h. ap task_status_from_label h ∙ label_is_read status)
