-- ===== src/Core/Validation/Laws.antt =====
-- What a validation says of the decision of policy.
use task_fence.Prelude.{◌≡◌, refl, sym, ap, subst, ◌∙◌, Bool, true, false, arith}
use task_fence.Core.Error.{ok}
use task_fence.Core.Task.{ResolvedTask}
use task_fence.Core.Action.{command, ActionDecision, allow, require_approval, deny}
use task_fence.Core.Event.{AgentInvocation, TaskValidation}
use task_fence.Core.Effect.{bind-eq-ok, ◌>>=◌, proceed, pure, raise}
use task_fence.Core.Orchestrator.Calls.{Orchestrator, command_action_from_invocation}
use task_fence.Core.Validation.{prepare_validated, check_decision, validate_task_for_run}

abbrev pub is_denied : ActionDecision → Bool
is_denied (deny rule reason) = true
is_denied _ = false

module _ {W : Type 0} (o : Orchestrator W) (t : ResolvedTask) where
  -- The outcome of a validation, from an invocation and a decision on its command.
  abbrev Agrees : AgentInvocation → ActionDecision → TaskValidation → Type 0
  Agrees i d v =
      (is_denied d ≡ false)
      × (v.invocation ≡ i)
      × (v.command_decision ≡ d)
      × (v.command_action ≡ command_action_from_invocation i)
      × (v.task_id ≡ t.id)

  prepared-Agrees :
      (i : AgentInvocation) (d : ActionDecision) (w : W) (v : TaskValidation)
      → is_denied d ≡ false
      → (prepare_validated o t i d w).0 ≡ ok v
      → Agrees i d v
  unfolding prepare_validated ◌>>=◌ proceed pure
  prepared-Agrees i d w v n e = ground (arith, n)

  check-Agrees :
      (i : AgentInvocation) (d : ActionDecision) (w : W) (v : TaskValidation)
      → (check_decision o t i d w).0 ≡ ok v
      → Agrees i d v
  unfolding check_decision raise
  check-Agrees i (deny rule reason) w v e = cc e
  check-Agrees i (allow rule reason) w v e = prepared-Agrees i (allow rule reason) w v refl e
  check-Agrees i (require_approval kind rule reason risk) w v e =
      prepared-Agrees i (require_approval kind rule reason risk) w v refl e

-- A task that is valid has been given an invocation by the adapter and a decision that is no denial by
-- policy on the command of that invocation, and both, with the command and the id of the task, are what
-- the validation holds.
pub validate_task_for_run-valid :
    {W : Type 0} (o : Orchestrator W) (t : ResolvedTask) (w : W) (v : TaskValidation)
    → (validate_task_for_run o t w).0 ≡ ok v
    → ((o.build_invocation t w).0 ≡ ok v.invocation)
      × ((o.evaluate t (command v.command_action) (o.build_invocation t w).1).0
          ≡ ok v.command_decision)
      × (v.command_action ≡ command_action_from_invocation v.invocation)
      × (is_denied v.command_decision ≡ false)
      × (v.task_id ≡ t.id)
unfolding validate_task_for_run
validate_task_for_run-valid o t w v e =
    let (i, built, e1, s1) = bind-eq-ok _ _ w e in
    let (d, decided, e2, s2) = bind-eq-ok _ _ _ e1 in
    let (allowed, same_invocation, same_decision, same_command, same_id) =
      check-Agrees o t i d _ v e2 in
    (
      subst (λ x. (o.build_invocation t w).0 ≡ ok x) (sym same_invocation) built,
      subst (λ c. (o.evaluate t (command c) (o.build_invocation t w).1).0 ≡ ok v.command_decision)
          (sym same_command)
          (subst
            (λ x.
              (o.evaluate t (command (command_action_from_invocation i))
                (o.build_invocation t w).1).0
              ≡ ok x)
            (sym same_decision) decided),
      same_command ∙ ap command_action_from_invocation (sym same_invocation),
      subst (λ x. is_denied x ≡ false) (sym same_decision) allowed,
      same_id,
    )
