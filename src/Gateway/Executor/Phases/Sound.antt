-- ===== src/Gateway/Executor/Phases/Sound.antt =====
-- The phases of a tool call, read from its audit events.
use task_fence.Prelude.{
  ◌≡◌, ◌≢◌, refl, sym, ap, ◌∙◌, ◌⊎◌, inl, inr, Somewhere, Somewhere-append, Preceded,
  Preceded-append, Option, some, List, [], ◌∷◌, ◌++◌,
}
use task_fence.Core.Action.{
  Action, tool_call, ActionDecision, allow, deny, ApprovalDecision, approved,
}
use task_fence.Core.Event.{AuditEvent, policy_decision, approval_resolved, tool_execution_started}

pub data Kind : Type 0 where
  starting authorising denying neutral : Kind

-- A decision to allow the tool call and an approval that was given authorise; a decision to deny anything
-- and an approval that was denied, timed out or is missing deny.
abbrev pub kind_of_decision : Action → ActionDecision → Kind
kind_of_decision action (deny rule reason) = denying
kind_of_decision (tool_call tool) (allow rule reason) = authorising
kind_of_decision action _ = neutral

abbrev pub kind_of_answer : Option ApprovalDecision → Kind
kind_of_answer (some approved) = authorising
kind_of_answer _ = denying

abbrev pub kind_of : AuditEvent → Kind
kind_of (policy_decision id at action decision) = kind_of_decision action decision
kind_of (approval_resolved r) = kind_of_answer r.decision
kind_of (tool_execution_started id at request) = starting
kind_of _ = neutral

-- A call may start only once it is authorised and while nothing was denied.
pub data Phase : Type 0 where
  fresh cleared refused violated : Phase

abbrev pub advance : Phase → Kind → Phase
advance p neutral = p
advance violated _ = violated
advance fresh starting = violated
advance cleared starting = cleared
advance refused starting = violated
advance fresh authorising = cleared
advance cleared authorising = cleared
advance refused authorising = refused
advance fresh denying = refused
advance cleared denying = refused
advance refused denying = refused

abbrev pub phase_from : Phase → List AuditEvent → Phase
phase_from p [] = p
phase_from p (e ∷ es) = phase_from (advance p (kind_of e)) es

abbrev pub phase : List AuditEvent → Phase
phase es = phase_from fresh es

pub phase_from-append :
    (p : Phase) (es : List AuditEvent) (e : AuditEvent)
    → phase_from p (es ++ e ∷ []) ≡ advance (phase_from p es) (kind_of e)
phase_from-append p [] e = refl
phase_from-append p (d ∷ es) e = phase_from-append (advance p (kind_of d)) es e

abbrev pub IsStart : AuditEvent → Type 0
IsStart e = kind_of e ≡ starting

start_clear : (p : Phase) → advance p starting ≢ violated → p ≡ cleared
start_clear fresh n = absurd (n refl)
start_clear cleared n = refl
start_clear refused n = absurd (n refl)
start_clear violated n = absurd (n refl)

violated_stays : (k : Kind) → advance violated k ≡ violated
violated_stays neutral = refl
violated_stays starting = refl
violated_stays authorising = refl
violated_stays denying = refl

cleared_by :
    (p : Phase) (k : Kind)
    → advance p k ≡ cleared
    → (p ≡ cleared) ⊎ ((p ≡ fresh) × (k ≡ authorising))
cleared_by p neutral h = inl h
cleared_by violated starting h = cc h
cleared_by violated authorising h = cc h
cleared_by violated denying h = cc h
cleared_by fresh starting h = cc h
cleared_by cleared starting h = inl refl
cleared_by refused starting h = cc h
cleared_by fresh authorising h = inr (refl, refl)
cleared_by cleared authorising h = inl refl
cleared_by refused authorising h = cc h
cleared_by fresh denying h = cc h
cleared_by cleared denying h = cc h
cleared_by refused denying h = cc h

module _ (auth : AuditEvent → Type 0) where
  -- A cleared log has an event that authorises, and every start comes after one.
  abbrev pub IsSound : List AuditEvent → Type 0
  IsSound es =
      (phase es ≡ cleared → Somewhere auth es) × (phase es ≢ violated → Preceded IsStart auth [] es)

  -- Only an event that clears a fresh log is asked for what it authorises.
  abbrev pub Clears : Phase → AuditEvent → Type 0
  Clears p e = p ≡ fresh → kind_of e ≡ authorising → auth e

  pub IsSound-append :
      (es : List AuditEvent) (e : AuditEvent)
      → IsSound es
      → Clears (phase es) e
      → IsSound (es ++ e ∷ [])
  IsSound-append es e (seen, ordered) new = (
    λ h. elim (cleared_by (phase es) (kind_of e) (sym (phase_from-append fresh es e) ∙ h)) [
      | inl before ↦ Somewhere-append auth es e (seen before)
      | inr now ↦ (es, e, [], refl, new now.0 now.1)
    ],
    λ n.
        Preceded-append IsStart auth [] es e
          (ordered (λ v. n (
            phase_from-append fresh es e
            ∙ (ap (λ p. advance p (kind_of e)) v ∙ violated_stays (kind_of e)))))
          (λ start. seen (
            start_clear (phase es) (λ v.
              n (phase_from-append fresh es e ∙ (ap (λ k. advance (phase es) k) start ∙ v))))),
  )
