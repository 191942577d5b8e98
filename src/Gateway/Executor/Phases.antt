-- ===== src/Gateway/Executor/Phases.antt =====
-- What is asked of the parts of a gateway, and how its steps lead from phase to phase.
mod Sound
pub use Sound.*
use task_fence.Prelude.{◌≡◌, ◌≢◌, refl, sym, ap, ◌∙◌, ◌⊎◌, AllSome, List, [], ◌∷◌, ◌++◌}
use mathlib.Core.List.{append_assoc}
use task_fence.Core.Error.{Result, ok, err}
use task_fence.Core.Task.{ApprovalId, ResolvedTask}
use task_fence.Core.Action.{Action, ActionDecision, ToolAction, ToolExecutionContext}
use task_fence.Core.Event.{AuditEvent}
use task_fence.Core.Effect.{Effect, Ensures, Ensures-bind, proceed, ◌>>=◌}
use task_fence.Gateway.Secrets.{GatewaySecretBinding}
use task_fence.Gateway.Mediator.{ApprovalEngine}
use task_fence.Gateway.Executor.{GatewayExecutor, adapter_call}

module _ {W : Type 0} (log : W → List AuditEvent) where
  abbrev pub Silent : {A : Type 0} → Effect W A → Type 0
  Silent m = (w : W) → log (m w).1 ≡ log w

  abbrev pub appended : Result (Unit {0}) → List AuditEvent → AuditEvent → List AuditEvent
  appended (ok u) es e = es ++ e ∷ []
  appended (err f) es e = es

  -- A logger appends the event, or fails and appends nothing.
  abbrev pub Appends : (AuditEvent → Effect W (Unit {0})) → Type 0
  Appends record_ =
      (e : AuditEvent) (w : W) → log (record_ e w).1 ≡ appended (record_ e w).0 (log w) e

  pub record IsSilentEngine (a : ApprovalEngine W) : Type 0 where
    pub request : (t : ResolvedTask) (x : Action) (d : ActionDecision) → Silent (a.request t x d)
    pub wait : (id : ApprovalId) → Silent (a.wait id)

  -- The two audit loggers of a gateway append to the log, and nothing else writes to it.
  pub record IsGatewayLog (x : GatewayExecutor W) : Type 0 where
    pub mediator_audit : Appends x.mediator.record_audit
    pub executor_audit : Appends x.record_audit
    pub evaluate : (t : ResolvedTask) (a : Action) → Silent (x.mediator.evaluate t a)
    pub approval : AllSome IsSilentEngine x.mediator.approval
    pub registry : AllSome (λ contains. (a : ToolAction) → Silent (contains a)) x.mediator.registry
    pub now_utc : Silent x.mediator.now_utc
    pub broker :
        AllSome (λ b. (t : ResolvedTask) (name scope : _) → Silent (b t name scope)) x.secret_broker
    pub planned :
        (t : ResolvedTask) (a : ToolAction) (c : ToolExecutionContext)
        → Silent (adapter_call (x.adapter.planned_budget_usage t a c))
    pub execute :
        (t : ResolvedTask) (a : ToolAction) (c : ToolExecutionContext)
        (b : List GatewaySecretBinding)
        → Silent (adapter_call (x.adapter.execute_with_secrets t a c b))

  module _ (auth : AuditEvent → Type 0) (before : List AuditEvent) where
    -- The log has grown by events that lead to a phase in `Q`.
    abbrev pub Trace : (Phase → Type 0) → W → Type 0
    Trace Q w = (es : List AuditEvent) × (log w ≡ before ++ es) × IsSound auth es × Q (phase es)

    abbrev pub At : Phase → W → Type 0
    At p = Trace (λ q. q ≡ p)

    abbrev pub Safe : W → Type 0
    Safe = Trace (λ q. q ≢ violated)

    pub Safe-of_At : {p : Phase} (w : W) → p ≢ violated → At p w → Safe w
    Safe-of_At w n (es, e, sound, h) = (es, e, sound, λ k. n (sym h ∙ k))

    -- From `P` to `S` of the value, and to a safe log where the code fails.
    abbrev pub OnResult : {A : Type 0} → (A → W → Type 0) → Result A → W → Type 0
    OnResult S (ok a) w = S a w
    OnResult S (err e) w = Safe w

    abbrev pub Leads : {A : Type 0} → (W → Type 0) → Effect W A → (A → W → Type 0) → Type 0
    Leads P m S = Ensures P m (OnResult S)

    pub Leads-bind :
        {A B : Type 0} (P : W → Type 0) (R : A → W → Type 0) (S : B → W → Type 0) (m : Effect W A)
        (f : A → Effect W B)
        → Leads P m R
        → ((a : A) → Leads (R a) (f a) S)
        → Leads P (m >>= f) S
    Leads-bind P R S m f hm hf = Ensures-bind P (OnResult R) (OnResult S) m f hm hf (λ e w h. h)

    on_silent :
        {A : Type 0} (P : W → Type 0) (r : Result A) (w : W)
        → P w
        → (P w → Safe w)
        → OnResult (λ _. P) r w
    on_silent P (ok a) w h s = h
    on_silent P (err e) w h s = s h

    pub silent-At :
        {A : Type 0} (p : Phase) (m : Effect W A)
        → p ≢ violated
        → Silent m
        → Leads (At p) m (λ _. At p)
    silent-At p m n h w (es, e, sound, q) =
        on_silent (At p) (m w).0 (m w).1 (es, h w ∙ e, sound, q) (Safe-of_At (m w).1 n)

    bind_given :
        {A B : Type 0} (p : Phase) (S : B → W → Type 0) (f : A → Effect W B) (r : Result A) (w : W)
        → ((a : A) → r ≡ ok a → Leads (At p) (f a) S)
        → OnResult (λ _. At p) r w
        → OnResult S (proceed r f w).0 (proceed r f w).1
    unfolding proceed
    bind_given p S f (ok a) w k h = k a refl w h
    bind_given p S f (err e) w k h = h

    -- The rest is known to start from a value that the silent step gave.
    pub silent-bind :
        {A B : Type 0} (p : Phase) (S : B → W → Type 0) (m : Effect W A) (f : A → Effect W B)
        → p ≢ violated
        → Silent m
        → ((a : A) (v : W) → (m v).0 ≡ ok a → Leads (At p) (f a) S)
        → Leads (At p) (m >>= f) S
    unfolding ◌>>=◌
    silent-bind p S m f n s k w h =
        bind_given p S f (m w).0 (m w).1 (λ a e. k a w e) (silent-At p m n s w h)

    pub silent-Safe : {A : Type 0} (m : Effect W A) → Silent m → Leads Safe m (λ _. Safe)
    silent-Safe m h w (es, e, sound, q) =
        on_silent Safe (m w).0 (m w).1 (es, h w ∙ e, sound, q) (λ s. s)

    grow :
        (es : List AuditEvent) (e : AuditEvent) (w after : W)
        → log w ≡ before ++ es
        → log after ≡ log w ++ e ∷ []
        → log after ≡ before ++ (es ++ e ∷ [])
    grow es e w after old grown =
        grown ∙ (ap (λ l. l ++ e ∷ []) old ∙ append_assoc before es (e ∷ []))

    -- A logger advances the phase, where it succeeds.
    pub record-At :
        (p : Phase) (record_ : AuditEvent → Effect W (Unit {0})) (e : AuditEvent)
        → p ≢ violated
        → Appends record_
        → Clears auth p e
        → Leads (At p) (record_ e) (λ _. At (advance p (kind_of e)))
    record-At p record_ e n h new w (es, old, sound, q) =
        moved (record_ e w).0 (record_ e w).1 (h e w)
      where
        moved :
            (r : Result (Unit {0})) (after : W)
            → log after ≡ appended r (log w) e
            → OnResult (λ _. At (advance p (kind_of e))) r after
        moved (ok u) after grown = (
          es ++ e ∷ [],
          grow es e w after old grown,
          IsSound-append auth es e sound (λ f. new (sym q ∙ f)),
          phase_from-append fresh es e ∙ ap (λ k. advance k (kind_of e)) q,
        )
        moved (err f) after grown = Safe-of_At after n (es, grown ∙ old, sound, q)

    pub stays_safe : (p : Phase) (k : Kind) → p ≢ violated → k ≢ starting → advance p k ≢ violated
    stays_safe p neutral h n = h
    stays_safe p starting h n = absurd (n refl)
    stays_safe violated k h n = absurd (h refl)
    stays_safe fresh authorising h n = λ e. cc e
    stays_safe cleared authorising h n = λ e. cc e
    stays_safe refused authorising h n = λ e. cc e
    stays_safe fresh denying h n = λ e. cc e
    stays_safe cleared denying h n = λ e. cc e
    stays_safe refused denying h n = λ e. cc e

    pub record-Safe :
        (record_ : AuditEvent → Effect W (Unit {0})) (e : AuditEvent)
        → kind_of e ≢ starting
        → kind_of e ≢ authorising
        → Appends record_
        → Leads Safe (record_ e) (λ _. Safe)
    record-Safe record_ e n m h w (es, old, sound, q) =
        moved (record_ e w).0 (record_ e w).1 (h e w)
      where
        moved :
            (r : Result (Unit {0})) (after : W)
            → log after ≡ appended r (log w) e
            → OnResult (λ _. Safe) r after
        moved (ok u) after grown = (
          es ++ e ∷ [],
          grow es e w after old grown,
          IsSound-append auth es e sound (λ f k. absurd (m k)),
          λ k. stays_safe (phase es) (kind_of e) q n (sym (phase_from-append fresh es e) ∙ k),
        )
        moved (err f) after grown = (es, grown ∙ old, sound, q)
