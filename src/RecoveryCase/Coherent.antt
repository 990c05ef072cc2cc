-- ===== src/RecoveryCase/Coherent.antt =====
-- A success is reported only with an attempt (recovery-case.service.ts, `executeRecovery`).
use ax10m.Common.{String, ℕ, ◌≡◌, refl, Bool, true, false, Option}
use ax10m.Common.Action.{
  ◌>>=◌, Triple-modify, modify, pure, Triple, Triple-bind, Triple-pure, Ends-either,
}
use ax10m.Canonical.{DeclineCode}
use ax10m.Guardrail.{GuardrailDecision, allow, suppress}
use ax10m.Scheduler.{RecoveryDecision, RecoveryActionKind, ChargeOutcome, retry, card_update_comms}
use ax10m.RecoveryCase.{Invoice, PaymentMethod, ChargeResult, Host, CaseState}
use ax10m.RecoveryCase.Attempt.{
  Service, RecoveryActionOutcome, attempted, AttemptResult, report, settle, charge, dispose,
  attempt_recovery,
}
use ax10m.RecoveryCase.Plan.{Features}
use ax10m.RecoveryCase.Fresh.{ExecuteInput, has_succeeded}
use ax10m.Scheduler
use ax10m.RecoveryCase.Credentials.{CredentialAttemptWindow}
use ax10m.RecoveryCase.Execute.{
  learn_online, ExecuteOutcome, give_up, recovered_or_give_up, update_credential, retry_credential,
  carry_out, execute_recovery,
}

abbrev pub IsCoherent : RecoveryActionOutcome → Option ChargeOutcome → Type 0
IsCoherent action outcome = has_succeeded outcome ≡ true → action ≡ attempted

module _ (h : Host) where
  -- What is returned satisfies `R`, whatever the states.
  abbrev Returns : {A : Type 0} → (A → Type 0) → Service h A → Type 0
  Returns R m = Triple (λ s. Unit {0}) m (λ a s. R a) (λ s. Unit {0})

  whatever : {A : Type 0} (m : Service h A) → Returns (λ a. Unit {0}) m
  whatever m = record { run = λ s u. Ends-either _ _ (m s).0 (m s).1 (λ a. tt) tt }

  -- Only the last step decides.
  last :
      {A B : Type 0} (R : B → Type 0) (m : Service h A) (f : A → Service h B)
      → ((a : A) → Returns R (f a))
      → Returns R (m >>= f)
  last R m f k = Triple-bind _ _ (whatever m) k

  gives : {A : Type 0} (R : A → Type 0) (a : A) → R a → Returns R (pure a)
  gives R a r = Triple-pure a (λ s u. r)

  abbrev Attempted : AttemptResult → Type 0
  Attempted r = IsCoherent r.result r.outcome

  report-Attempted :
      (invoice : Invoice) (m : PaymentMethod) (n : ℕ) (key : String) (r : ChargeResult)
      → Returns Attempted (report h invoice m n key r)
  unfolding report
  report-Attempted invoice m n key r =
      last Attempted _ _
        (λ a. last Attempted _ _ (λ b. last Attempted _ _ (λ c. gives Attempted _ (λ e. refl))))

  charge-Attempted :
      (invoice : Invoice) (m : PaymentMethod) (n : ℕ) (at : Option ℕ)
      → Returns Attempted (charge h invoice m n at)
  unfolding charge settle
  charge-Attempted invoice m n at = last Attempted _ _ (λ a.
      last Attempted _ _ (λ r.
        last Attempted _ _ (λ now. last Attempted _ _ (λ b. report-Attempted invoice m n _ r))))

  dispose-Attempted :
      (d : GuardrailDecision) (invoice : Invoice) (m : PaymentMethod) (n : ℕ) (at : Option ℕ)
      (shadow : Bool)
      → Returns Attempted (dispose h d invoice m n at shadow)
  dispose-Attempted (suppress reason) invoice m n at shadow =
      last Attempted _ _ (λ a. gives Attempted _ (λ e. absurd (cc)))
  dispose-Attempted allow invoice m n at true =
      last Attempted _ _ (λ a. gives Attempted _ (λ e. absurd (cc)))
  dispose-Attempted allow invoice m n at false = charge-Attempted invoice m n at

  abbrev Executed : ExecuteOutcome → Type 0
  Executed o = IsCoherent o.action o.outcome

  give_up-Executed :
      (p : ExecuteInput) (code : DeclineCode) (d : RecoveryDecision) (b : Bool)
      → Returns Executed (give_up h p code d b)
  unfolding give_up
  give_up-Executed p code d b =
      last Executed _ _
        (λ a. last Executed _ _ (λ c. last Executed _ _ (λ u. gives Executed _ (λ e. absurd (cc)))))

  finish-Executed :
      (done : Bool) (p : ExecuteInput) (code : DeclineCode) (d : RecoveryDecision)
      → Returns Executed (recovered_or_give_up h done p code d)
  finish-Executed true p code d = gives Executed _ (λ e. refl)
  finish-Executed false p code d = give_up-Executed p code d true

  carry_out-Executed :
      (k : RecoveryActionKind) (p : ExecuteInput) (f : Features h) (d : RecoveryDecision)
      (w : CredentialAttemptWindow)
      → Returns Executed (carry_out h k p f d w)
  unfolding retry_credential update_credential attempt_recovery
  carry_out-Executed retry p f d w = last Executed _ _ (λ hour.
      Triple-bind _ _ (dispose-Attempted _ p.invoice p.method p.attempt_number p.now_iso p.shadow)
        (λ r. Triple-bind _ _ (kept r) (λ u. Triple-pure _ (λ s c. c))))
    where
      kept :
          (r : AttemptResult)
          → Triple
              (λ (s : CaseState h). Attempted r)
              (modify (learn_online h f d r.outcome p.invoice.amount))
              (λ u s. Attempted r)
              (λ s. Unit {0})
      kept r = Triple-modify _ (λ s c. c)
  carry_out-Executed card_update_comms p f d w =
      last Executed _ _ (λ done. finish-Executed done p f.decline_code d)
  carry_out-Executed Scheduler.suppress p f d w = give_up-Executed p f.decline_code d false

  pub execute_recovery-IsCoherent :
      (p : ExecuteInput)
      → Triple
          (λ (s : CaseState h). Unit {0})
          (execute_recovery h p)
          (λ o s. IsCoherent o.action o.outcome)
          (λ s. Unit {0})
  unfolding execute_recovery
  execute_recovery-IsCoherent p = last Executed _ _ (λ f.
      last Executed _ _ (λ w.
        last Executed _ _ (λ d. last Executed _ _ (λ u. carry_out-Executed d.action p f d w))))
