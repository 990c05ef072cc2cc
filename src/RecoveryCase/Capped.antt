-- ===== src/RecoveryCase/Capped.antt =====
-- An execution keeps the books (recovery-case.service.ts, `executeRecovery`): no credential is charged
-- beyond the widest cap, and each charge and each recovery is reported.
use ax10m.Common.{ℕ, ◌≤◌, ◌<◌, ◌≡◌, refl, Bool, true, false, Option, arith}
use ax10m.Common.Action.{Triple, Triple-bind, Triple-pure, Triple-given, Keeps}
use ax10m.Canonical.{DeclineCode}
use ax10m.Guardrail.{
  ProposedActionKind, charge_retry, fresh_credential_charge, comms, unrecognized, CardNetwork, visa,
  mastercard, amex, discover, other, default_caps, GuardrailDecision, allow, suppress, evaluate,
  default_guardrail_policy,
}
use ax10m.Guardrail.Permitted.{Permitted, evaluate_iff}
use ax10m.Ledger.{case_recovered}
use ax10m.RecoveryCase.{map_card_network, Invoice, PaymentMethod, Host, entry_of, credential_key}
use ax10m.RecoveryCase.Credentials.{CredentialAttemptWindow}
use ax10m.RecoveryCase.Attempt.{attempt_recovery, recovered_detail, dispose}
use ax10m.RecoveryCase.Fresh.{ExecuteInput, attempts_so_far, proposal}
use ax10m.RecoveryCase.Execute.{execute_recovery}
use ax10m.RecoveryCase.Keeps.{note-Keeps}
use ax10m.RecoveryCase.Messages.{Stable}
use ax10m.RecoveryCase.Active.{
  Windowed, Windowed-Calm, Attempts, is_charge, execute_recovery-Triple,
}
use ax10m.RecoveryCase.Settle.{Steps, charge-Triple}
use ax10m.RecoveryCase.Books.{Books, Books-Calm, entered, counted}

-- No network allows more than 15 attempts.
default_caps-within : (n : CardNetwork) → (default_caps n).max_attempts_per_window ≤ 15
default_caps-within visa = omega arith
default_caps-within mastercard = omega arith
default_caps-within amex = omega arith
default_caps-within discover = omega arith
default_caps-within other = omega arith

module _ (h : Host) where
  Books-Stable : Stable h (Books h 0 0)
  Books-Stable = record {
    calm = Books-Calm h 0 0;
    fetches = λ s m b. b;
    lists = λ s c b. b;
    mail = λ s x b. b;
    keys = λ s x b. b;
  }

  module _ (invoice : Invoice) (m : PaymentMethod) (n k : ℕ) (low : k < 15) where
    charge-Steps :
        Steps h invoice m n
          (Windowed h (Books h 0 0) (credential_key invoice.id m) k)
          (Windowed h (Books h 0 0) (credential_key invoice.id m) k)
          (Books h 1 0)
          (Books h 0 1)
          (λ won. Books h 0 0)
    charge-Steps = record {
      before_calm = Windowed-Calm h (credential_key invoice.id m) k (Books-Calm h 0 0);
      counted_calm = Books-Calm h 1 0;
      reported_calm = Books-Calm h 0 1;
      after_calm = λ won. Books-Calm h 0 0;
      called_calm = Windowed-Calm h (credential_key invoice.id m) k (Books-Calm h 0 0);
      answers = λ s key r x e q. q;
      rejects = λ s key x e q. q;
      raises = λ s q. q;
      learns = λ won s x q. q;
      counts = λ s at q. counted (credential_key invoice.id m) at (omega (arith, q.1, low)) q.0;
      reports = λ s e t q.
          entered 1 0 0 1 e (ground (arith, t)) (ground (arith, t)) (ground (arith, t)) q;
      declines = λ s e t q.
          entered 1 0 0 0 e (ground (arith, t)) (ground (arith, t)) (ground (arith, t)) q;
      recovers = λ s at q.
          entered 0 1 0 0
            (entry_of h invoice.merchant_id case_recovered at (recovered_detail h invoice n)) refl
            refl refl q;
      idle = λ s q. q.0;
    }

  module _ (p : ExecuteInput) where
    -- The guardrail lets no charge through whose credential is at the widest cap.
    below_cap :
        (kind : ProposedActionKind) (code : DeclineCode) (m : PaymentMethod)
        (w : CredentialAttemptWindow) (minutes : Option ℕ) (hour : ℕ)
        → is_charge kind ≡ true
        → Permitted
            (proposal h kind code (attempts_so_far p) m w minutes hour)
            default_guardrail_policy
        → w.attempts_in_window < 15
    below_cap charge_retry code m w minutes hour c e =
        omega (arith, default_caps-within (map_card_network h m.brand), e.1.2.1.1)
    below_cap fresh_credential_charge code m w minutes hour c e =
        omega (arith, default_caps-within (map_card_network h m.brand), e.1.1.1)
    below_cap comms code m w minutes hour c e = absurd (cc)
    below_cap unrecognized code m w minutes hour c e = absurd (cc)

    dispose-Books :
        (d : GuardrailDecision) (m : PaymentMethod) (k : ℕ) (shadow : Bool)
        → (d ≡ allow → k < 15)
        → Triple
            (Windowed h (Books h 0 0) (credential_key p.invoice.id m) k)
            (dispose h d p.invoice m p.attempt_number p.now_iso shadow)
            (λ r. Books h 0 0)
            (Books h 0 0)
    dispose-Books (suppress reason) m k shadow low =
        Triple-given (λ s q. q.0)
          (Triple-bind _ _ (note-Keeps h (Books-Calm h 0 0) _ _ _ refl)
            (λ u. Triple-pure _ (λ s q. q)))
    dispose-Books allow m k true low =
        Triple-given (λ s q. q.0)
          (Triple-bind _ _ (note-Keeps h (Books-Calm h 0 0) _ _ _ refl)
            (λ u. Triple-pure _ (λ s q. q)))
    dispose-Books allow m k false low =
        charge-Triple h p.invoice m p.attempt_number
          (charge-Steps p.invoice m p.attempt_number k (low refl)) (Books h 0 0) (λ s q. q.0)
          p.now_iso

    Attempts-Books : Attempts h (Books h 0 0) (λ won. Books h 0 0) p
    unfolding attempt_recovery
    Attempts-Books kind code m w minutes hour shadow c =
        let proposed = proposal h kind code (attempts_so_far p) m w minutes hour in
        dispose-Books (evaluate proposed default_guardrail_policy) m w.attempts_in_window shadow
          (λ e.
            below_cap kind code m w minutes hour c
              ((evaluate_iff proposed default_guardrail_policy).0 e))

    pub execute-Books : Keeps (Books h 0 0) (execute_recovery h p)
    execute-Books =
        execute_recovery-Triple h p (Books h 0 0) (λ won. Books h 0 0) Books-Stable Attempts-Books
          (λ s q. q) (λ s q. q) (λ won. Books-Calm h 0 0)
