-- ===== src/RecoveryCase/Shadow.antt =====
-- In shadow the service only takes notes (recovery-case.service.ts, `executeRecovery`).
use ax10m.Common.{
  ℕ, ◌≡◌, refl, ◌∙◌, Bool, true, false, not, String, Option, none, some, List, [], ◌∷◌, ◌++◌, ap,
  count_if, count_if-snoc, arith,
}
use ax10m.Common.Dict.{Dict}
use ax10m.Common.Action.{
  Keeps, Keeps-bind, Keeps-pure, Triple-bind-pure, Triple-bind, Triple, Triple-pure, Triple-given,
  Keeps-gets,
}
use ax10m.Canonical.{DeclineCode}
use ax10m.Guardrail.{GuardrailDecision, allow}
use ax10m.BillingRun.{BillingLedgerEntry}
use ax10m.Scheduler.{RecoveryDecision, RecoveryActionKind, retry, card_update_comms, suppress}
use ax10m.RecoveryCase.{Invoice, PaymentMethod, CredentialRecord, Host, CaseState}
use ax10m.RecoveryCase.Credentials.{CredentialAttemptWindow}
use ax10m.RecoveryCase.Attempt.{dispose, attempt_recovery}
use ax10m.RecoveryCase.Plan.{Features}
use ax10m.RecoveryCase.Fresh.{ExecuteInput, read_window}
use ax10m.RecoveryCase.Execute.{
  recover_unless, recovered_or_give_up, execute_recovery, carry_out, retry_credential,
  update_credential, give_up,
}
use ax10m.RecoveryCase.Keeps.{
  hour_or_now-Keeps, learn_online-Triple, Calm, is_quiet, note-Keeps, features_for-Keeps,
  ask_policy-Keeps,
}

abbrev is_loud : BillingLedgerEntry → Bool
is_loud e = not (is_quiet e.type)

module _ (h : Host) where
  -- What charges, messages and reports leave behind: the state of everything outside, what was
  -- counted as charged or sent, and how many reports of charges, recoveries, reversals and opened
  -- cases the ledger has.
  pub record Traces : Type 0 where
    pub processor : h.Processor
    pub mail : h.Mail
    pub dispatched : h.Dispatched
    pub attempts : Dict ℕ
    pub credentials : Dict CredentialRecord
    pub sent : List String
    pub opened : List String
    pub reports : ℕ

  abbrev pub traces : CaseState h → Traces
  traces s = record {
    processor = s.processor;
    mail = s.mail;
    dispatched = s.dispatched;
    attempts = s.attempts;
    credentials = s.credential_attempts;
    sent = s.sent_keys;
    opened = s.opened_invoices;
    reports = count_if is_loud s.ledger;
  }

  silent :
      (e : BillingLedgerEntry) (ledger : List BillingLedgerEntry)
      → is_quiet e.type ≡ true
      → count_if is_loud (ledger ++ e ∷ []) ≡ count_if is_loud ledger
  silent e ledger q = ground (arith, count_if-snoc is_loud ledger e)

  module _ (v : Traces) where
    abbrev pub Leaves : CaseState h → Type 0
    Leaves t = traces t ≡ v

    pub Leaves-Calm : Calm h Leaves
    Leaves-Calm = record {
      clock = λ t c u. u;
      policy = λ t p u. u;
      notes =
          λ t e q u. ap (λ (n : ℕ). record (traces t) { reports = n }) (silent e t.ledger q) ∙ u;
    }

    dispose-Leaves :
        (d : GuardrailDecision) (invoice : Invoice) (m : PaymentMethod) (n : ℕ) (at : Option ℕ)
        → Keeps Leaves (dispose h d invoice m n at true)
    dispose-Leaves allow invoice m n at =
        Keeps-bind _ _ (note-Keeps h Leaves-Calm _ _ _ refl) (λ u. Keeps-pure _)
    dispose-Leaves (GuardrailDecision.suppress reason) invoice m n at =
        Keeps-bind _ _ (note-Keeps h Leaves-Calm _ _ _ refl) (λ u. Keeps-pure _)

  module _ (v : Traces) (p : ExecuteInput) (e : p.shadow ≡ true) where
    retry_credential-Leaves :
        (f : Features h) (d : RecoveryDecision) (w : CredentialAttemptWindow)
        → Keeps (Leaves v) (retry_credential h p f d w)
    unfolding retry_credential attempt_recovery
    retry_credential-Leaves f d w =
        Keeps-bind _ _ (hour_or_now-Keeps h (Leaves-Calm v) p.local_hour) (λ hour.
          Keeps-bind _ _ (rw e (dispose-Leaves v _ p.invoice p.method p.attempt_number p.now_iso))
            (λ r.
              Keeps-bind _ _ (learn_online-Triple h (Leaves-Calm v) f d r.outcome p.invoice.amount)
                (λ u. Keeps-pure _)))

    give_up-Leaves :
        (code : DeclineCode) (d : RecoveryDecision) (b : Bool)
        → Keeps (Leaves v) (give_up h p code d b)
    unfolding give_up
    give_up-Leaves code d true = rw e (
        Triple-bind-pure none _ (
          Triple-bind-pure none _
            (Keeps-bind _ _ (note-Keeps h (Leaves-Calm v) _ _ _ refl) (λ u. Keeps-pure _))))
    give_up-Leaves code d false =
        (Triple-bind-pure none _ (
          Triple-bind-pure none _
            (Keeps-bind _ _ (note-Keeps h (Leaves-Calm v) _ _ _ refl) (λ u. Keeps-pure _))))

    recover-Leaves :
        (b : Bool) (code : DeclineCode)
        → b ≡ true
        → Triple
            (Leaves v)
            (recover_unless h b p code)
            (λ done s. (done ≡ false) × Leaves v s)
            (Leaves v)
    recover-Leaves true code e' = Triple-pure false (λ s q. (refl, q))
    recover-Leaves false code e' = absurd (cc)

    finish-Leaves :
        (done : Bool) (code : DeclineCode) (d : RecoveryDecision)
        → Triple
            (λ s. (done ≡ false) × Leaves v s)
            (recovered_or_give_up h done p code d)
            (λ o. Leaves v)
            (Leaves v)
    finish-Leaves true code d = record { run = λ s q. absurd (cc) }
    finish-Leaves false code d = Triple-given (λ s q. q.1) (give_up-Leaves code d true)

    carry_out-Leaves :
        (k : RecoveryActionKind) (f : Features h) (d : RecoveryDecision)
        (w : CredentialAttemptWindow)
        → Keeps (Leaves v) (carry_out h k p f d w)
    unfolding update_credential
    carry_out-Leaves retry f d w = retry_credential-Leaves f d w
    carry_out-Leaves card_update_comms f d w =
        Triple-bind _ _ (recover-Leaves p.shadow f.decline_code e)
          (λ done. finish-Leaves done f.decline_code d)
    carry_out-Leaves suppress f d w = give_up-Leaves f.decline_code d false

    pub execute-Leaves : Keeps (Leaves v) (execute_recovery h p)
    unfolding execute_recovery read_window
    execute-Leaves =
        Keeps-bind _ _
          (features_for-Keeps h (Leaves-Calm v) p.invoice (some p.method) p.decline p.attempt_number
            p.customer)
          (λ f. Keeps-bind _ _ (Keeps-gets _) (λ w.
            Keeps-bind _ _ (ask_policy-Keeps h (Leaves-Calm v) f _ _) (λ d.
              Keeps-bind _ _ (note-Keeps h (Leaves-Calm v) _ _ _ refl)
                (λ u. carry_out-Leaves d.action f d w))))
