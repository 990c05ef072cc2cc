-- ===== src/RecoveryCase/Fresh.antt =====
-- The recovery of a dead credential (recovery-case.service.ts, `executeCredentialRecovery`): a refreshed
-- card is charged first, then a stored backup method, each under its own window of attempts.
use ax10m.Common.{
  ℕ, ◌-◌, Bool, true, false, ◌&&◌, not, String, Option, none, some, List, [], ◌∷◌, if◌then◌else◌,
  find?,
}
use ax10m.Common.Dict.{Dict, str_eq}
use ax10m.Common.Action.{Result, ok, thrown, pure, gets, ◌>>=◌, ◌>>◌}
use ax10m.Canonical.{DeclineCode, family_of}
use ax10m.Guardrail.{ProposedAction, ProposedActionKind, fresh_credential_charge}
use ax10m.Ledger.{recovery_planned}
use ax10m.BillingRun.{DetailValue, text}
use ax10m.Scheduler.{ChargeOutcome}
use ax10m.RecoveryCase.{
  Invoice, PaymentMethod, Customer, DeclineEvent, Host, read_clock, note, map_card_network,
  credential_key, utc_hour,
}
use ax10m.RecoveryCase.Credentials.{CredentialAttemptWindow, window}
use ax10m.RecoveryCase.Attempt.{Service, attempt_recovery, is_succeeded}

-- What `executeRecovery` is called with; the adapter is the processor of the host.
pub record ExecuteInput : Type 0 where
  pub invoice : Invoice
  pub method : PaymentMethod
  pub decline : Option DeclineEvent
  pub attempt_number : ℕ
  pub local_hour : Option ℕ
  pub minutes_since_last_attempt : Option ℕ
  pub customer : Option Customer
  pub now_iso : Option ℕ
  pub shadow : Bool

abbrev pub attempts_so_far : ExecuteInput → ℕ
attempts_so_far p = p.attempt_number - 1

-- A call that is caught gives what it returned, or the value that stands for an error.
abbrev pub or_caught : {A : Type 0} → A → Result A → A
or_caught default (ok a) = a
or_caught default thrown = default

-- An updated card under another token.
abbrev pub refreshed : PaymentMethod → Option PaymentMethod → Option PaymentMethod
refreshed m none = none
refreshed m (some u) = if str_eq u.token m.token then none else some u

abbrev pub other_than : Option PaymentMethod → PaymentMethod → Bool
other_than none m = true
other_than (some u) m = not (str_eq m.id u.id)

-- `methods.find((m) => m.id !== method.id && (!updated || m.id !== updated.id))`
abbrev pub backup_of :
    PaymentMethod → Option PaymentMethod → List PaymentMethod → Option PaymentMethod
backup_of method updated methods =
    find? (λ m. not (str_eq m.id method.id) && other_than updated m) methods

abbrev pub has_succeeded : Option ChargeOutcome → Bool
has_succeeded none = false
has_succeeded (some o) = is_succeeded o

module _ (h : Host) where
  -- The call of the adapter, its error caught.
  unfoldable pub try_processor :
      {A : Type 0} → A → (h.Processor → Result A × h.Processor) → Service h A
  try_processor default f s =
      let (r, p) = f s.processor in (ok (or_caught default r), record s { processor = p })

  abbrev pub proposal :
      ProposedActionKind
      → DeclineCode
      → ℕ
      → PaymentMethod
      → CredentialAttemptWindow
      → Option ℕ
      → ℕ
      → ProposedAction
  proposal kind code so_far m w minutes hour = record {
    kind = kind;
    decline_code = code;
    decline_family = family_of code;
    attempts_so_far = so_far;
    card_network = some (map_card_network h m.brand);
    attempts_in_window = some w.attempts_in_window;
    minutes_since_last_attempt = minutes;
    local_hour = hour;
    has_consent = true;
    globally_opted_out = false;
  }

  unfoldable pub read_window :
      Invoice → PaymentMethod → Option ℕ → Service h CredentialAttemptWindow
  read_window invoice m now_iso =
      gets (λ s. window (credential_key invoice.id m) now_iso s.credential_attempts)

  abbrev pub fresh_detail : Invoice → String → PaymentMethod → Dict DetailValue
  fresh_detail invoice via m =
      ("invoiceId", text invoice.id)
      ∷ ("action", text via)
      ∷ ("methodRef", text m.processor_ref)
      ∷ []

  -- `charge(m, via)`: a fresh credential is proposed to the guardrail under its own window.
  unfoldable pub charge_fresh :
      ExecuteInput → DeclineCode → PaymentMethod → String → Service h (Option ChargeOutcome)
  charge_fresh p code m via = do
    note h p.invoice.merchant_id recovery_planned (fresh_detail p.invoice via m)
    w ← read_window p.invoice m p.now_iso
    now ← read_clock h
    r ←
        attempt_recovery h p.invoice m
          (proposal fresh_credential_charge code (attempts_so_far p) m w
            w.minutes_since_last_attempt (utc_hour now))
          p.attempt_number p.now_iso false
    pure r.outcome

  -- Whether charging the credential, if there is one, succeeded.
  abbrev pub charge_if_any :
      ExecuteInput → DeclineCode → String → Option PaymentMethod → Service h Bool
  charge_if_any p code via none = pure false
  charge_if_any p code via (some m) = do
    outcome ← charge_fresh p code m via
    pure (has_succeeded outcome)

  -- A stored backup method, which only a known customer has.
  abbrev pub find_backup :
      ExecuteInput → Option PaymentMethod → Option Customer → Service h (Option PaymentMethod)
  find_backup p updated none = pure none
  find_backup p updated (some customer) = do
    methods ← try_processor [] (h.list_payment_methods customer)
    pure (backup_of p.method updated methods)

  abbrev pub backup_unless :
      Bool → ExecuteInput → DeclineCode → Option PaymentMethod → Service h Bool
  backup_unless true p code updated = pure true
  backup_unless false p code updated = do
    backup ← find_backup p updated p.customer
    charge_if_any p code "alternate_rail" backup

  -- Whether a fresh credential recovered the invoice.
  unfoldable pub execute_credential_recovery : ExecuteInput → DeclineCode → Service h Bool
  execute_credential_recovery p code = do
    updated ← try_processor none (h.fetch_updated_card p.method)
    done ← charge_if_any p code "card_refresh" (refreshed p.method updated)
    backup_unless done p code updated
