-- ===== src/RecoveryCase/Active.antt =====
-- What an execution does to a property, from what one charge does to it (recovery-case.service.ts,
-- `executeRecovery` and `executeCredentialRecovery`). The property is left alone by everything but the
-- charge, and a charge is proposed with the attempts that its credential has.
use ax10m.Common.{sym, subst, ℕ, ◌≡◌, refl, Bool, true, false, String, Option, none, some}
use ax10m.Common.Dict.{lookup}
use ax10m.Common.Action.{
  Action, Triple, Keeps, Triple-pure, Triple-gets, Triple-bind, Triple-given, Triple-then,
}
use ax10m.Canonical.{DeclineCode}
use ax10m.Guardrail.{ProposedActionKind, charge_retry, fresh_credential_charge}
use ax10m.Scheduler.{RecoveryDecision, RecoveryActionKind, retry, card_update_comms, suppress}
use ax10m.RecoveryCase.{
  ChargeOutcome, PaymentMethod, Customer, CredentialRecord, Host, CaseState, credential_key,
}
use ax10m.RecoveryCase.Credentials.{CredentialAttemptWindow, attempts_on, count_of, window_of}
use ax10m.RecoveryCase.Attempt.{attempt_recovery}
use ax10m.RecoveryCase.Plan.{Features}
use ax10m.RecoveryCase.Fresh.{
  ExecuteInput, attempts_so_far, has_succeeded, proposal, read_window, charge_fresh, charge_if_any,
  find_backup, backup_unless, execute_credential_recovery, refreshed,
}
use ax10m.RecoveryCase.Execute.{
  give_up, ExecuteOutcome, recover_unless, recovered_or_give_up, update_credential,
  retry_credential, carry_out, execute_recovery,
}
use ax10m.RecoveryCase.Keeps.{
  Calm, note-Keeps, read_clock-Triple, features_for-Keeps, ask_policy-Keeps, hour_or_now-Keeps,
  learn_online-Triple,
}
use ax10m.RecoveryCase.Messages.{Stable, fetch-Keeps, list-Keeps, give_up-Triple}

-- The kinds of action that charge a credential.
abbrev pub is_charge : ProposedActionKind → Bool
is_charge charge_retry = true
is_charge fresh_credential_charge = true
is_charge _ = false

window_of-count :
    (now : Option ℕ) (e : Option CredentialRecord)
    → count_of e ≡ (window_of now e).attempts_in_window
window_of-count now none = refl
window_of-count now (some e) = refl

module _ (h : Host) where
  -- The credential under the key has had `k` attempts.
  abbrev pub Windowed : (CaseState h → Type 0) → String → ℕ → CaseState h → Type 0
  Windowed P key k s = P s × (attempts_on key s.credential_attempts ≡ k)

  pub Windowed-Calm :
      {P : CaseState h → Type 0} (key : String) (k : ℕ) → Calm h P → Calm h (Windowed P key k)
  Windowed-Calm key k calm = record {
    clock = λ s c q. (calm.clock s c q.0, q.1);
    policy = λ s p q. (calm.policy s p q.0, q.1);
    notes = λ s e quiet q. (calm.notes s e quiet q.0, q.1);
  }

  forget :
      {A : Type 0} {P : CaseState h → Type 0} (key : String) (k : ℕ) {m : Action (CaseState h) A}
      → Keeps (Windowed P key k) m
      → Triple (Windowed P key k) m (λ a. Windowed P key k) P
  forget key k t = Triple-then (λ a s q. q) (λ s q. q.0) t

  -- What one charge, proposed under the present window of its credential, does: it ends in `Q won`.
  abbrev pub Attempts :
      (CaseState h → Type 0) → (Bool → CaseState h → Type 0) → ExecuteInput → Type 0
  Attempts P Q p =
      (kind : ProposedActionKind) (code : DeclineCode) (m : PaymentMethod)
      (w : CredentialAttemptWindow) (minutes : Option ℕ) (hour : ℕ) (shadow : Bool)
      → is_charge kind ≡ true
      → Triple (Windowed P (credential_key p.invoice.id m) w.attempts_in_window)
          (attempt_recovery h p.invoice m
            (proposal h kind code (attempts_so_far p) m w minutes hour) p.attempt_number p.now_iso
            shadow)
          (λ r. Q (has_succeeded r.outcome)) P

  module _ (p : ExecuteInput) (P : CaseState h → Type 0) (Q : Bool → CaseState h → Type 0)
      (stable : Stable h P) (attempts : Attempts P Q p) (lost : (s : CaseState h) → Q false s → P s)
      (kept : (s : CaseState h) → P s → Q false s) (learns : (b : Bool) → Calm h (Q b)) where
    read_window-Windowed :
        (m : PaymentMethod)
        → Triple P
            (read_window h p.invoice m p.now_iso)
            (λ w. Windowed P (credential_key p.invoice.id m) w.attempts_in_window)
            P
    unfolding read_window
    read_window-Windowed m = Triple-gets _ (λ s q. (
      q,
      window_of-count p.now_iso (lookup (credential_key p.invoice.id m) s.credential_attempts),
    ))

    charge_fresh-Triple :
        (code : DeclineCode) (m : PaymentMethod) (via : String)
        → Triple P (charge_fresh h p code m via) (λ o. Q (has_succeeded o)) P
    unfolding charge_fresh
    charge_fresh-Triple code m via = Triple-bind _ _ (note-Keeps h stable.calm _ _ _ refl) (λ u.
        Triple-bind _ _ (read_window-Windowed m) (λ w.
          Triple-bind _ _
            (forget _ w.attempts_in_window
              (read_clock-Triple h (Windowed-Calm _ w.attempts_in_window stable.calm)))
            (λ now.
              Triple-bind _ _
                (attempts fresh_credential_charge code m w w.minutes_since_last_attempt _ false
                  refl)
                (λ r. Triple-pure r.outcome (λ s q. q)))))

    charge_if_any-Triple :
        (code : DeclineCode) (via : String) (m : Option PaymentMethod)
        → Triple P (charge_if_any h p code via m) Q P
    charge_if_any-Triple code via none = Triple-pure false kept
    charge_if_any-Triple code via (some m) =
        Triple-bind _ _ (charge_fresh-Triple code m via)
          (λ o. Triple-pure (has_succeeded o) (λ s q. q))

    find_backup-Keeps :
        (updated : Option PaymentMethod) (customer : Option Customer)
        → Keeps P (find_backup h p updated customer)
    find_backup-Keeps updated none = Triple-pure none (λ s q. q)
    find_backup-Keeps updated (some c) =
        Triple-bind _ _ (list-Keeps h stable _ c) (λ ms. Triple-pure _ (λ s q. q))

    backup_unless-Triple :
        (done : Bool) (code : DeclineCode) (updated : Option PaymentMethod)
        → Triple (Q done) (backup_unless h done p code updated) Q P
    backup_unless-Triple true code updated = Triple-pure true (λ s q. q)
    backup_unless-Triple false code updated = Triple-given lost (
        Triple-bind _ _ (find_backup-Keeps updated p.customer)
          (λ m. charge_if_any-Triple code "alternate_rail" m))

    recover_unless-Triple :
        (shadow : Bool) (code : DeclineCode) → Triple P (recover_unless h shadow p code) Q P
    unfolding execute_credential_recovery
    recover_unless-Triple true code = Triple-pure false kept
    recover_unless-Triple false code = Triple-bind _ _ (fetch-Keeps h stable _ p.method) (λ updated.
        Triple-bind _ _ (charge_if_any-Triple code "card_refresh" (refreshed p.method updated))
          (λ done. backup_unless-Triple done code updated))

    -- How an execution ends, given whether it won.
    abbrev Done : ExecuteOutcome → CaseState h → Type 0
    Done o = Q (has_succeeded o.outcome)

    give_up-Done :
        (code : DeclineCode) (d : RecoveryDecision) (b : Bool)
        → Triple P (give_up h p code d b) Done P
    give_up-Done code d b =
        Triple-then
          (λ o s q.
            subst (λ (x : Option ChargeOutcome). Q (has_succeeded x) s) (sym q.0) (kept s q.1))
          (λ s q. q) (give_up-Triple h stable p code d b)

    recovered_or_give_up-Triple :
        (done : Bool) (code : DeclineCode) (d : RecoveryDecision)
        → Triple (Q done) (recovered_or_give_up h done p code d) Done P
    recovered_or_give_up-Triple true code d = Triple-pure _ (λ s q. q)
    recovered_or_give_up-Triple false code d = Triple-given lost (give_up-Done code d true)

    retry_credential-Triple :
        (f : Features h) (d : RecoveryDecision) (w : CredentialAttemptWindow)
        → Triple
            (Windowed P (credential_key p.invoice.id p.method) w.attempts_in_window)
            (retry_credential h p f d w)
            Done
            P
    unfolding retry_credential
    retry_credential-Triple f d w =
        Triple-bind _ _
          (forget _ w.attempts_in_window
            (hour_or_now-Keeps h (Windowed-Calm _ w.attempts_in_window stable.calm) p.local_hour))
          (λ hour.
            Triple-bind _ _ (attempts charge_retry f.decline_code p.method w _ hour p.shadow refl)
              (λ r.
                Triple-bind _ _
                  (learn_online-Triple h (learns (has_succeeded r.outcome)) f d r.outcome
                    p.invoice.amount)
                  (λ u. Triple-pure _ (λ s q. q))))

    carry_out-Triple :
        (k : RecoveryActionKind) (f : Features h) (d : RecoveryDecision)
        (w : CredentialAttemptWindow)
        → Triple
            (Windowed P (credential_key p.invoice.id p.method) w.attempts_in_window)
            (carry_out h k p f d w)
            Done
            P
    unfolding update_credential
    carry_out-Triple retry f d w = retry_credential-Triple f d w
    carry_out-Triple card_update_comms f d w =
        Triple-given (λ s q. q.0)
          (Triple-bind _ _ (recover_unless-Triple p.shadow f.decline_code)
            (λ done. recovered_or_give_up-Triple done f.decline_code d))
    carry_out-Triple suppress f d w =
        Triple-given (λ s q. q.0) (give_up-Done f.decline_code d false)

    pub execute_recovery-Triple : Triple P (execute_recovery h p) Done P
    unfolding execute_recovery
    execute_recovery-Triple =
        Triple-bind _ _
          (features_for-Keeps h stable.calm p.invoice (some p.method) p.decline p.attempt_number
            p.customer)
          (λ f. Triple-bind _ _ (read_window-Windowed p.method) (λ w.
            Triple-bind _ _
              (forget _ w.attempts_in_window
                (ask_policy-Keeps h (Windowed-Calm _ w.attempts_in_window stable.calm) f _ _))
              (λ d.
                Triple-bind _ _
                  (forget _ w.attempts_in_window
                    (note-Keeps h (Windowed-Calm _ w.attempts_in_window stable.calm) _ _ _ refl))
                  (λ u. carry_out-Triple d.action f d w))))
