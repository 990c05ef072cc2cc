-- ===== src/RecoveryCase/Settle.antt =====
-- What one charge does to a property (recovery-case.service.ts, `attemptRecovery`), from what its parts
-- do: the count of the attempt, the report of the charge, and the report of the recovery.
use ax10m.Common.{ℕ, ◌≡◌, refl, Bool, true, false, String, Option}
use ax10m.Common.Action.{
  Result, Triple, Triple-bind, Triple-bind-pure, Triple-pure, Triple-modify, ok, thrown, Ends,
}
use ax10m.Guardrail.{GuardrailDecision, allow, suppress}
use ax10m.Ledger.{charge_succeeded, charge_failed, case_recovered}
use ax10m.BillingRun.{BillingLedgerEntry}
use ax10m.Scheduler.{ChargeOutcome, succeeded, failed, pending}
use ax10m.RecoveryEngine.FeatureStore.{Instant, FeatureStore}
use ax10m.RecoveryCase.{
  Invoice, PaymentMethod, ChargeResult, Host, CaseState, with_entry, entry_of, credential_key,
}
use ax10m.RecoveryCase.Attempt.{
  settle, report, charge, dispose, call_processor, count_attempt, raise_attempts, recovered_detail,
  learn_from, idempotency_key,
}
use ax10m.RecoveryCase.Fresh.{has_succeeded}
use ax10m.RecoveryCase.Keeps.{Calm, note-Triple, time_or_now-Triple, read_clock-Triple}

module _ (h : Host) (invoice : Invoice) (m : PaymentMethod) (n : ℕ) where
  -- `before` holds at the call, and when it throws; `called` when it has been answered, `counted` when
  -- the attempt is counted, `reported` when a success is reported; `after won` at the end.
  pub record Steps (before called counted reported : CaseState h → Type 0)
      (after : Bool → CaseState h → Type 0) : Type 0 where
    pub before_calm : Calm h before
    pub counted_calm : Calm h counted
    pub reported_calm : Calm h reported
    pub after_calm : (won : Bool) → Calm h (after won)
    pub called_calm : Calm h called
    pub answers :
        (s : CaseState h) (key : String) (r : ChargeResult) (x : h.Processor)
        → h.attempt_charge invoice m key s.processor ≡ (ok r, x)
        → before s
        → called (record s { processor = x })
    pub rejects :
        (s : CaseState h) (key : String) (x : h.Processor)
        → h.attempt_charge invoice m key s.processor ≡ (thrown, x)
        → before s
        → before (record s { processor = x })
    pub raises : (s : CaseState h) → before s → before (raise_attempts h invoice.id n s)
    pub learns :
        (won : Bool) (s : CaseState h) (x : FeatureStore)
        → after won s
        → after won (record s { features = x })
    pub counts :
        (s : CaseState h) (at : ℕ)
        → called s
        → counted (count_attempt h (credential_key invoice.id m) at s)
    pub reports :
        (s : CaseState h) (e : BillingLedgerEntry)
        → e.type ≡ charge_succeeded
        → counted s
        → reported (with_entry h e s)
    pub declines :
        (s : CaseState h) (e : BillingLedgerEntry)
        → e.type ≡ charge_failed
        → counted s
        → after false (with_entry h e s)
    pub recovers :
        (s : CaseState h) (at : Instant)
        → reported s
        → after true (
            with_entry h
              (entry_of h invoice.merchant_id case_recovered at (recovered_detail h invoice n))
              s)
    pub idle : (s : CaseState h) → before s → after false s

  module _ {before called counted reported : CaseState h → Type 0}
      {after : Bool → CaseState h → Type 0} (steps : Steps before called counted reported after)
      (E : CaseState h → Type 0) (gives : (s : CaseState h) → before s → E s) where
    call_processor-Triple :
        (key : String)
        → Triple before (call_processor h (h.attempt_charge invoice m key)) (λ a. called) E
    unfolding call_processor
    call_processor-Triple key = record {
      run = λ s q. ended s q (h.attempt_charge invoice m key s.processor) refl;
    }
      where
        ended :
            (s : CaseState h)
            → before s
            → (answer : Result ChargeResult × h.Processor)
            → h.attempt_charge invoice m key s.processor ≡ answer
            → Ends (λ a. called) E answer.0 (record s { processor = answer.1 })
        ended s q (ok r, x) e = steps.answers s key r x e q
        ended s q (thrown, x) e = gives _ (steps.rejects s key x e q)

    learn-Triple :
        (won : Bool) (o : ChargeOutcome)
        → Triple (after won) (learn_from h invoice m o) (λ u. after won) E
    unfolding learn_from
    learn-Triple won o =
        Triple-bind _ _ (read_clock-Triple h (steps.after_calm won))
          (λ now. Triple-modify _ (λ s q. steps.learns won s _ q))

    report-Triple :
        (key : String) (o : ChargeOutcome) (replay : Bool) (code : Option String)
        → Triple counted
            (report h invoice m n key
              (record { outcome = o; idempotent_replay = replay; decline_code = code }))
            (λ x. after (has_succeeded x.outcome))
            E
    unfolding report
    report-Triple key succeeded replay code =
        Triple-bind _ _
          (note-Triple h steps.counted_calm _ _ _ (λ s at q. steps.reports s _ refl q))
          (λ u.
            Triple-bind _ _
              (note-Triple h steps.reported_calm _ _ _ (λ s at q. steps.recovers s at q))
              (λ v. Triple-bind _ _ (learn-Triple true succeeded) (λ w. Triple-pure _ (λ s q. q))))
    report-Triple key failed replay code =
        Triple-bind _ _
          (note-Triple h steps.counted_calm _ _ _ (λ s at q. steps.declines s _ refl q))
          (λ u.
            Triple-bind-pure tt _
              (Triple-bind _ _ (learn-Triple false failed) (λ w. Triple-pure _ (λ s q. q))))
    report-Triple key pending replay code =
        Triple-bind _ _
          (note-Triple h steps.counted_calm _ _ _ (λ s at q. steps.declines s _ refl q))
          (λ u. Triple-bind-pure tt _ (Triple-bind-pure tt _ (Triple-pure _ (λ s q. q))))

    settle-Triple :
        (at : Option ℕ) (key : String) (r : ChargeResult)
        → Triple called (settle h invoice m n at key r) (λ x. after (has_succeeded x.outcome)) E
    unfolding settle
    settle-Triple at key r = Triple-bind _ _ (time_or_now-Triple h steps.called_calm at) (λ now.
        Triple-bind _ _ (Triple-modify _ (λ s q. steps.counts s now q))
          (λ u. report-Triple key r.outcome r.idempotent_replay r.decline_code))

    pub charge-Triple :
        (at : Option ℕ)
        → Triple before (charge h invoice m n at) (λ x. after (has_succeeded x.outcome)) E
    unfolding charge
    charge-Triple at = Triple-bind _ _ (Triple-modify _ (λ s q. steps.raises s q)) (λ u.
        Triple-bind _ _ (call_processor-Triple (idempotency_key h invoice m n))
          (λ r. settle-Triple at _ r))

    pub dispose-Triple :
        (d : GuardrailDecision) (at : Option ℕ) (shadow : Bool)
        → Triple before (dispose h d invoice m n at shadow) (λ x. after (has_succeeded x.outcome)) E
    dispose-Triple (suppress reason) at shadow =
        Triple-bind _ _
          (note-Triple h steps.before_calm _ _ _ (λ s t q. steps.before_calm.notes s _ refl q))
          (λ u. Triple-pure _ (λ s q. steps.idle s q))
    dispose-Triple allow at true =
        Triple-bind _ _
          (note-Triple h steps.before_calm _ _ _ (λ s t q. steps.before_calm.notes s _ refl q))
          (λ u. Triple-pure _ (λ s q. steps.idle s q))
    dispose-Triple allow at false = charge-Triple at
