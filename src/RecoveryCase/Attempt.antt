-- ===== src/RecoveryCase/Attempt.antt =====
-- One charge of one credential (recovery-case.service.ts, `attemptRecovery`): the guardrail first, then
-- the processor, the counters, the ledger and what is learned from it.
use Prim.Native.String.{◌++◌ as ◌<>◌}
use ax10m.Common.{
  ℕ, Bool, true, false, not, String, Option, none, some, [], ◌∷◌, max, if◌then◌else◌, or_else,
}
use ax10m.Common.Int.{pos}
use ax10m.Common.Dict.{Dict, lookup, insert}
use ax10m.Common.Action.{Result, Action, pure, modify, ◌>>=◌, ◌>>◌}
use ax10m.Guardrail.{
  ProposedAction, GuardrailDecision, allow, suppress, SuppressionReason, hard_decline,
  retry_cap_reached, quiet_hours, no_consent, global_opt_out, non_retriable_code,
  network_window_cap_reached, min_interval_not_elapsed, unknown_action, evaluate,
  default_guardrail_policy,
}
use ax10m.Ledger.{
  action_suppressed, charge_attempted, charge_succeeded, charge_failed, case_recovered,
}
use ax10m.BillingRun.{DetailValue, text, number, opaque}
use ax10m.Scheduler.{ChargeOutcome, succeeded, failed, pending}
use ax10m.RecoveryEngine.FeatureStore.{record_outcome}
use ax10m.RecoveryCase.{
  Invoice, PaymentMethod, ChargeResult, Host, CaseState, read_clock, note, credential_key,
}
use ax10m.RecoveryCase.Credentials.{increment}

-- How an attempt, or an execution, ends.
pub data RecoveryActionOutcome : Type 0 where
  update_comms engine_suppress suppressed shadowed attempted : RecoveryActionOutcome

pub record AttemptResult : Type 0 where
  pub result : RecoveryActionOutcome
  pub outcome : Option ChargeOutcome

abbrev pub reason_name : SuppressionReason → String
reason_name hard_decline = "hard_decline_suppressed"
reason_name retry_cap_reached = "retry_attempt_cap_reached"
reason_name quiet_hours = "quiet_hours"
reason_name no_consent = "no_consent"
reason_name global_opt_out = "global_opt_out"
reason_name non_retriable_code = "non_retriable_code"
reason_name network_window_cap_reached = "network_window_cap_reached"
reason_name min_interval_not_elapsed = "min_interval_not_elapsed"
reason_name unknown_action = "unknown_action"

abbrev pub outcome_name : ChargeOutcome → String
outcome_name succeeded = "succeeded"
outcome_name failed = "failed"
outcome_name pending = "pending"

abbrev pub is_succeeded : ChargeOutcome → Bool
is_succeeded succeeded = true
is_succeeded _ = false

abbrev pub is_pending : ChargeOutcome → Bool
is_pending pending = true
is_pending _ = false

-- A key of a detail whose text may be undefined.
abbrev pub maybe_text : String → Option String → Dict DetailValue
maybe_text key none = []
maybe_text key (some s) = (key, text s) ∷ []

module _ (h : Host) where
  abbrev pub Service : Type 0 → Type 0
  Service A = Action (CaseState h) A

  -- `if (b) { … }`
  abbrev pub when : Bool → Service (Unit {0}) → Service (Unit {0})
  when b m = if b then m else pure tt

  abbrev pub raise_attempts : String → ℕ → CaseState h → CaseState h
  raise_attempts invoice_id n s = record s {
    attempts = insert invoice_id (max (or_else (lookup invoice_id s.attempts) 0) n) s.attempts;
  }

  -- A call of the adapter.
  unfoldable pub call_processor : {A : Type 0} → (h.Processor → Result A × h.Processor) → Service A
  call_processor f s = let (r, p) = f s.processor in (r, record s { processor = p })

  abbrev pub count_attempt : String → ℕ → CaseState h → CaseState h
  count_attempt key now s = record s {
    credential_attempts = increment key now s.credential_attempts;
  }

  -- `nowIso ?? new Date()`
  abbrev pub time_or_now : Option ℕ → Service ℕ
  time_or_now none = read_clock h
  time_or_now (some now) = pure now

  abbrev pub idempotency_key : Invoice → PaymentMethod → ℕ → String
  idempotency_key invoice m n =
      "ax10m_charge_"
      <> h.idempotency_digest
          (invoice.merchant_id <> ":" <> invoice.id <> ":" <> m.id <> ":" <> h.decimal n)

  abbrev pub suppressed_detail : Invoice → SuppressionReason → Dict DetailValue
  suppressed_detail invoice reason =
      ("invoiceId", text invoice.id)
      ∷ ("reason", text (reason_name reason))
      ∷ ("message", opaque)
      ∷ []

  abbrev pub shadow_detail : Invoice → String → Dict DetailValue
  shadow_detail invoice key =
      ("invoiceId", text invoice.id) ∷ ("idempotencyKey", text key) ∷ ("shadow", opaque) ∷ []

  abbrev pub charge_detail : Invoice → String → ChargeResult → Dict DetailValue
  charge_detail invoice key r =
      ("invoiceId", text invoice.id)
      ∷ ("processor", text h.processor_id)
      ∷ ("idempotencyKey", text key)
      ∷ ("outcome", text (outcome_name r.outcome))
      ∷ ("idempotentReplay", opaque)
      ∷ maybe_text "declineCode" r.decline_code

  abbrev pub recovered_detail : Invoice → ℕ → Dict DetailValue
  recovered_detail invoice n =
      ("invoiceId", text invoice.id)
      ∷ ("processor", text h.processor_id)
      ∷ ("amount", number (pos invoice.amount))
      ∷ ("currency", text invoice.currency)
      ∷ ("attemptNumber", number (pos n))
      ∷ []

  abbrev pub learn_outcome : Invoice → PaymentMethod → ChargeOutcome → ℕ → CaseState h → CaseState h
  learn_outcome invoice m outcome now s = record s {
    features =
        record_outcome h.features_config.region_index s.features invoice.merchant_id
          invoice.customer_id m.bin (is_succeeded outcome) (some now);
  }

  unfoldable pub learn_from : Invoice → PaymentMethod → ChargeOutcome → Service (Unit {0})
  learn_from invoice m outcome = do now ← read_clock h; modify (learn_outcome invoice m outcome now)

  -- The reports of a counted charge, and what is learned from it.
  unfoldable pub report :
      Invoice → PaymentMethod → ℕ → String → ChargeResult → Service AttemptResult
  report invoice m n key r = do
    note h invoice.merchant_id (if is_succeeded r.outcome then charge_succeeded else charge_failed)
        (charge_detail invoice key r)
    when (is_succeeded r.outcome)
        (note h invoice.merchant_id case_recovered (recovered_detail invoice n))
    when (not (is_pending r.outcome)) (learn_from invoice m r.outcome)
    pure (record { result = attempted; outcome = some r.outcome })

  -- What follows the processor's answer.
  unfoldable pub settle :
      Invoice → PaymentMethod → ℕ → Option ℕ → String → ChargeResult → Service AttemptResult
  settle invoice m n now_iso key r = do
    at ← time_or_now now_iso
    modify (count_attempt (credential_key invoice.id m) at)
    report invoice m n key r

  unfoldable pub charge : Invoice → PaymentMethod → ℕ → Option ℕ → Service AttemptResult
  charge invoice m n now_iso =
      let key = idempotency_key invoice m n in
      do
        modify (raise_attempts invoice.id n)
        r ← call_processor (h.attempt_charge invoice m key)
        settle invoice m n now_iso key r

  abbrev pub suppress_attempt : Invoice → SuppressionReason → Service AttemptResult
  suppress_attempt invoice reason = do
    note h invoice.merchant_id action_suppressed (suppressed_detail invoice reason)
    pure (record { result = suppressed; outcome = none })

  abbrev pub shadow_attempt : Invoice → PaymentMethod → ℕ → Service AttemptResult
  shadow_attempt invoice m n = do
    note h invoice.merchant_id charge_attempted
        (shadow_detail invoice (idempotency_key invoice m n))
    pure (record { result = shadowed; outcome = none })

  abbrev pub dispose :
      GuardrailDecision → Invoice → PaymentMethod → ℕ → Option ℕ → Bool → Service AttemptResult
  dispose (suppress reason) invoice m n now_iso shadow = suppress_attempt invoice reason
  dispose allow invoice m n now_iso shadow =
      if shadow then shadow_attempt invoice m n else charge invoice m n now_iso

  unfoldable pub attempt_recovery :
      Invoice → PaymentMethod → ProposedAction → ℕ → Option ℕ → Bool → Service AttemptResult
  attempt_recovery invoice m proposed n now_iso shadow =
      dispose (evaluate proposed default_guardrail_policy) invoice m n now_iso shadow
