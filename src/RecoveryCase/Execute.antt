-- ===== src/RecoveryCase/Execute.antt =====
-- The execution of an attempt (recovery-case.service.ts, `executeRecovery` and
-- `executeCredentialRecovery`): the engine proposes, the guardrail disposes, and only then is a
-- credential charged; where the engine gives the credential up, a fresh one is tried, and then the
-- customer is written to.

use ax10m.Common.{
  ℕ, Bool, true, false, ◌&&◌, not, String, Option, none, some, [], ◌∷◌, ◌++◌, if◌then◌else◌,
}
use ax10m.Common.Dict.{Dict}
use ax10m.Common.Action.{pure, modify, ◌>>=◌, ◌>>◌}
use ax10m.Canonical.{DeclineCode}
use ax10m.Guardrail.{charge_retry, default_caps}
use ax10m.Ledger.{recovery_planned, comms_sent, action_suppressed}
use ax10m.BillingRun.{DetailValue, text, opaque}
use ax10m.Comms.{DunningMessage}
use ax10m.Scheduler.{
  RecoveryDecision, RecoveryActionKind, retry, card_update_comms, suppress, ChargeOutcome,
  succeeded,
}
use ax10m.RecoveryEngine.Sequence.{otherwise}
use ax10m.RecoveryCase.{
  Invoice, PaymentMethod, ComplianceContext, Host, CaseState, note, map_card_network,
}
use ax10m.Common.Int.{ℤ, pos, ◌-ℤ◌}
use ax10m.RecoveryCase.Credentials.{CredentialAttemptWindow}
use ax10m.RecoveryCase.Attempt.{
  Service, RecoveryActionOutcome, update_comms, engine_suppress, attempted, attempt_recovery,
  is_succeeded, is_pending,
}
use ax10m.RecoveryCase.Plan.{Features, features_for, ask_policy, available, action_name}
use ax10m.RecoveryCase.Deliver.{DunningDelivery, compose_dunning, deliver_dunning, hour_or_now}
use ax10m.RecoveryCase.Fresh.{
  ExecuteInput, attempts_so_far, proposal, read_window, execute_credential_recovery,
}

pub record ExecuteOutcome : Type 0 where
  pub action : RecoveryActionOutcome
  pub outcome : Option ChargeOutcome
  pub decision : RecoveryDecision

-- `reward`: the amount less the fee of the attempt, or the fee alone.
abbrev pub reward_of : Bool → ℕ → ℤ
reward_of won amount = if won then pos amount -ℤ pos 15 else pos 0 -ℤ pos 15

module _ (h : Host) where
  abbrev pub executed_detail : Invoice → RecoveryDecision → Dict DetailValue
  executed_detail invoice d =
      ("invoiceId", text invoice.id)
      ∷ ("action", text (action_name d.action))
      ∷ ("retryAt", opaque)
      ∷ ("expectedValueMinor", opaque)
      ∷ ("rationale", opaque)
      ∷ ("features", opaque)
      ∷ ("shadow", opaque)
      ∷ []

  abbrev pub if_any : {A : Type 0} → String → Option A → Dict DetailValue
  if_any key none = []
  if_any key (some a) = (key, opaque) ∷ []

  abbrev pub given_up_detail :
      Invoice → RecoveryDecision → Option DunningMessage → Option DunningDelivery → Dict DetailValue
  given_up_detail invoice d message delivery =
      ("invoiceId", text invoice.id)
      ∷ ("processor", text h.processor_id)
      ∷ ("reason", text (action_name d.action))
      ∷ ("rationale", opaque)
      ∷ (if_any "message" message ++ if_any "delivery" delivery)

  abbrev pub compose_if : Bool → ExecuteInput → DeclineCode → Service h (Option DunningMessage)
  compose_if b p code = if b then compose_dunning h p.invoice p.method code else pure none

  abbrev pub deliver_if :
      Option DunningMessage → ExecuteInput → DeclineCode → Service h (Option DunningDelivery)
  deliver_if none p code = pure none
  deliver_if (some m) p code =
      deliver_dunning h m p.invoice p.attempt_number code p.customer p.local_hour

  -- The customer is written to, or not; either is noted.
  unfoldable pub give_up :
      ExecuteInput → DeclineCode → RecoveryDecision → Bool → Service h ExecuteOutcome
  give_up p code d is_comms = do
    message ← compose_if (is_comms && not p.shadow) p code
    delivery ← deliver_if message p code
    note h p.invoice.merchant_id (if is_comms then comms_sent else action_suppressed)
        (given_up_detail p.invoice d message delivery)
    pure (record {
      action = if is_comms then update_comms else engine_suppress;
      outcome = none;
      decision = d;
    })

  abbrev pub recovered_or_give_up :
      Bool → ExecuteInput → DeclineCode → RecoveryDecision → Service h ExecuteOutcome
  recovered_or_give_up true p code d =
      pure (record { action = attempted; outcome = some succeeded; decision = d })
  recovered_or_give_up false p code d = give_up p code d true

  -- In shadow no fresh credential is tried.
  abbrev pub recover_unless : Bool → ExecuteInput → DeclineCode → Service h Bool
  recover_unless true p code = pure false
  recover_unless false p code = execute_credential_recovery h p code

  unfoldable pub update_credential :
      ExecuteInput → DeclineCode → RecoveryDecision → Service h ExecuteOutcome
  update_credential p code d = do
    done ← recover_unless p.shadow p code
    recovered_or_give_up done p code d

  -- `learnOnline`: only a charge that was decided has a reward. The flush of what a bandit has
  -- learned to the shared store is left out.
  abbrev pub learn_online :
      Features h → RecoveryDecision → Option ChargeOutcome → ℕ → CaseState h → CaseState h
  learn_online features d outcome amount s = elim outcome [
    | none ↦ s
    | some o ↦
        if is_pending o
        then s
        else record s { policy = h.update features d (reward_of (is_succeeded o) amount) s.policy }
  ]

  unfoldable pub retry_credential :
      ExecuteInput
      → Features h
      → RecoveryDecision
      → CredentialAttemptWindow
      → Service h ExecuteOutcome
  retry_credential p features d w = do
    hour ← hour_or_now h p.local_hour
    r ←
        attempt_recovery h p.invoice p.method
          (proposal h charge_retry features.decline_code (attempts_so_far p) p.method w
            (otherwise w.minutes_since_last_attempt p.minutes_since_last_attempt) hour)
          p.attempt_number p.now_iso p.shadow
    modify (learn_online features d r.outcome p.invoice.amount)
    pure (record { action = r.result; outcome = r.outcome; decision = d })

  abbrev pub carry_out :
      RecoveryActionKind
      → ExecuteInput
      → Features h
      → RecoveryDecision
      → CredentialAttemptWindow
      → Service h ExecuteOutcome
  carry_out retry p features d w = retry_credential p features d w
  carry_out card_update_comms p features d w = update_credential p features.decline_code d
  carry_out suppress p features d w = give_up p features.decline_code d false

  abbrev pub compliance_of : PaymentMethod → CredentialAttemptWindow → ComplianceContext
  compliance_of m w = record {
    attempts_in_network_window = w.attempts_in_window;
    network_cap = some (default_caps (map_card_network h m.brand)).max_attempts_per_window;
  }

  unfoldable pub execute_recovery : ExecuteInput → Service h ExecuteOutcome
  execute_recovery p = do
    features ← features_for h p.invoice (some p.method) p.decline p.attempt_number p.customer
    w ← read_window h p.invoice p.method p.now_iso
    d ← ask_policy h features (available p.method ∷ []) (some (compliance_of p.method w))
    note h p.invoice.merchant_id recovery_planned (executed_detail p.invoice d)
    carry_out d.action p features d w
