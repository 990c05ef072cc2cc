-- ===== src/RecoveryCase/Intake.antt =====
-- The events of a processor (recovery-case.service.ts, `handleEvent`, `openCase`): a failure opens a
-- case, in one arm of the holdout; a reversal is accounted for; a paid invoice counts for the
-- baseline. What an adapter makes of a webhook is the list of events.
use ax10m.Common.{
  ◌+◌, Bool, true, false, String, Option, none, some, List, [], ◌∷◌, ◌++◌, not, if◌then◌else◌,
  or_else,
}
use ax10m.Common.Int.{pos}
use ax10m.Common.Dict.{Dict, str_eq, lookup}
use ax10m.Common.Action.{Result, ok, thrown, pure, lift, gets, modify, ◌>>=◌, ◌>>◌}
use ax10m.Canonical.{DeclineCode}
use ax10m.Ledger.{holdout_assigned}
use ax10m.BillingRun.{DetailValue, text, number}
use ax10m.Reconciliation.{Arm, control, treatment}
use ax10m.Assignment.{Assignment, AssignmentInput, Stratum, assign}
use ax10m.RecoveryEngine.FeatureStore.{Instant, observe}
use ax10m.Onboarding.Shadow.{record_failure, record_baseline_recovery}
use ax10m.Reversals.{ReversalPayload, record_reversal, record_reversal_reverted}
use ax10m.RecoveryCase.{
  Invoice, PaymentMethod, Customer, DeclineEvent, DurableRecoveryRequest, Host, CaseState, entry_of,
  with_entry, derive_stratum,
}
use ax10m.RecoveryCase.Attempt.{Service, when}
use ax10m.RecoveryCase.Plan.{plan_attempt, code_of, created_of}

pub record FailurePayload : Type 0 where
  pub invoice : Option Invoice
  pub decline : Option DeclineEvent
  pub method : Option PaymentMethod
  pub customer : Option Customer

pub data EventPayload : Type 0 where
  payment_reversed : ReversalPayload → EventPayload
  payment_reversal_reverted : ReversalPayload → EventPayload
  invoice_failed : FailurePayload → EventPayload
  invoice_paid : Option Invoice → EventPayload
  any_other_event : EventPayload

pub record CanonicalEvent : Type 0 where
  pub merchant_id : String
  pub occurred_at : Instant
  pub payload : EventPayload

-- `set.has(x)`
abbrev pub has : String → List String → Bool
has x [] = false
has x (y ∷ ys) = if str_eq y x then true else has x ys

abbrev pub arm_name : Arm → String
arm_name control = "control"
arm_name treatment = "treatment"

-- An error that is thrown is no value.
abbrev pub or_throw : {A : Type 0} → Option A → Result A
or_throw none = thrown
or_throw (some a) = ok a

module _ (h : Host) where
  abbrev pub assignment_input : Invoice → Stratum → AssignmentInput
  assignment_input invoice stratum = record {
    merchant_id = invoice.merchant_id;
    customer_id = some invoice.customer_id;
    invoice_id = invoice.id;
    stratum = stratum;
  }

  abbrev pub assigned_detail : Invoice → Assignment (h.numbers.Real) → Dict DetailValue
  assigned_detail invoice a =
      ("invoiceId", text invoice.id)
      ∷ ("customerId", text invoice.customer_id)
      ∷ ("bucket", text (arm_name a.bucket))
      ∷ ("stratumKey", text a.stratum_key)
      ∷ ("amount", number (pos invoice.amount))
      ∷ ("currency", text invoice.currency)
      ∷ []

  abbrev pub mark_opened : String → CaseState h → CaseState h
  mark_opened id s = record s { opened_invoices = s.opened_invoices ++ id ∷ [] }

  unfoldable pub open_new : Invoice → Assignment (h.numbers.Real) → Instant → Service h (Unit {0})
  open_new invoice a at = modify (λ s.
      with_entry h (entry_of h invoice.merchant_id holdout_assigned at (assigned_detail invoice a))
        (mark_opened invoice.id s))

  -- The first webhook of a failure is noted; a redelivered one is not.
  unfoldable pub open_case : Invoice → Stratum → Instant → Service h Arm
  open_case invoice stratum at = do
    a ← lift (or_throw (assign h.numbers h.hashed (assignment_input invoice stratum) h.holdout))
    opened ← gets (λ s. has invoice.id s.opened_invoices)
    when h (not opened) (open_new invoice a at)
    pure a.bucket

  abbrev pub observe_customer : Invoice → Option Customer → Instant → CaseState h → CaseState h
  observe_customer invoice customer at s = record s {
    features = observe s.features invoice.merchant_id invoice.customer_id at (created_of customer);
  }

  abbrev pub measure_failure : Invoice → DeclineCode → CaseState h → CaseState h
  measure_failure invoice code s = record s {
    merchants =
        record_failure h.numbers s.merchants invoice.merchant_id invoice.id code invoice.amount;
  }

  abbrev pub measure_paid : Invoice → CaseState h → CaseState h
  measure_paid invoice s = record s {
    merchants = record_baseline_recovery h.numbers s.merchants invoice.merchant_id invoice.id;
  }

  unfoldable pub call_dispatcher : DurableRecoveryRequest → Service h (Unit {0})
  call_dispatcher request s =
      let (r, d) = h.dispatch request s.dispatched in (r, record s { dispatched = d })

  -- A failure without a payment method is not dispatched.
  abbrev pub dispatch_durable_recovery :
      Invoice → Option PaymentMethod → Option DeclineEvent → Option Customer → Service h (Unit {0})
  dispatch_durable_recovery invoice none decline customer = pure tt
  dispatch_durable_recovery invoice (some method) decline customer = call_dispatcher (record {
    workflow_id = invoice.id;
    invoice = invoice;
    method = method;
    decline = decline;
    customer = customer;
    shadow = not h.live_charging;
  })

  -- `planRecovery`
  unfoldable pub plan_recovery : Invoice → Option DeclineEvent → Service h (Unit {0})
  plan_recovery invoice decline = do
    n ← gets (λ s. or_else (lookup invoice.id s.attempts) 0)
    decision ← plan_attempt h invoice none decline (n + 1)
    pure tt

  -- What a treatment case gets, and a control case does not.
  abbrev pub treat : Arm → Invoice → FailurePayload → Service h (Unit {0})
  treat control invoice p = pure tt
  treat treatment invoice p = do
    plan_recovery invoice p.decline
    when h h.durable_recovery (dispatch_durable_recovery invoice p.method p.decline p.customer)

  unfoldable pub handle_failure : Invoice → FailurePayload → Instant → Service h (Unit {0})
  handle_failure invoice p at = do
    bucket ← open_case invoice (derive_stratum invoice p.decline) at
    modify (observe_customer invoice p.customer at)
    modify (measure_failure invoice (code_of p.decline))
    treat bucket invoice p

  abbrev pub handle_if_any : Option Invoice → FailurePayload → Instant → Service h (Unit {0})
  handle_if_any none p at = pure tt
  handle_if_any (some invoice) p at = handle_failure invoice p at

  abbrev pub handle_payload : EventPayload → String → Instant → Service h (Unit {0})
  handle_payload (payment_reversed p) merchant at =
      modify
        (λ s. record s { ledger = record_reversal s.ledger p merchant at (some h.processor_id) })
  handle_payload (payment_reversal_reverted p) merchant at = modify (λ s. record s {
    ledger = record_reversal_reverted s.ledger p merchant at (some h.processor_id);
  })
  handle_payload (invoice_failed p) merchant at = handle_if_any p.invoice p at
  handle_payload (invoice_paid none) merchant at = pure tt
  handle_payload (invoice_paid (some invoice)) merchant at = modify (measure_paid invoice)
  handle_payload any_other_event merchant at = pure tt

  unfoldable pub handle_event : CanonicalEvent → Service h (Unit {0})
  handle_event e = handle_payload e.payload e.merchant_id e.occurred_at

  -- The loop of `ingestWithAdapter`.
  unfoldable pub ingest : List CanonicalEvent → Service h (Unit {0})
  ingest [] = pure tt
  ingest (e ∷ es) = handle_event e >> ingest es
