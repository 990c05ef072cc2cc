-- ===== src/RecoveryCase/Arrivals.antt =====
-- What the events of a processor keep (recovery-case.service.ts, `openCase` and `handleEvent`), for any
-- property that their own changes leave alone.

use text.Mathlib.TextEquality.{eq_iff}
use ax10m.Common.{
  ◌++◌, if◌then◌else◌, arith, ◌≡◌, refl, Bool, true, false, not, String, Option, none, some, List,
  [], ◌∷◌,
}
use ax10m.Common.Action.{
  Keeps-modify, Triple, Triple-bind, Triple-pure, Triple-modify, Triple-gets, Keeps, Keeps-bind,
  Keeps-pure, Keeps-lift, Keeps-gets, Ends-either,
}
use ax10m.Ledger.{holdout_assigned}
use ax10m.Reconciliation.{Arm, control, treatment}
use ax10m.Reversals.{ReversalPayload, record_reversal, record_reversal_reverted}
use ax10m.Assignment.{Stratum, Assignment}
use ax10m.RecoveryEngine.FeatureStore.{Instant}
use ax10m.RecoveryCase.{
  str_eq, Merchants, FeatureStore, Invoice, PaymentMethod, DeclineEvent, Customer,
  DurableRecoveryRequest, Host, CaseState, with_entry, entry_of,
}
use ax10m.RecoveryCase.Attempt.{when}
use ax10m.RecoveryCase.Plan.{code_of}
use ax10m.RecoveryCase.Intake.{
  measure_failure, observe_customer, has, open_case, open_new, mark_opened, assigned_detail,
  FailurePayload, CanonicalEvent, EventPayload, payment_reversed, payment_reversal_reverted,
  invoice_failed, invoice_paid, any_other_event, handle_event, handle_failure, handle_if_any,
  handle_payload, call_dispatcher, dispatch_durable_recovery, plan_recovery, treat, ingest,
}
use ax10m.RecoveryCase.Keeps.{Calm, plan_attempt-Keeps, when-Keeps}

pub has-snoc :
    (k id : String) (marked : List String)
    → has k (marked ++ id ∷ []) ≡ (if str_eq id k then true else has k marked)
has-snoc k id [] = refl
has-snoc k id (x ∷ xs) = ground (arith, has-snoc k id xs, eq_iff x k, eq_iff id k)

module _ (h : Host) where
  -- Left alone by what an event changes.
  pub record Arrives (P : CaseState h → Type 0) : Type 0 where
    pub calm : Calm h P
    pub features : (s : CaseState h) (x : FeatureStore) → P s → P (record s { features = x })
    pub merchants :
        (s : CaseState h) (x : Merchants (h.numbers)) → P s → P (record s { merchants = x })
    pub dispatched : (s : CaseState h) (x : h.Dispatched) → P s → P (record s { dispatched = x })
    pub opens :
        (invoice : Invoice) (a : Assignment (h.numbers.Real)) (at : Instant) (s : CaseState h)
        → has invoice.id s.opened_invoices ≡ false
        → P s
        → P (
            with_entry h
              (entry_of h invoice.merchant_id holdout_assigned at (assigned_detail h invoice a))
              (mark_opened h invoice.id s))
    pub reverses :
        (s : CaseState h) (p : ReversalPayload) (merchant : String) (at : Instant)
        → P s
        → P (record s { ledger = record_reversal s.ledger p merchant at (some h.processor_id) })
    pub reinstates :
        (s : CaseState h) (p : ReversalPayload) (merchant : String) (at : Instant)
        → P s
        → P (record s {
          ledger = record_reversal_reverted s.ledger p merchant at (some h.processor_id);
        })

  module _ {P : CaseState h → Type 0} (arrives : Arrives P) where
    open_once :
        (opened : Bool) (invoice : Invoice) (a : Assignment (h.numbers.Real)) (at : Instant)
        → Triple
            (λ s. P s × (has invoice.id s.opened_invoices ≡ opened))
            (when h (not opened) (open_new h invoice a at))
            (λ u. P)
            P
    unfolding open_new
    open_once true invoice a at = Triple-pure tt (λ s q. q.0)
    open_once false invoice a at = Triple-modify _ (λ s q. arrives.opens invoice a at s q.1 q.0)

    pub open_case-Keeps :
        (invoice : Invoice) (stratum : Stratum) (at : Instant)
        → Keeps P (open_case h invoice stratum at)
    unfolding open_case
    open_case-Keeps invoice stratum at = Triple-bind _ _ (Keeps-lift _) (λ a.
        Triple-bind _ _ (Triple-gets (λ s. has invoice.id s.opened_invoices) (λ s q. (q, refl)))
          (λ opened. Triple-bind _ _ (open_once opened invoice a at) (λ u. Keeps-pure _)))

    call_dispatcher-Keeps : (r : DurableRecoveryRequest) → Keeps P (call_dispatcher h r)
    unfolding call_dispatcher
    call_dispatcher-Keeps r = record {
      run = λ s b.
          let q = arrives.dispatched s (h.dispatch r s.dispatched).1 b in
          Ends-either (λ u. P) P (h.dispatch r s.dispatched).0 _ (λ u. q) q;
    }

    dispatch-Keeps :
        (invoice : Invoice) (m : Option PaymentMethod) (d : Option DeclineEvent)
        (c : Option Customer)
        → Keeps P (dispatch_durable_recovery h invoice m d c)
    dispatch-Keeps invoice none d c = Keeps-pure tt
    dispatch-Keeps invoice (some m) d c = call_dispatcher-Keeps _

    treat-Keeps :
        (bucket : Arm) (invoice : Invoice) (p : FailurePayload) → Keeps P (treat h bucket invoice p)
    unfolding plan_recovery
    treat-Keeps control invoice p = Keeps-pure tt
    treat-Keeps treatment invoice p =
        Keeps-bind _ _
          (Keeps-bind _ _ (Keeps-gets _) (λ n.
            Keeps-bind _ _ (plan_attempt-Keeps h (arrives.calm) invoice none p.decline _)
              (λ d. Keeps-pure tt)))
          (λ u.
            when-Keeps h h.durable_recovery _
              (dispatch-Keeps invoice p.method p.decline p.customer))

    handle_failure-Keeps :
        (invoice : Invoice) (p : FailurePayload) (at : Instant)
        → Keeps P (handle_failure h invoice p at)
    unfolding handle_failure
    handle_failure-Keeps invoice p at = Keeps-bind _ _ (open_case-Keeps invoice _ at) (λ bucket.
        Keeps-bind _ _
          (Keeps-modify {P = P} (observe_customer h invoice p.customer at)
            (λ s q. arrives.features s _ q))
          (λ u.
            Keeps-bind _ _
              (Keeps-modify {P = P} (measure_failure h invoice (code_of p.decline))
                (λ s q. arrives.merchants s _ q))
              (λ v. treat-Keeps bucket invoice p)))

    handle_invoice-Keeps :
        (invoice : Option Invoice) (p : FailurePayload) (at : Instant)
        → Keeps P (handle_if_any h invoice p at)
    handle_invoice-Keeps none p at = Keeps-pure tt
    handle_invoice-Keeps (some invoice) p at = handle_failure-Keeps invoice p at

    handle_payload-Keeps :
        (p : EventPayload) (merchant : String) (at : Instant)
        → Keeps P (handle_payload h p merchant at)
    handle_payload-Keeps (payment_reversed p) merchant at =
        Triple-modify _ (λ s q. arrives.reverses s p merchant at q)
    handle_payload-Keeps (payment_reversal_reverted p) merchant at =
        Triple-modify _ (λ s q. arrives.reinstates s p merchant at q)
    handle_payload-Keeps (invoice_failed p) merchant at = handle_invoice-Keeps p.invoice p at
    handle_payload-Keeps (invoice_paid none) merchant at = Keeps-pure tt
    handle_payload-Keeps (invoice_paid (some invoice)) merchant at =
        Triple-modify _ (λ s q. arrives.merchants s _ q)
    handle_payload-Keeps any_other_event merchant at = Keeps-pure tt

    pub ingest-Keeps : (es : List CanonicalEvent) → Keeps P (ingest h es)
    unfolding ingest handle_event
    ingest-Keeps [] = Keeps-pure tt
    ingest-Keeps (e ∷ es) =
        Keeps-bind _ _ (handle_payload-Keeps e.payload e.merchant_id e.occurred_at)
          (λ u. ingest-Keeps es)
