-- ===== src/RecoveryCase/Reached.antt =====
-- The books agree whatever the service is called with (recovery-case.service.ts).
use ax10m.RecoveryCase.Arrivals.{has-snoc, Arrives, ingest-Keeps}
use ax10m.RecoveryCase.Calls.{Leads, none_yet, ingested, planned, executed}
use text.Mathlib.TextEquality.{eq_iff}
use ax10m.Common.{
  ℕ, ◌+◌, ◌≡◌, ◌∙◌, refl, sym, ap, subst, Bool, true, false, String, Option, some, List, [],
  if◌then◌else◌, arith, Bool-cases, inl, inr, count_if-snoc,
}
use ax10m.Common.Int.{ℤ, pos, leb_ℤ}
use ax10m.Common.Dict.{Dict, str_eq}
use ax10m.Common.Action.{Keeps-end}
use ax10m.Ledger.{LedgerEventType, holdout_assigned, case_reversed, case_reversal_reverted}
use ax10m.BillingRun.{BillingLedgerEntry}
use ax10m.Reversals.{
  net_reversed_for_invoice, net_recovered_for_invoice, ReversalPayload, record_capped,
  settlement_entry, lesser, record_reversal, record_reversal_reverted,
}
use ax10m.Assignment.{Assignment}
use ax10m.RecoveryEngine.FeatureStore.{Instant}
use ax10m.RecoveryCase.{Invoice, CredentialRecord, Host, CaseState, with_entry, entry_of}
use ax10m.RecoveryCase.Intake.{has, mark_opened, assigned_detail}
use ax10m.RecoveryCase.Keeps.{plan_attempt-Keeps}
use ax10m.RecoveryCase.Books.{
  Agree, Books, Books-Calm, entered_uncounted, is_uncounted, opens, openings_of, is_report,
  is_recovery, is_success,
}
use ax10m.RecoveryCase.Capped.{execute-Books}

capped-Agree :
    (type : LedgerEventType) (held : ℤ) (es : List BillingLedgerEntry) (p : ReversalPayload)
    (merchant : String) (at : Option ℕ) (processor : Option String) {m : Dict CredentialRecord}
    {marked : List String}
    → is_uncounted type ≡ true
    → Agree 0 0 es m marked
    → Agree 0 0 (record_capped type held es p merchant at processor) m marked
capped-Agree type held es p merchant at processor q b = elim (Bool-cases (leb_ℤ held (pos 0))) [
  | inl e ↦ rw e b
  | inr e ↦ rw e (
      entered_uncounted 0 0 (settlement_entry type p (lesser p.amount held) merchant at processor) q
        b)
]

opened_twice :
    (b c : Bool) (n : ℕ)
    → (b ≡ true → c ≡ false)
    → n ≡ (if c then 1 else 0)
    → n + (if b then 1 else 0) ≡ (if (if b then true else c) then 1 else 0)
opened_twice b c n f e = ground (arith, f)

module _ (h : Host) where
  -- The first opening of a case.
  opens-Books :
      (invoice : Invoice) (a : Assignment (h.numbers.Real)) (at : Instant) (s : CaseState h)
      → has invoice.id s.opened_invoices ≡ false
      → Books h 0 0 s
      → Books h 0 0 (
          with_entry h
            (entry_of h invoice.merchant_id holdout_assigned at (assigned_detail h invoice a))
            (mark_opened h invoice.id s))
  opens-Books invoice a at s fresh b =
      let e = entry_of h invoice.merchant_id holdout_assigned at (assigned_detail h invoice a) in
      record {
        reported = omega (
          arith,
          b.reported,
          count_if-snoc (λ (x : BillingLedgerEntry). is_report x.type) s.ledger e,
        );
        claimed = omega (
          arith,
          b.claimed,
          count_if-snoc (λ (x : BillingLedgerEntry). is_recovery x.type) s.ledger e,
          count_if-snoc (λ (x : BillingLedgerEntry). is_success x.type) s.ledger e,
        );
        capped = b.capped;
        opened = λ k.
            count_if-snoc (opens k) s.ledger e
            ∙ opened_twice (str_eq invoice.id k) (has k s.opened_invoices) (openings_of k s.ledger)
                (λ q.
                  subst (λ (x : String). has x s.opened_invoices ≡ false)
                    ((eq_iff invoice.id k).0 q) fresh)
                (b.opened k)
            ∙ ap (λ (c : Bool). if c then 1 else 0) (sym (has-snoc k invoice.id s.opened_invoices));
      }

  Books-Arrives : Arrives h (Books h 0 0)
  unfolding record_reversal record_reversal_reverted
  Books-Arrives = record {
    calm = Books-Calm h 0 0;
    features = λ s x b. b;
    merchants = λ s x b. b;
    dispatched = λ s x b. b;
    opens = opens-Books;
    reverses = λ s p merchant at b.
        capped-Agree case_reversed (net_recovered_for_invoice p.invoice_id s.ledger) s.ledger p
          merchant at (some h.processor_id) refl b;
    reinstates = λ s p merchant at b.
        capped-Agree case_reversal_reverted (net_reversed_for_invoice p.invoice_id s.ledger)
          s.ledger p merchant at (some h.processor_id) refl b;
  }

  pub record IsNew (s : CaseState h) : Type 0 where
    pub no_entry : s.ledger ≡ []
    pub no_attempt : s.credential_attempts ≡ []
    pub no_case : s.opened_invoices ≡ []

  new-Books : (s : CaseState h) → IsNew s → Books h 0 0 s
  new-Books s n =
      rw (n.no_entry, n.no_attempt, n.no_case)
        (record { reported = refl; claimed = refl; capped = tt; opened = λ k. refl })

  -- The books agree after any calls of the service.
  pub Leads-Books : {s t : CaseState h} → IsNew s → Leads h s t → Books h 0 0 t
  Leads-Books {s} n none_yet = new-Books s n
  Leads-Books n (ingested es r) = Keeps-end _ (ingest-Keeps h Books-Arrives es) _ (Leads-Books n r)
  Leads-Books n (planned invoice m d k r) =
      Keeps-end _ (plan_attempt-Keeps h (Books-Calm h 0 0) invoice m d k) _ (Leads-Books n r)
  Leads-Books n (executed p r) = Keeps-end _ (execute-Books h p) _ (Leads-Books n r)
