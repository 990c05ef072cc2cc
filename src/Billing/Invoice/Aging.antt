-- ===== src/Billing/Invoice/Aging.antt =====
-- How an invoice ages (packages/billing/src/invoice.ts, `invoiceAsOf`).
use ax10m.Common.{ℕ, ◌≡◌, ◌≤◌, ◌<◌, refl, Option, some, if◌then◌else◌, arith}
use ax10m.Common.Int.{pos, ◌+ℤ◌, ◌≤ℤ◌}
use ax10m.Billing.{Numbers}
use ax10m.Billing.Invoice.{
  Invoice, InvoiceStatus, issued, overdue, is_settled, is_after, compute_finance_charge,
  invoice_as_of,
}

module _ (N : Numbers) where
  open N use {Real}

  status_again :
      (s : InvoiceStatus) (due : Option ℕ) (t u : ℕ)
      → t ≤ u
      → let aged = if is_settled s then s else (if is_after (some t) due then overdue else s) in
        (if is_settled aged then aged else (if is_after (some u) due then overdue else aged))
        ≡ (if is_settled s then s else (if is_after (some u) due then overdue else s))
  status_again s due t u h = ground arith

  -- Ageing an invoice twice is ageing it once to the later instant: a finance charge never accrues
  -- on another one.
  pub invoice_as_of-again :
      (i : Invoice Real) (t u : ℕ)
      → t ≤ u
      → invoice_as_of N (invoice_as_of N i (some t)) (some u) ≡ invoice_as_of N i (some u)
  unfolding invoice_as_of
  invoice_as_of-again i t u h = cc (status_again i.status i.due_at t u h)

  -- An aged invoice is due in its subtotal and a charge that is not negative; until the due date it
  -- owes the subtotal alone, and it is overdue after the due date if it was issued.
  pub invoice_as_of-due :
      (i : Invoice Real) (due t : ℕ)
      → i.due_at ≡ some due
      → i.status ≡ issued
      → let aged = invoice_as_of N i (some t) in
        (aged.total_due ≡ i.subtotal +ℤ aged.finance_charge)
        × (pos 0 ≤ℤ aged.finance_charge)
        × (t ≤ due → (aged.finance_charge ≡ pos 0) × (aged.status ≡ issued))
        × (due < t → aged.status ≡ overdue)
  unfolding invoice_as_of compute_finance_charge
  invoice_as_of-due i due t e s =
      (refl, ground (arith, e), λ h. ground (arith, e, s), λ h. ground (arith, e, s))
