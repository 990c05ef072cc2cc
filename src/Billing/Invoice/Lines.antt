-- ===== src/Billing/Invoice/Lines.antt =====
-- The lines of an invoice add up (packages/billing/src/invoice.ts, `buildInvoice`).
use ax10m.Common.{
  ℕ, ◌≡◌, refl, ap, ap₂, subst, Bool-cases, inl, inr, ◌∙◌, sym, String, some, List, [], ◌∷◌,
  if◌then◌else◌, or_else, arith,
}
use ax10m.Common.Int.{ℤ, pos, ◌+ℤ◌, ◌-ℤ◌, ltb_ℤ, ◌≤ℤ◌}
use ax10m.Billing.{Numbers, BillingAccount, FeeSchedule}
use ax10m.Billing.Holdout.{max_ℤ, compute_holdout_economics, compute_holdout_economics-split}
use ax10m.Billing.Invoice.{InvoiceLineItem, StatementForInvoice, line_items_of, build_invoice}

abbrev pub sum_items : {R : Type 0} → List (InvoiceLineItem R) → ℤ
sum_items [] = pos 0
sum_items (l ∷ ls) = l.amount +ℤ sum_items ls

-- A statement bills what the holdout economics leave of its gross fee.
abbrev pub Bills : (N : Numbers) → StatementForInvoice → ℕ → N.Real → N.Real → Type 0
Bills N s treated lift fraction =
    (gross : ℤ) × (s.gross_fee ≡ some gross)
    × (pos 0 ≤ℤ gross)
    × (s.fee ≡ (compute_holdout_economics N gross lift treated fraction).net_billed)
    × (s.holdout_credit
        ≡ some (compute_holdout_economics N gross lift treated fraction).holdout_credit)

lines_sum :
    (gross credit net : ℤ)
    → pos 0 ≤ℤ credit
    → pos 0 ≤ℤ gross
    → net +ℤ credit ≡ max_ℤ (pos 0) gross
    → (if ltb_ℤ (pos 0) credit then gross +ℤ ((pos 0 -ℤ credit) +ℤ pos 0) else gross +ℤ pos 0) ≡ net
unfolding ◌+ℤ◌ ◌-ℤ◌
lines_sum gross credit net h k e = ground arith

module _ (N : Numbers) (f : String → String → String) where
  open N use {Real}

  items_sum :
      (s : StatementForInvoice) (fs : FeeSchedule Real)
      → let gross = or_else s.gross_fee s.fee in
        let credit = or_else s.holdout_credit (pos 0) in
        sum_items (line_items_of N s fs)
        ≡ (if ltb_ℤ (pos 0) credit then gross +ℤ ((pos 0 -ℤ credit) +ℤ pos 0) else gross +ℤ pos 0)
  items_sum s fs = elim (Bool-cases (ltb_ℤ (pos 0) (or_else s.holdout_credit (pos 0)))) [
    | inl e ↦ rw e refl
    | inr e ↦ rw e refl
  ]

  -- If the statement bills what the holdout economics leave of a gross fee that is not negative,
  -- the lines of its invoice, the fee and the credit against it, add up to the subtotal and to the
  -- total due.
  pub build_invoice-adds_up :
      (account : BillingAccount Real) (s : StatementForInvoice) (issued_at : ℕ) (remit_to : String)
      (treated : ℕ) (lift fraction : Real)
      → Bills N s treated lift fraction
      → let i = build_invoice N f account s issued_at remit_to in
        (sum_items i.line_items ≡ i.subtotal) × (i.total_due ≡ i.subtotal)
  unfolding build_invoice
  build_invoice-adds_up account s issued_at remit_to treated lift fraction (gross, g, p, n, c) =
      let e = compute_holdout_economics-split N gross lift treated fraction in
      let gross_is : or_else s.gross_fee s.fee ≡ gross = ap (λ o. or_else o s.fee) g in
      let credit_is = ap (λ o. or_else o (pos 0)) c in
      (
        items_sum s account.fee_schedule
            ∙ lines_sum (or_else s.gross_fee s.fee) (or_else s.holdout_credit (pos 0)) s.fee
                (subst (λ x. pos 0 ≤ℤ x) (sym credit_is) e.1)
                (subst (λ x. pos 0 ≤ℤ x) (sym gross_is) p)
                (ap₂ (λ x y. x +ℤ y) n credit_is ∙ e.3 ∙ ap (max_ℤ (pos 0)) (sym gross_is)),
        refl,
      )
