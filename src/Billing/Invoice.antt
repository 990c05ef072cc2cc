-- ===== src/Billing/Invoice.antt =====
-- The invoice and its finance charge (packages/billing/src/invoice.ts). The description of a line
-- item is left out; the other texts are kept. An instant is `none` where `Date.parse` gives NaN.
pub mod Aging
pub mod Lines
pub mod Accrual
use ax10m.Common.{
  ℕ, ◌+◌, ◌-◌, ◌*◌, Bool, true, false, String, Option, none, some, List, [], ◌∷◌, leb, ltb,
  if◌then◌else◌, or_else,
}
use ax10m.Common.Int.{ℤ, pos, ◌+ℤ◌, ◌-ℤ◌, ltb_ℤ}
use ax10m.Billing.{Numbers, FeeSchedule, PostalAddress, BillingAccount}
use ax10m.Billing.Holdout.{max_ℤ}

pub record InvoiceLineItem (Real : Type 0) : Type 0 where
  pub uplift_measured : ℤ
  pub fee_rate : Real
  pub amount : ℤ

pub data InvoiceStatus : Type 0 where
  issued overdue paid void : InvoiceStatus

pub record BillTo : Type 0 where
  pub legal_entity_name : String
  pub address : PostalAddress
  pub ap_contact_email : String

pub record Invoice (Real : Type 0) : Type 0 where
  pub invoice_number : String
  pub account_id : String
  pub merchant_id : String
  pub period : String
  pub issued_at : Option ℕ
  pub due_at : Option ℕ
  pub currency : String
  pub line_items : List (InvoiceLineItem Real)
  pub subtotal : ℤ
  pub finance_charge : ℤ
  pub total_due : ℤ
  pub po_number : Option String
  pub remit_to : String
  pub estimated_holdout_cost : Option ℤ
  pub bill_to : BillTo
  pub statement_hash : String
  pub fee_schedule_snapshot : FeeSchedule Real
  pub status : InvoiceStatus

pub record StatementForInvoice : Type 0 where
  pub merchant_id : String
  pub period : String
  pub currency : String
  pub fee : ℤ
  pub uplift_lower : ℤ
  pub statement_hash : String
  pub billable : Bool
  pub gross_fee : Option ℤ
  pub holdout_credit : Option ℤ
  pub estimated_holdout_cost : Option ℤ

-- `addDaysIso`
abbrev pub add_days : ℕ → ℕ → ℕ
add_days instant days = instant + days * 86400000

-- A paid or void invoice keeps its status.
abbrev pub is_settled : InvoiceStatus → Bool
is_settled paid = true
is_settled void = true
is_settled _ = false

-- `a > b` on instants that may be NaN.
abbrev pub is_after : Option ℕ → Option ℕ → Bool
is_after (some a) (some b) = ltb b a
is_after _ _ = false

module _ (N : Numbers) where
  open N use {Real, of_int, ratio, mul, div, round}

  abbrev pub fee_item : StatementForInvoice → FeeSchedule Real → InvoiceLineItem Real
  fee_item statement fs = record {
    uplift_measured = statement.uplift_lower;
    fee_rate = fs.fee_rate;
    amount = or_else statement.gross_fee statement.fee;
  }

  abbrev pub credit_item : StatementForInvoice → ℤ → InvoiceLineItem Real
  credit_item statement credit = record {
    uplift_measured = or_else statement.estimated_holdout_cost credit;
    fee_rate = ratio 0 1;
    amount = pos 0 -ℤ credit;
  }

  abbrev pub line_items_of : StatementForInvoice → FeeSchedule Real → List (InvoiceLineItem Real)
  line_items_of statement fs =
      let credit = or_else statement.holdout_credit (pos 0) in
      if ltb_ℤ (pos 0) credit
      then fee_item statement fs ∷ credit_item statement credit ∷ []
      else fee_item statement fs ∷ []

  -- The invoice number is given by `invoiceNumberFor`, a text that the model does not look into.
  unfoldable pub build_invoice :
      (String → String → String)
      → BillingAccount Real
      → StatementForInvoice
      → ℕ
      → String
      → Invoice Real
  build_invoice invoice_number_for account statement issued_at remit_to =
      let fs = account.fee_schedule in
      record {
        invoice_number = invoice_number_for statement.merchant_id statement.period;
        account_id = account.account_id;
        merchant_id = account.merchant_id;
        period = statement.period;
        issued_at = some issued_at;
        due_at = some (add_days issued_at fs.payment_terms_days);
        currency = statement.currency;
        line_items = line_items_of statement fs;
        subtotal = statement.fee;
        finance_charge = pos 0;
        total_due = statement.fee;
        po_number = account.po_number;
        remit_to = remit_to;
        estimated_holdout_cost = statement.estimated_holdout_cost;
        bill_to = record {
          legal_entity_name = account.legal_entity_name;
          address = account.billing_address;
          ap_contact_email = account.ap_contact_email;
        };
        statement_hash = statement.statement_hash;
        fee_schedule_snapshot = fs;
        status = issued;
      }

  -- `subtotal * rate * monthsOverdue`, rounded and floored at 0.
  abbrev pub charge_for : Invoice Real → ℕ → ℤ
  charge_for i overdue_ms =
      let days = div (of_int (pos overdue_ms)) (ratio 86400000 1) in
      let months = div days (ratio 30 1) in
      max_ℤ (pos 0) (
        round (
          mul (mul (of_int i.subtotal) i.fee_schedule_snapshot.late_finance_charge_monthly_rate)
            months))

  unfoldable pub compute_finance_charge : Invoice Real → Option ℕ → ℤ
  compute_finance_charge i as_of = elim i.due_at [
    | none ↦ pos 0
    | some due ↦ elim as_of [
      | none ↦ pos 0
      | some now ↦ if leb now due then pos 0 else charge_for i (now - due)
    ]
  ]

  unfoldable pub invoice_as_of : Invoice Real → Option ℕ → Invoice Real
  unfolding compute_finance_charge
  invoice_as_of i as_of =
      let charge = compute_finance_charge i as_of in
      record i {
        finance_charge = charge;
        total_due = i.subtotal +ℤ charge;
        status =
            if is_settled i.status
            then i.status
            else (if is_after as_of i.due_at then overdue else i.status);
      }
