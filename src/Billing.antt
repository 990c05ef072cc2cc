-- ===== src/Billing.antt =====
-- The fee of packages/billing/src: the billing account (account.ts), the economics of the holdout
-- (holdout-economics.ts), the invoice with its finance charge (invoice.ts) and the reminders for it
-- (invoice-dunning.ts). The opt-in and its signed acceptance are in child modules. Amounts are integers in minor units, instants are milliseconds, and an
-- instant that `Date.parse` rejects is `none`. Fractional numbers are any type with the operations
-- that the code uses (`Numbers`).
pub mod Holdout
pub mod Invoice
pub mod Dunning
pub mod OptIn
pub mod Acceptance
mod Examples
use ax10m.Common.{ℕ, Bool, String, Option}
use ax10m.Common.Int.{ℤ}

-- JavaScript's fractional numbers. `ratio a b` is the literal a/b, `round` is `Math.round`, and
-- `lt` is `<`.
pub record Numbers : Type 1 where
  pub Real : Type 0
  pub of_int : ℤ → Real
  pub ratio : ℕ → ℕ → Real
  pub sub : Real → Real → Real
  pub mul : Real → Real → Real
  pub div : Real → Real → Real
  pub min_of : Real → Real → Real
  pub max_of : Real → Real → Real
  pub lt : Real → Real → Bool
  pub round : Real → ℤ

pub data PayerTrack : Type 0 where
  auto_pay invoice_track : PayerTrack

pub data BillingAccountStatus : Type 0 where
  pending active suspended cancelled : BillingAccountStatus

pub record PostalAddress : Type 0 where
  pub line1 : String
  pub line2 : Option String
  pub city : String
  pub region : String
  pub postal_code : String
  pub country : String

pub record FeeSchedule (Real : Type 0) : Type 0 where
  pub fee_rate : Real
  pub currency : String
  pub payment_terms_days : ℕ
  pub late_finance_charge_monthly_rate : Real

pub record BillingAccount (Real : Type 0) : Type 0 where
  pub account_id : String
  pub merchant_id : String
  pub legal_entity_name : String
  pub billing_address : PostalAddress
  pub tax_id : Option String
  pub ap_contact_email : String
  pub po_required : Bool
  pub po_number : Option String
  pub payer_track : PayerTrack
  pub payment_method_ref : Option String
  pub customer_ref : Option String
  pub fee_schedule : FeeSchedule Real
  pub status : BillingAccountStatus
  pub created_at : String
