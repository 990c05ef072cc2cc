-- ===== src/BillingRun/Run.antt =====
-- The billing run (apps/api/src/billing/billing-run.ts, with charger.ts and `computeMerchantStatement`
-- of billing.ts). The host stands for what the run calls: the statistics that make a statement of the
-- observations and the watermark, the signature, the ledger that is appended to, and the charger; its
-- calls may change the world in any way. The period is given, which `previousMonth` reads off the
-- calendar.
pub mod Totals
pub mod Charges
use ax10m.Common.{
  ℕ, ◌&&◌, Bool, true, false, String, Option, none, some, List, [], ◌∷◌, ◌++◌, ltb, if◌then◌else◌,
  or_else,
}
use ax10m.Common.Int.{ℤ, pos, ◌+ℤ◌, ltb_ℤ}
use ax10m.Common.Dict.{Dict, str_eq, lookup}
use ax10m.Ledger.{LedgerEventType, uplift_statement}
use ax10m.Reconciliation.{Observation}
use ax10m.Billing.{Numbers}
use ax10m.Billing.Holdout.{
  HoldoutScheduleConfig, HoldoutEconomics, holdout_fraction_for, compute_holdout_economics,
}
use ax10m.BillingRun.{BillingLedgerEntry, BillingPeriod, DetailValue, number, text, opaque, is_mine}
use ax10m.BillingRun.Observations.{reconstruct_observations, merchants_in_ledger}
use ax10m.BillingRun.Watermark.{prior_billed_from_ledger}

pub record BillableResult (Real : Type 0) : Type 0 where
  pub fee : ℤ
  pub lower_dollars_cum : ℤ
  pub billable_increment : ℤ
  pub billable : Bool
  pub gate_reasons : List String
  pub treated_invoices : ℕ
  pub delta_per : Real

pub record SignedBillableStatement (Real : Type 0) : Type 0 where
  pub currency : String
  pub result : BillableResult Real
  pub statement_hash : String
  pub signature : String
  pub signing_key_id : String

pub record BillingChargeRequest : Type 0 where
  pub merchant_id : String
  pub period : String
  pub amount : ℤ
  pub currency : String
  pub statement_hash : String

pub data ChargeStatus : Type 0 where
  charged skipped failed_charge : ChargeStatus

pub record BillingChargeReceipt : Type 0 where
  pub status : ChargeStatus
  pub provider : String
  pub reference : Option String
  pub reason : Option String

pub record Host (Real : Type 0) : Type 1 where
  pub World : Type 0
  pub statement : String → String → List Observation → ℤ → SignedBillableStatement Real
  pub append : World → BillingLedgerEntry → World
  pub charge : World → BillingChargeRequest → World × BillingChargeReceipt

-- `records` says whether `append` is given: without it the run is a preview.
pub record BillingRunOptions (Real : Type 0) : Type 0 where
  pub entries : List BillingLedgerEntry
  pub period : BillingPeriod
  pub now : ℕ
  pub records : Bool
  pub live : Bool
  pub onboarded_at : Dict (Option ℕ)
  pub holdout_schedule : HoldoutScheduleConfig Real

pub record BillingMerchantResult (Real : Type 0) : Type 0 where
  pub merchant_id : String
  pub period : String
  pub signed : SignedBillableStatement Real
  pub econ : HoldoutEconomics Real
  pub charge : Option BillingChargeReceipt

-- The earliest instant of the merchant's entries.
abbrev pub earlier : Option ℕ → Option ℕ → Option ℕ
earlier earliest none = earliest
earlier none (some t) = some t
earlier (some e) (some t) = if ltb t e then some t else some e

abbrev pub earliest_from : String → Option ℕ → List BillingLedgerEntry → Option ℕ
earliest_from merchant earliest [] = earliest
earliest_from merchant earliest (e ∷ es) =
    earliest_from merchant (if is_mine merchant e then earlier earliest e.occurred_at else earliest)
      es

-- `onboardedAtFor(...) ?? nowIso`; the texts that are given are not empty.
abbrev pub onboarded_at_for : String → List BillingLedgerEntry → Dict (Option ℕ) → ℕ → Option ℕ
onboarded_at_for merchant entries explicit now =
    or_else (lookup merchant explicit) (some (or_else (earliest_from merchant none entries) now))

module _ (N : Numbers) (host : Host (N.Real)) where
  open N use {Real}
  open host use {World, statement, append, charge}

  pub record RunState : Type 0 where
    pub world : World
    pub merchants : List (BillingMerchantResult Real)
    pub total_fee : ℤ
    pub total_net_billed : ℤ
    pub total_charged : ℤ

  module _ (opts : BillingRunOptions Real) where
    unfoldable pub compute_merchant_statement : String → SignedBillableStatement Real
    compute_merchant_statement merchant =
        statement merchant opts.period.label
          (reconstruct_observations opts.entries merchant opts.period)
          (prior_billed_from_ledger opts.entries merchant)

    abbrev pub economics_of : String → BillableResult Real → HoldoutEconomics Real
    economics_of merchant r =
        let onboarded = onboarded_at_for merchant opts.entries opts.onboarded_at opts.now in
        compute_holdout_economics N r.fee r.delta_per r.treated_invoices
          (holdout_fraction_for N onboarded (some opts.now) opts.holdout_schedule)

    -- The statement that is recorded; fractions, flags and reasons are `opaque`.
    abbrev pub statement_entry :
        String → SignedBillableStatement Real → HoldoutEconomics Real → BillingLedgerEntry
    statement_entry merchant signed econ =
        let r = signed.result in
        record {
          merchant_id = merchant;
          type = uplift_statement;
          occurred_at = some opts.now;
          detail =
              ("period", text opts.period.label)
              ∷ ("currency", text signed.currency)
              ∷ ("feeMinor", number r.fee)
              ∷ ("lowerDollarsCum", number r.lower_dollars_cum)
              ∷ ("billableIncrement", number r.billable_increment)
              ∷ ("billable", opaque)
              ∷ ("gateReasons", opaque)
              ∷ ("treatedInvoices", number (pos r.treated_invoices))
              ∷ ("holdoutFraction", opaque)
              ∷ ("estimatedHoldoutCost", number econ.estimated_holdout_cost)
              ∷ ("holdoutCredit", number econ.holdout_credit)
              ∷ ("netBilled", number econ.net_billed)
              ∷ ("statementHash", text signed.statement_hash)
              ∷ ("signature", text signed.signature)
              ∷ ("signingKeyId", text signed.signing_key_id)
              ∷ [];
        }

    abbrev pub charge_request :
        String → SignedBillableStatement Real → HoldoutEconomics Real → BillingChargeRequest
    charge_request merchant signed econ = record {
      merchant_id = merchant;
      period = opts.period.label;
      amount = econ.net_billed;
      currency = signed.currency;
      statement_hash = signed.statement_hash;
    }

    -- `live && billable && netBilled > 0`
    abbrev pub collects : SignedBillableStatement Real → HoldoutEconomics Real → Bool
    collects signed econ = opts.live && (signed.result.billable && ltb_ℤ (pos 0) econ.net_billed)

    abbrev pub collect :
        String
        → SignedBillableStatement Real
        → HoldoutEconomics Real
        → World
        → World × Option BillingChargeReceipt
    collect merchant signed econ w =
        let answer = charge w (charge_request merchant signed econ) in
        if collects signed econ then (answer.0, some answer.1) else (w, none)

    abbrev pub charged_amount : Option BillingChargeReceipt → ℤ → ℤ
    charged_amount none net = pos 0
    charged_amount (some receipt) net = elim receipt.status [
      | charged ↦ net
      | skipped ↦ pos 0
      | failed_charge ↦ pos 0
    ]

    -- The end of a round: the totals and the result.
    abbrev pub add_result :
        RunState
        → String
        → SignedBillableStatement Real
        → HoldoutEconomics Real
        → World × Option BillingChargeReceipt
        → RunState
    add_result s merchant signed econ (w, receipt) = record {
      world = w;
      merchants =
          s.merchants
          ++ record {
            merchant_id = merchant;
            period = opts.period.label;
            signed = signed;
            econ = econ;
            charge = receipt;
          }
            ∷ [];
      total_fee = s.total_fee +ℤ signed.result.fee;
      total_net_billed = s.total_net_billed +ℤ econ.net_billed;
      total_charged = s.total_charged +ℤ charged_amount receipt econ.net_billed;
    }

    abbrev pub bill_merchant : RunState → String → RunState
    bill_merchant s merchant =
        let signed = compute_merchant_statement merchant in
        let econ = economics_of merchant signed.result in
        let w =
          if opts.records then append s.world (statement_entry merchant signed econ) else s.world in
        add_result s merchant signed econ (collect merchant signed econ w)

    unfoldable pub bill_all : RunState → List String → RunState
    bill_all s [] = s
    bill_all s (m ∷ ms) = bill_all (bill_merchant s m) ms

    unfoldable pub run_billing : World → RunState
    unfolding bill_all
    run_billing w =
        bill_all
          (record {
            world = w;
            merchants = [];
            total_fee = pos 0;
            total_net_billed = pos 0;
            total_charged = pos 0;
          })
          (merchants_in_ledger opts.entries)
