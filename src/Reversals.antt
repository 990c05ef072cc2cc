-- ===== src/Reversals.antt =====
-- Refunds, chargebacks and won disputes of a recovered payment (apps/api/src/recovery/
-- recovery-case.service.ts): what is taken back or given back is bounded by what the ledger holds.
-- The ledger is the list of its entries; the amount of an entry is a number, and one without an
-- amount counts 0. A part of a detail that is
-- undefined is not in it, and the kind of a reversal is a text.
pub mod Balance
mod Examples
use ax10m.Common.{
  ℕ, Bool, true, false, String, Option, none, some, List, [], ◌∷◌, ◌++◌, if◌then◌else◌,
}
use ax10m.Common.Int.{ℤ, pos, ◌+ℤ◌, ◌-ℤ◌, leb_ℤ}
use ax10m.Common.Dict.{str_eq, lookup}
use ax10m.Ledger.{LedgerEventType, case_recovered, case_reversed, case_reversal_reverted}
use ax10m.BillingRun.{BillingLedgerEntry, DetailValue, number, text, opaque, num}

pub record ReversalPayload : Type 0 where
  pub invoice_id : String
  pub amount : ℤ
  pub currency : String
  pub kind : String
  pub reason : Option String

-- `detail.invoiceId === invoiceId`
abbrev pub is_text : String → Option DetailValue → Bool
is_text s (some (text t)) = str_eq t s
is_text s _ = false

-- What an event adds to the net recovered amount, and to the net reversed amount.
abbrev pub recover_by : LedgerEventType → ℤ → ℤ → ℤ
recover_by case_recovered net amount = net +ℤ amount
recover_by case_reversed net amount = net -ℤ amount
recover_by _ net amount = net

abbrev pub reverse_by : LedgerEventType → ℤ → ℤ → ℤ
reverse_by case_reversed reversed amount = reversed +ℤ amount
reverse_by case_reversal_reverted reversed amount = reversed -ℤ amount
reverse_by _ reversed amount = reversed

-- One round of the loop, for either sum.
abbrev pub sum_step : (LedgerEventType → ℤ → ℤ → ℤ) → String → ℤ → BillingLedgerEntry → ℤ
sum_step by invoice net e =
    if is_text invoice (lookup "invoiceId" e.detail)
    then by e.type net (num (lookup "amount" e.detail))
    else net

unfoldable pub sum_from : (LedgerEventType → ℤ → ℤ → ℤ) → String → ℤ → List BillingLedgerEntry → ℤ
sum_from by invoice net [] = net
sum_from by invoice net (e ∷ es) = sum_from by invoice (sum_step by invoice net e) es

-- `netRecoveredForInvoice` and `netReversedForInvoice`
abbrev pub net_recovered_for_invoice : String → List BillingLedgerEntry → ℤ
net_recovered_for_invoice invoice es = sum_from recover_by invoice (pos 0) es

abbrev pub net_reversed_for_invoice : String → List BillingLedgerEntry → ℤ
net_reversed_for_invoice invoice es = sum_from reverse_by invoice (pos 0) es

-- `Math.min`
abbrev pub lesser : ℤ → ℤ → ℤ
lesser a b = if leb_ℤ a b then a else b

-- A key whose text may be undefined.
abbrev pub optional : String → Option String → List (String × DetailValue)
optional key none = []
optional key (some s) = (key, text s) ∷ []

abbrev pub settlement_entry :
    LedgerEventType → ReversalPayload → ℤ → String → Option ℕ → Option String → BillingLedgerEntry
settlement_entry type p amount merchant occurred_at processor = record {
  merchant_id = merchant;
  type = type;
  occurred_at = occurred_at;
  detail =
      ("invoiceId", text p.invoice_id)
      ∷ (optional "processor" processor
          ++ ("amount", number amount)
            ∷ ("currency", text p.currency)
            ∷ ("kind", text p.kind)
            ∷ optional "reason" p.reason);
}

abbrev pub record_capped :
    LedgerEventType
    → ℤ
    → List BillingLedgerEntry
    → ReversalPayload
    → String
    → Option ℕ
    → Option String
    → List BillingLedgerEntry
record_capped type held es p merchant occurred_at processor =
    if leb_ℤ held (pos 0)
    then es
    else es ++ settlement_entry type p (lesser p.amount held) merchant occurred_at processor ∷ []

unfoldable pub record_reversal :
    List BillingLedgerEntry
    → ReversalPayload
    → String
    → Option ℕ
    → Option String
    → List BillingLedgerEntry
record_reversal es p merchant occurred_at processor =
    record_capped case_reversed (net_recovered_for_invoice p.invoice_id es) es p merchant
      occurred_at processor

unfoldable pub record_reversal_reverted :
    List BillingLedgerEntry
    → ReversalPayload
    → String
    → Option ℕ
    → Option String
    → List BillingLedgerEntry
record_reversal_reverted es p merchant occurred_at processor =
    record_capped case_reversal_reverted (net_reversed_for_invoice p.invoice_id es) es p merchant
      occurred_at processor
