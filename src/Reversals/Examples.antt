-- ===== src/Reversals/Examples.antt =====
-- Instances of the theorems on reversals.
use ax10m.Common.{◌≡◌, refl, some, none, List, [], ◌∷◌, arith}
use ax10m.Common.Int.{pos, ◌≤ℤ◌, ◌+ℤ◌, ◌-ℤ◌}
use ax10m.Ledger.{case_recovered}
use ax10m.BillingRun.{BillingLedgerEntry, text, number}
use ax10m.Reversals.{
  ReversalPayload, net_recovered_for_invoice, net_reversed_for_invoice, record_reversal,
  record_reversal_reverted, sum_from,
}
use ax10m.Reversals.Balance.{
  Written, empty, plain, reverses, reinstates, Written-Balanced, record_reversal_reverted-cap,
}

abbrev recovery : BillingLedgerEntry
recovery = record {
  merchant_id = "m_1";
  type = case_recovered;
  occurred_at = some 10;
  detail = ("invoiceId", text "in_1") ∷ ("amount", number (pos 900)) ∷ [];
}

abbrev dispute : ReversalPayload
dispute = record {
  invoice_id = "in_1";
  amount = pos 900;
  currency = "USD";
  kind = "dispute";
  reason = none;
}

-- Recovered, disputed, won, and refunded.
abbrev once_recovered : List BillingLedgerEntry
once_recovered = recovery ∷ []

abbrev disputed : List BillingLedgerEntry
disputed = record_reversal once_recovered dispute "m_1" (some 20) none

abbrev won : List BillingLedgerEntry
won = record_reversal_reverted disputed dispute "m_1" (some 30) none

abbrev refunded : List BillingLedgerEntry
refunded = record_reversal won dispute "m_1" (some 40) none

-- The refund after the won dispute is dropped.
refund_dropped : refunded ≡ won
unfolding record_reversal record_reversal_reverted sum_from ◌+ℤ◌ ◌-ℤ◌
refund_dropped = refl

recovery-Written : Written once_recovered
recovery-Written = plain recovery (λ e. absurd (cc), λ e. absurd (cc), omega arith) empty

Written-Balanced_example :
    (pos 0 ≤ℤ net_recovered_for_invoice "in_1" refunded)
    × (pos 0 ≤ℤ net_reversed_for_invoice "in_1" refunded)
Written-Balanced_example =
    Written-Balanced
      (reverses dispute "m_1" (some 40) none (omega arith) (
        reinstates dispute "m_1" (some 30) none (omega arith)
          (reverses dispute "m_1" (some 20) none (omega arith) recovery-Written)))
      "in_1"

record_reversal_reverted-cap_example :
    net_recovered_for_invoice "in_1" won ≡ net_recovered_for_invoice "in_1" disputed
record_reversal_reverted-cap_example =
    record_reversal_reverted-cap disputed dispute "m_1" (some 30) none "in_1"
