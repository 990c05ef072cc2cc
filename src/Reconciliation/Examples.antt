-- ===== src/Reconciliation/Examples.antt =====
-- Instances of the reconciliation theorems.
use ax10m.Common.{◌≡◌, refl, true, none, some, [], List, ◌∷◌, keep}
use ax10m.Common.Int.{pos, ◌-ℤ◌, ◌+ℤ◌}
use ax10m.Reconciliation.{
  SettledOutcome, PayoutRow, is_claimed, reconcile_against_payout, treatment, recovered, failed,
}
use ax10m.Reconciliation.TieOut.{Agrees, ties_out_iff}
use ax10m.Reconciliation.Keys.{payout_total, claimed_total}

-- Two invoices settled by one transaction, and one that failed.
abbrev settled_rows : List SettledOutcome
settled_rows =
    record {
      invoice_id = "in_1";
      customer_id = "c_1";
      arm = treatment;
      stratum = "s";
      outcome = recovered;
      invoice_amount = pos 900;
      recovered_amount = pos 900;
      processor_txn_id = some "tx";
      reversal_amount = none;
    }
    ∷ record {
      invoice_id = "in_2";
      customer_id = "c_1";
      arm = treatment;
      stratum = "s";
      outcome = recovered;
      invoice_amount = pos 100;
      recovered_amount = pos 100;
      processor_txn_id = some "tx";
      reversal_amount = none;
    }
    ∷ record {
      invoice_id = "in_3";
      customer_id = "c_2";
      arm = treatment;
      stratum = "s";
      outcome = failed;
      invoice_amount = pos 50;
      recovered_amount = pos 0;
      processor_txn_id = none;
      reversal_amount = none;
    }
    ∷ []

abbrev payout_rows : List PayoutRow
payout_rows = record { key = "tx"; settled_amount = pos 1000 } ∷ []

ties_out : (reconcile_against_payout settled_rows payout_rows 0).ties_out ≡ true
unfolding reconcile_against_payout ◌-ℤ◌ ◌+ℤ◌
ties_out = refl

ties_out_iff_example :
    Agrees
      (claimed_total "tx" none (keep is_claimed settled_rows))
      (payout_total "tx" none payout_rows)
ties_out_iff_example = (ties_out_iff settled_rows payout_rows).0 ties_out "tx"
