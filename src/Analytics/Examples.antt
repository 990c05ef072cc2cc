-- ===== src/Analytics/Examples.antt =====
-- An instance of the theorem on the report, and a report of two processors.
use ax10m.Common.{ℕ, ◌*◌, ◌-◌, ◌≡◌, refl, String, some, none, List, [], ◌∷◌, ltb, min, max, map}
use ax10m.Common.Int.{pos, pos_part, ◌+ℤ◌, ◌-ℤ◌}
use ax10m.Ledger.{LedgerEventType, case_recovered, case_reversed, charge_succeeded}
use ax10m.Billing.{Numbers}
use ax10m.BillingRun.{BillingLedgerEntry, text, number}
use ax10m.Analytics.{PnlOptions, PnlReport, compute_pnl}
use ax10m.Analytics.Splits.{SplitsBy, compute_pnl-splits}

abbrev whole : Numbers
whole = record {
  Real = ℕ;
  of_int = pos_part;
  ratio = λ a b. a;
  sub = λ a b. a - b;
  mul = λ a b. a * b;
  div = λ a b. a;
  min_of = min;
  max_of = max;
  lt = ltb;
  round = pos;
}

abbrev entry : LedgerEventType → String → ℕ → BillingLedgerEntry
entry type processor amount = record {
  merchant_id = "m_1";
  type = type;
  occurred_at = some 1800000000000;
  detail = ("processor", text processor) ∷ ("amount", number (pos amount)) ∷ [];
}

abbrev entries : List BillingLedgerEntry
entries =
    entry case_recovered "stripe" 900
    ∷ entry charge_succeeded "stripe" 0
    ∷ entry case_recovered "adyen" 2000
    ∷ entry case_reversed "stripe" 300
    ∷ []

abbrev options : PnlOptions whole
options = record { now = 1800000000001; fee_rate = none; currency = none; series_days = some 1 }

abbrev one_day : ℕ → String
one_day at = "2027-01-15"

abbrev shown : PnlReport whole
shown = compute_pnl whole one_day entries options

-- The processor with the greater fee comes first.
by_fee : map (λ p. p.totals.recovered) shown.processors ≡ pos 2000 ∷ pos 600 ∷ []
unfolding compute_pnl ◌+ℤ◌ ◌-ℤ◌
by_fee = refl

compute_pnl-splits_example :
    SplitsBy whole (λ t. t.recovered) shown
    × SplitsBy whole (λ t. t.gross) shown
    × SplitsBy whole (λ t. t.reversed) shown
    × SplitsBy whole (λ t. t.reinstated) shown
    × SplitsBy whole (λ t. pos t.recoveries) shown
    × SplitsBy whole (λ t. pos t.attempts) shown
compute_pnl-splits_example = compute_pnl-splits whole one_day entries options
