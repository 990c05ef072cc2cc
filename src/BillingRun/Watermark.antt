-- ===== src/BillingRun/Watermark.antt =====
-- The prior-billed watermark (apps/api/src/billing/billing.ts, `priorBilledFromLedger`).
use ax10m.Common.{
  ℕ, ◌≤◌, ◌&&◌, Bool, true, false, String, Option, none, some, List, [], ◌∷◌, leb, if◌then◌else◌,
}
use ax10m.Common.Int.{ℤ, pos}
use ax10m.Common.Dict.{lookup}
use ax10m.Ledger.{LedgerEventType, uplift_statement}
use ax10m.BillingRun.{BillingLedgerEntry, DetailValue, number, is_mine}

-- `latestAt`, `none` for -Infinity, and the watermark.
pub record Watermark : Type 0 where
  pub latest_at : Option ℕ
  pub watermark : ℤ

abbrev pub is_statement : LedgerEventType → Bool
is_statement uplift_statement = true
is_statement _ = false

-- `t >= latestAt`
abbrev pub not_before : ℕ → Option ℕ → Bool
not_before t none = true
not_before t (some l) = leb l t

-- A statement whose instant parses and whose `lowerDollarsCum` is a number.
abbrev pub take_statement : Watermark → Option ℕ → Option DetailValue → Watermark
take_statement w (some t) (some (number cum)) =
    if not_before t w.latest_at then record { latest_at = some t; watermark = cum } else w
take_statement w _ _ = w

abbrev pub watermark_step : String → Watermark → BillingLedgerEntry → Watermark
watermark_step merchant w e =
    if is_statement e.type && is_mine merchant e
    then take_statement w e.occurred_at (lookup "lowerDollarsCum" e.detail)
    else w

unfoldable pub watermark_from : String → Watermark → List BillingLedgerEntry → Watermark
watermark_from merchant w [] = w
watermark_from merchant w (e ∷ es) = watermark_from merchant (watermark_step merchant w e) es

unfoldable pub prior_billed_from_ledger : List BillingLedgerEntry → String → ℤ
unfolding watermark_from
prior_billed_from_ledger entries merchant =
    (watermark_from merchant (record { latest_at = none; watermark = pos 0 }) entries).watermark

-- An instant is not after `now`, if it parses.
abbrev pub NotAfter : ℕ → Option ℕ → Type 0
NotAfter now none = Unit {0}
NotAfter now (some t) = t ≤ now
