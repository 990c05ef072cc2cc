-- ===== src/BillingRun.antt =====
-- The monthly billing of apps/api/src/billing: the observations and the watermark that are read back
-- from the ledger (observations.ts, billing.ts) and the run over all merchants (billing-run.ts). The
-- detail of an entry keeps the numbers and texts; anything else in it is `opaque`.
pub mod Observations
pub mod Watermark
pub mod Run
mod Examples
use ax10m.Common.{ℕ, Bool, true, false, String, Option, none, some, List, [], ◌∷◌, if◌then◌else◌}
use ax10m.Common.Int.{ℤ, pos}
use ax10m.Common.Dict.{Dict, str_eq, lookup}
use ax10m.Ledger.{
  LedgerEventType, case_recovered, case_reversed, case_reversal_reverted, holdout_assigned,
  uplift_statement,
}

pub data DetailValue : Type 0 where
  number : ℤ → DetailValue
  text : String → DetailValue
  opaque : DetailValue

pub record BillingLedgerEntry : Type 0 where
  pub merchant_id : String
  pub type : LedgerEventType
  pub occurred_at : Option ℕ
  pub detail : Dict DetailValue

-- A period from its first instant up to its end, the end not included.
pub record BillingPeriod : Type 0 where
  pub label : String
  pub start_ms : ℕ
  pub end_ms : ℕ

-- `num`
abbrev pub num : Option DetailValue → ℤ
num (some (number n)) = n
num _ = pos 0

-- `str`: a text that is not empty.
abbrev pub str : Option DetailValue → Option String
str (some (text s)) = if str_eq s "" then none else some s
str _ = none

-- `e.merchantId === merchantId`
abbrev pub is_mine : String → BillingLedgerEntry → Bool
is_mine merchant e = str_eq e.merchant_id merchant
