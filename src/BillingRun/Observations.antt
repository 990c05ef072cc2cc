-- ===== src/BillingRun/Observations.antt =====
-- The cohort of a period (apps/api/src/billing/observations.ts).
pub mod Net
pub mod Tenancy
pub mod Cohort
use ax10m.Common.{
  ℕ, Bool, true, false, ◌&&◌, String, Option, none, some, List, [], ◌∷◌, ltb, leb, if◌then◌else◌,
  or_else,
}
use ax10m.Common.Int.{ℤ, pos, ◌+ℤ◌, ◌-ℤ◌, ltb_ℤ}
use ax10m.Common.Dict.{Dict, str_eq, lookup, insert, contains}
use ax10m.Ledger.{
  LedgerEventType, case_recovered, case_reversed, case_reversal_reverted, holdout_assigned,
}
use ax10m.Reconciliation.{Observation, Arm, control, treatment}
use ax10m.BillingRun.{BillingLedgerEntry, BillingPeriod, num, str, is_mine}

-- What an event does to the net amount of its invoice.
abbrev pub settle : LedgerEventType → ℤ → ℤ → ℤ
settle case_recovered net amount = net +ℤ amount
settle case_reversed net amount = net -ℤ amount
settle case_reversal_reverted net amount = net +ℤ amount
settle _ net amount = net

abbrev pub settles : LedgerEventType → Bool
settles case_recovered = true
settles case_reversed = true
settles case_reversal_reverted = true
settles _ = false

-- One round of the loop over the entries that fills `net`.
abbrev pub net_for : BillingLedgerEntry → Option String → Dict ℤ → Dict ℤ
net_for e none net = net
net_for e (some invoice) net =
    if settles e.type
    then insert invoice
        (settle e.type (or_else (lookup invoice net) (pos 0)) (num (lookup "amount" e.detail))) net
    else net

abbrev pub net_step : String → Dict ℤ → BillingLedgerEntry → Dict ℤ
net_step merchant net e =
    if is_mine merchant e then net_for e (str (lookup "invoiceId" e.detail)) net else net

unfoldable pub net_from : String → Dict ℤ → List BillingLedgerEntry → Dict ℤ
net_from merchant net [] = net
net_from merchant net (e ∷ es) = net_from merchant (net_step merchant net e) es

-- The instant is in the window; one that does not parse is not.
abbrev pub in_period : BillingPeriod → Option ℕ → Bool
in_period p none = false
in_period p (some t) = leb p.start_ms t && ltb t p.end_ms

abbrev pub arm_of : Option String → Option Arm
arm_of none = none
arm_of (some b) =
    if str_eq b "treatment"
    then some treatment
    else (if str_eq b "control" then some control else none)

abbrev pub is_assignment : LedgerEventType → Bool
is_assignment holdout_assigned = true
is_assignment _ = false

abbrev pub observation : Dict ℤ → BillingLedgerEntry → String → Arm → Observation
observation net e invoice arm =
    let outcome = or_else (lookup invoice net) (pos 0) in
    record {
      arm = arm;
      cluster = or_else (str (lookup "customerId" e.detail)) invoice;
      stratum = or_else (str (lookup "stratumKey" e.detail)) "default";
      outcome = outcome;
      covariate = num (lookup "amount" e.detail);
      recovered = ltb_ℤ (pos 0) outcome;
    }

abbrev pub observation_for :
    Dict ℤ → BillingLedgerEntry → Option String → Option Arm → Option Observation
observation_for net e (some invoice) (some arm) = some (observation net e invoice arm)
observation_for net e _ _ = none

-- What one entry adds to the cohort, if anything.
abbrev pub observe : Dict ℤ → String → BillingPeriod → BillingLedgerEntry → Option Observation
observe net merchant p e =
    if is_assignment e.type && (is_mine merchant e && in_period p e.occurred_at)
    then observation_for net e (str (lookup "invoiceId" e.detail))
        (arm_of (str (lookup "bucket" e.detail)))
    else none

abbrev pub push_some {ℓ} : {A : Type ℓ} → Option A → List A → List A
push_some none xs = xs
push_some (some x) xs = x ∷ xs

unfoldable pub observe_all :
    Dict ℤ → String → BillingPeriod → List BillingLedgerEntry → List Observation
observe_all net merchant p [] = []
observe_all net merchant p (e ∷ es) =
    push_some (observe net merchant p e) (observe_all net merchant p es)

unfoldable pub reconstruct_observations :
    List BillingLedgerEntry → String → BillingPeriod → List Observation
unfolding net_from observe_all
reconstruct_observations entries merchant p =
    observe_all (net_from merchant [] entries) merchant p entries

-- `[...new Set(...)]`: the merchants in the order in which they first occur.
abbrev pub distinct_from : Dict Bool → List BillingLedgerEntry → List String
distinct_from seen [] = []
distinct_from seen (e ∷ es) =
    let skip = distinct_from seen es in
    let keep_it = distinct_from ((e.merchant_id, true) ∷ seen) es in
    if contains e.merchant_id seen then skip else e.merchant_id ∷ keep_it

unfoldable pub merchants_in_ledger : List BillingLedgerEntry → List String
merchants_in_ledger entries = distinct_from [] entries
