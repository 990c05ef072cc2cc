-- ===== src/Reconciliation.antt =====
-- The CFO reconciliation of packages/attribution/src/reconciliation.ts: arm summaries, net
-- recoveries and the tie-out against the processor's payout export. Amounts are integers in minor
-- units. A line keeps the list of its invoice ids, which the source joins by commas.
pub mod Keys
pub mod Totals
pub mod TieOut
mod Examples
use ax10m.Common.{
  ℕ, suc, ◌+◌, ◌≤◌, Bool, true, false, ◌&&◌, not, String, Option, none, some, List, [], ◌∷◌, ◌++◌,
  length, ◌==◌, ltb, leb, if◌then◌else◌, or_else, keep,
}
use ax10m.Common.Int.{ℤ, pos, ◌+ℤ◌, ◌-ℤ◌, ltb_ℤ, abs, pos_part}
use ax10m.Common.Dict.{Dict, lookup, insert, contains}

pub data Arm : Type 0 where
  control treatment : Arm

pub data Settlement : Type 0 where
  recovered failed pending : Settlement

-- The settlement detail that the reconciliation reads; dates, currency and decline code are left
-- out, which are only printed.
pub record SettledOutcome : Type 0 where
  pub invoice_id : String
  pub customer_id : String
  pub arm : Arm
  pub stratum : String
  pub outcome : Settlement
  pub invoice_amount : ℤ
  pub recovered_amount : ℤ
  pub processor_txn_id : Option String
  pub reversal_amount : Option ℤ

-- `UpliftObservation`
pub record Observation : Type 0 where
  pub arm : Arm
  pub cluster : String
  pub stratum : String
  pub outcome : ℤ
  pub covariate : ℤ
  pub recovered : Bool

-- `o.outcome === 'recovered'`
abbrev pub is_recovered : Settlement → Bool
is_recovered recovered = true
is_recovered _ = false

-- `Math.max(0, recoveredAmount - (reversalAmount ?? 0))`
unfoldable pub net_recovered : SettledOutcome → ℤ
unfolding ◌-ℤ◌
net_recovered o = pos (pos_part (o.recovered_amount -ℤ or_else o.reversal_amount (pos 0)))

unfoldable pub settled_outcome_to_observation : SettledOutcome → Observation
unfolding net_recovered
settled_outcome_to_observation o = record {
  arm = o.arm;
  cluster = o.customer_id;
  stratum = o.stratum;
  outcome = net_recovered o;
  covariate = o.invoice_amount;
  recovered = is_recovered o.outcome;
}

pub record ArmSummary : Type 0 where
  pub invoices : ℕ
  pub recovered : ℕ
  pub recovered_amount : ℤ
  pub reversed_amount : ℤ

-- One round of the loop in `armSummary`.
abbrev pub summarize : ArmSummary → SettledOutcome → ArmSummary
summarize s o = record s {
  recovered = if is_recovered o.outcome then s.recovered + 1 else s.recovered;
  recovered_amount =
      if is_recovered o.outcome
      then s.recovered_amount +ℤ o.recovered_amount
      else s.recovered_amount;
  reversed_amount = s.reversed_amount +ℤ or_else o.reversal_amount (pos 0);
}

pub summarize_all : ArmSummary → List SettledOutcome → ArmSummary
summarize_all s [] = s
summarize_all s (o ∷ os) = summarize_all (summarize s o) os

unfoldable pub arm_summary : List SettledOutcome → ArmSummary
unfolding summarize_all
arm_summary rows =
    summarize_all
      (record {
        invoices = length rows;
        recovered = 0;
        recovered_amount = pos 0;
        reversed_amount = pos 0;
      })
      rows

pub record PayoutRow : Type 0 where
  pub key : String
  pub settled_amount : ℤ

-- Our side of one key: what we claim, and the invoices behind it.
pub record Claim : Type 0 where
  pub ours : ℤ
  pub invoice_ids : List String

pub record ReconLine : Type 0 where
  pub key : String
  pub invoice_ids : List String
  pub ours : ℤ
  pub theirs : Option ℤ
  pub delta : ℤ
  pub is_match : Bool

pub record ReconState : Type 0 where
  pub lines : List ReconLine
  pub ours_total : ℤ
  pub theirs_total : ℤ
  pub matched : ℕ
  pub mismatched : ℕ
  pub missing_in_payout : ℕ

pub record ReconResult : Type 0 where
  pub state : ReconState
  pub open state use *
  pub extra_in_payout : ℕ
  pub ties_out : Bool

-- `payoutByKey`: `m.set(key, (m.get(key) ?? 0) + amount)` for each row.
unfoldable pub payout_by_key : Dict ℤ → List PayoutRow → Dict ℤ
payout_by_key m [] = m
payout_by_key m (p ∷ ps) =
    payout_by_key (insert p.key (or_else (lookup p.key m) (pos 0) +ℤ p.settled_amount) m) ps

abbrev pub is_claimed : SettledOutcome → Bool
is_claimed o = is_recovered o.outcome && ltb_ℤ (pos 0) o.recovered_amount

-- `o.processorTxnId ?? o.invoiceId`
abbrev pub match_key : SettledOutcome → String
match_key o = or_else o.processor_txn_id o.invoice_id

abbrev pub add_claim : Claim → SettledOutcome → Claim
add_claim agg o = record {
  ours = agg.ours +ℤ o.recovered_amount;
  invoice_ids = agg.invoice_ids ++ o.invoice_id ∷ [];
}

abbrev pub no_claim : Claim
no_claim = record { ours = pos 0; invoice_ids = [] }

-- `oursByKey`
unfoldable pub ours_by_key : Dict Claim → List SettledOutcome → Dict Claim
ours_by_key m [] = m
ours_by_key m (o ∷ os) =
    ours_by_key (insert (match_key o) (add_claim (or_else (lookup (match_key o) m) no_claim) o) m)
      os

-- `theirs !== null && Math.abs(delta) <= tolerance`
abbrev pub within : Option ℤ → ℤ → ℕ → Bool
within none delta tolerance = false
within (some t) delta tolerance = leb (abs delta) tolerance

abbrev pub count_missing : Option ℤ → ℕ
count_missing none = 1
count_missing (some t) = 0

abbrev pub count_matched : Option ℤ → Bool → ℕ
count_matched (some t) true = 1
count_matched _ _ = 0

abbrev pub count_mismatched : Option ℤ → Bool → ℕ
count_mismatched (some t) false = 1
count_mismatched _ _ = 0

-- One round of the loop over `oursByKey`.
abbrev pub recon_line : ℕ → Dict ℤ → String → Claim → ReconLine
recon_line tolerance payout key agg =
    let theirs = lookup key payout in
    let delta = agg.ours -ℤ or_else theirs (pos 0) in
    record {
      key = key;
      invoice_ids = agg.invoice_ids;
      ours = agg.ours;
      theirs = theirs;
      delta = delta;
      is_match = within theirs delta tolerance;
    }

abbrev pub add_line : ReconState → ReconLine → ReconState
add_line s l = record {
  lines = s.lines ++ l ∷ [];
  ours_total = s.ours_total +ℤ l.ours;
  theirs_total = s.theirs_total +ℤ or_else l.theirs (pos 0);
  matched = s.matched + count_matched l.theirs l.is_match;
  mismatched = s.mismatched + count_mismatched l.theirs l.is_match;
  missing_in_payout = s.missing_in_payout + count_missing l.theirs;
}

unfoldable pub recon_lines : ℕ → Dict ℤ → ReconState → Dict Claim → ReconState
recon_lines tolerance payout s [] = s
recon_lines tolerance payout s ((key, agg) ∷ m) =
    recon_lines tolerance payout (add_line s (recon_line tolerance payout key agg)) m

abbrev pub recon_start : ReconState
recon_start = record {
  lines = [];
  ours_total = pos 0;
  theirs_total = pos 0;
  matched = 0;
  mismatched = 0;
  missing_in_payout = 0;
}

unfoldable pub reconcile_against_payout : List SettledOutcome → List PayoutRow → ℕ → ReconResult
unfolding payout_by_key ours_by_key recon_lines
reconcile_against_payout rows payout tolerance =
    let theirs = payout_by_key [] payout in
    let ours = ours_by_key [] (keep is_claimed rows) in
    let s = recon_lines tolerance theirs recon_start ours in
    record {
      state = s;
      extra_in_payout = length (keep (λ e. not (contains e.0 ours)) theirs);
      ties_out =
          s.mismatched == 0
          && (s.missing_in_payout == 0 && leb (abs (s.ours_total -ℤ s.theirs_total)) tolerance);
    }
