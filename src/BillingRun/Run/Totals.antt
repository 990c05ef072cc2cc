-- ===== src/BillingRun/Run/Totals.antt =====
-- The summary of a billing run adds up (apps/api/src/billing/billing-run.ts).
use ax10m.Common.{◌≡◌, ◌≢◌, String, List, [], ◌∷◌, if◌then◌else◌, All}
use ax10m.Common.Int.{ℤ, pos, ◌+ℤ◌}
use ax10m.Common.Dict.{Dict}
use ax10m.Billing.{Numbers}
use ax10m.BillingRun.Run.{
  Host, BillingRunOptions, BillingMerchantResult, RunState, charged_amount,
  compute_merchant_statement, economics_of, collect, statement_entry,
}

-- No text twice.
abbrev pub Once : List String → Type 0
Once [] = Unit {0}
Once (x ∷ xs) = All (λ y. x ≢ y) xs × Once xs

-- The first list is what is left of the second when some of it is struck out.
pub data Within : List String → List String → Type 0 where
  both_empty : Within [] []
  taken : {x : String} → {xs ys : List String} → Within xs ys → Within (x ∷ xs) (x ∷ ys)
  struck : {y : String} → {xs ys : List String} → Within xs ys → Within xs (y ∷ ys)

module _ {A : Type 0} (f : A → ℤ) where
  abbrev pub sum_by : List A → ℤ
  sum_by [] = pos 0
  sum_by (x ∷ xs) = f x +ℤ sum_by xs

module _ (N : Numbers) (host : Host (N.Real)) (opts : BillingRunOptions (N.Real)) where
  abbrev Result : Type 0
  Result = BillingMerchantResult (N.Real)

  abbrev fee_of : Result → ℤ
  fee_of r = r.signed.result.fee

  abbrev net_of : Result → ℤ
  net_of r = r.econ.net_billed

  abbrev charged_of : Result → ℤ
  charged_of r = charged_amount N host opts r.charge r.econ.net_billed

  -- The totals are the sums over the results.
  abbrev pub AddsUp : RunState N host → Type 0
  AddsUp s =
      (s.total_fee ≡ sum_by fee_of s.merchants)
      × (s.total_net_billed ≡ sum_by net_of s.merchants)
      × (s.total_charged ≡ sum_by charged_of s.merchants)

  abbrev new_result : RunState N host → String → Result
  new_result s m =
      let signed = compute_merchant_statement N host opts m in
      let econ = economics_of N host opts m signed.result in
      let w =
        if opts.records
        then host.append s.world (statement_entry N host opts m signed econ)
        else s.world in
      record {
        merchant_id = m;
        period = opts.period.label;
        signed = signed;
        econ = econ;
        charge = (collect N host opts m signed econ w).1;
      }
