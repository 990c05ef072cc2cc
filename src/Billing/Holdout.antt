-- ===== src/Billing/Holdout.antt =====
-- The holdout taper and the holdout credit (packages/billing/src/holdout-economics.ts).
use ax10m.Common.{ℕ, ◌≡◌, Option, some, if◌then◌else◌, arith}
use ax10m.Common.Int.{ℤ, pos, negsuc, ◌+ℤ◌, ◌-ℤ◌, ◌≤ℤ◌, leb_ℤ}
use ax10m.Billing.{Numbers}

-- `Math.max` and `Math.min` on amounts.
abbrev pub max_ℤ : ℤ → ℤ → ℤ
max_ℤ a b = if leb_ℤ a b then b else a

abbrev pub min_ℤ : ℤ → ℤ → ℤ
min_ℤ a b = if leb_ℤ a b then a else b

pub record HoldoutScheduleConfig (Real : Type 0) : Type 0 where
  pub certification_days : Real
  pub certification_fraction : Real
  pub audit_fraction : Real

pub record HoldoutEconomics (Real : Type 0) : Type 0 where
  pub holdout_fraction : Real
  pub estimated_holdout_cost : ℤ
  pub gross_fee : ℤ
  pub holdout_credit : ℤ
  pub net_billed : ℤ

-- The arithmetic of the credit, for any rounded cost.
split_of :
    (gross cost : ℤ)
    → let credit = min_ℤ (max_ℤ (pos 0) gross) (max_ℤ (pos 0) cost) in
      let net = max_ℤ (pos 0) (gross -ℤ credit) in
      (pos 0 ≤ℤ net)
      × (pos 0 ≤ℤ credit)
      × (credit ≤ℤ max_ℤ (pos 0) cost)
      × (net +ℤ credit ≡ max_ℤ (pos 0) gross)
unfolding ◌+ℤ◌ ◌-ℤ◌
split_of (pos g) (pos c) = (ground arith, ground arith, ground arith, ground arith)
split_of (pos g) (negsuc c) = (ground arith, ground arith, ground arith, ground arith)
split_of (negsuc g) (pos c) = (ground arith, ground arith, ground arith, ground arith)
split_of (negsuc g) (negsuc c) = (ground arith, ground arith, ground arith, ground arith)

module _ (N : Numbers) where
  open N use {Real, of_int, ratio, sub, mul, div, min_of, max_of, lt, round}

  abbrev pub holdout_fraction_for : Option ℕ → Option ℕ → HoldoutScheduleConfig Real → Real
  holdout_fraction_for (some onboarded) (some as_of) cfg =
      let days = div (of_int (pos as_of -ℤ pos onboarded)) (ratio 86400000 1) in
      if lt days cfg.certification_days then cfg.certification_fraction else cfg.audit_fraction
  holdout_fraction_for _ _ cfg = cfg.certification_fraction

  -- `treated × h / (1 - h)`, 0 where nothing is held out.
  abbrev pub held_out_invoices : Real → ℕ → Real
  held_out_invoices h treated =
      if lt (ratio 0 1) h then mul (of_int (pos treated)) (div h (sub (ratio 1 1) h)) else ratio 0 1

  unfoldable pub compute_holdout_economics : ℤ → Real → ℕ → Real → HoldoutEconomics Real
  compute_holdout_economics gross per_invoice_lift treated fraction =
      let h = max_of (ratio 0 1) (min_of (ratio 99 100) fraction) in
      let cost =
        max_ℤ (pos 0)
          (round (mul (max_of (ratio 0 1) per_invoice_lift) (held_out_invoices h treated))) in
      let credit = min_ℤ (max_ℤ (pos 0) gross) cost in
      record {
        holdout_fraction = h;
        estimated_holdout_cost = cost;
        gross_fee = gross;
        holdout_credit = credit;
        net_billed = max_ℤ (pos 0) (gross -ℤ credit);
      }

  -- What is billed and what is credited add up to the fee if it is not negative, so that the
  -- merchant's cost, credit included, is the fee; the credit is not negative and at most the fee
  -- and the estimated cost. Of a negative fee nothing is billed and nothing is credited.
  pub compute_holdout_economics-split :
      (gross : ℤ) (lift : Real) (treated : ℕ) (fraction : Real)
      → let e = compute_holdout_economics gross lift treated fraction in
        (pos 0 ≤ℤ e.net_billed)
        × (pos 0 ≤ℤ e.holdout_credit)
        × (e.holdout_credit ≤ℤ e.estimated_holdout_cost)
        × (e.net_billed +ℤ e.holdout_credit ≡ max_ℤ (pos 0) gross)
  unfolding compute_holdout_economics
  compute_holdout_economics-split gross lift treated fraction =
      let h = max_of (ratio 0 1) (min_of (ratio 99 100) fraction) in
      split_of gross (round (mul (max_of (ratio 0 1) lift) (held_out_invoices h treated)))
