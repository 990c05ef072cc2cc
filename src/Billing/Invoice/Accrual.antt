-- ===== src/Billing/Invoice/Accrual.antt =====
-- The finance charge accrues (packages/billing/src/invoice.ts, `computeFinanceChargeMinor`).
use ax10m.Common.{
  ℕ, ◌-◌, ◌≡◌, ◌≤◌, false, some, leb, if◌then◌else◌, arith, Option-cases, Bool-cases, inl, inr,
}
use ax10m.Common.Int.{ℤ, pos, ◌≤ℤ◌}
use ax10m.Billing.{Numbers}
use ax10m.Billing.Holdout.{max_ℤ}
use ax10m.Billing.Invoice.{Invoice, compute_finance_charge, charge_for}

abbrev pub AtMost : (N : Numbers) → N.Real → N.Real → Type 0
AtMost N a b = N.lt b a ≡ false

-- What IEEE 754 promises: its operations are the exact ones, rounded by a function that keeps the
-- order.
pub record Monotone (N : Numbers) : Type 0 where
  pub of_int-AtMost : (a b : ℤ) → a ≤ℤ b → AtMost N (N.of_int a) (N.of_int b)
  pub days-AtMost :
      (a b : N.Real)
      → AtMost N a b
      → AtMost N (N.div a (N.ratio 86400000 1)) (N.div b (N.ratio 86400000 1))
  pub months-AtMost :
      (a b : N.Real) → AtMost N a b → AtMost N (N.div a (N.ratio 30 1)) (N.div b (N.ratio 30 1))
  pub mul-AtMost :
      (a b c : N.Real) → AtMost N (N.ratio 0 1) c → AtMost N a b → AtMost N (N.mul c a) (N.mul c b)
  pub round-AtMost : (a b : N.Real) → AtMost N a b → N.round a ≤ℤ N.round b

max_mono : (a b : ℤ) → a ≤ℤ b → max_ℤ (pos 0) a ≤ℤ max_ℤ (pos 0) b
max_mono a b h = ground arith

module _ (N : Numbers) (laws : Monotone N) where
  open N use {Real, of_int, ratio, mul}

  charge_for_mono :
      (i : Invoice Real) (s t : ℕ)
      → AtMost N
          (ratio 0 1)
          (mul (of_int i.subtotal) i.fee_schedule_snapshot.late_finance_charge_monthly_rate)
      → s ≤ t
      → charge_for N i s ≤ℤ charge_for N i t
  charge_for_mono i s t h k =
      let rate = mul (of_int i.subtotal) i.fee_schedule_snapshot.late_finance_charge_monthly_rate in
      let day : N.Real → N.Real = λ x. N.div x (ratio 86400000 1) in
      let month : N.Real → N.Real = λ x. N.div (day x) (ratio 30 1) in
      let a = of_int (pos s) in
      let b = of_int (pos t) in
      let le = laws.of_int-AtMost (pos s) (pos t) (omega (arith, k)) in
      let le_month = laws.months-AtMost (day a) (day b) (laws.days-AtMost a b le) in
      max_mono (N.round (mul rate (month a))) (N.round (mul rate (month b))) (
        laws.round-AtMost (mul rate (month a)) (mul rate (month b))
          (laws.mul-AtMost (month a) (month b) rate h le_month))

  due_mono :
      (i : Invoice Real) (due t u : ℕ)
      → AtMost N
          (ratio 0 1)
          (mul (of_int i.subtotal) i.fee_schedule_snapshot.late_finance_charge_monthly_rate)
      → t ≤ u
      → (if leb t due then pos 0 else charge_for N i (t - due))
        ≤ℤ (if leb u due then pos 0 else charge_for N i (u - due))
  due_mono i due t u h k = elim (Bool-cases (leb t due)) [
    | inl e ↦ rw e (ground arith)
    | inr e ↦
        let l : leb u due ≡ false = ground arith in
        rw (e, l) (charge_for_mono i (t - due) (u - due) h (omega (arith, k)))
  ]

  -- With arithmetic that keeps the order, if the subtotal times the rate is not negative, the
  -- finance charge never falls as time goes on.
  pub compute_finance_charge_mono :
      (i : Invoice Real) (t u : ℕ)
      → AtMost N
          (ratio 0 1)
          (mul (of_int i.subtotal) i.fee_schedule_snapshot.late_finance_charge_monthly_rate)
      → t ≤ u
      → compute_finance_charge N i (some t) ≤ℤ compute_finance_charge N i (some u)
  unfolding compute_finance_charge
  compute_finance_charge_mono i t u h k = elim (Option-cases i.due_at) [
    | inl e ↦ rw e (ground arith)
    | inr (due, e) ↦ rw e (due_mono i due t u h k)
  ]
