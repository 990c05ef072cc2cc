-- ===== src/Billing/Dunning.antt =====
-- The reminder that is due for an invoice (packages/billing/src/invoice-dunning.ts); the rendered
-- e-mail is left out.
use ax10m.Common.{
  ℕ, ◌+◌, ◌*◌, ◌≡◌, ◌≤◌, refl, Bool, Option, none, some, List, [], ◌∷◌, leb, ltb, if◌then◌else◌,
  arith,
}
use ax10m.Common.Int.{ℤ, pos, negsuc, pos_part, neg_part}
use ax10m.Billing.{Numbers}
use ax10m.Billing.Invoice.{Invoice, InvoiceStatus, is_settled, invoice_as_of, is_after, overdue}

pub data InvoiceDunningStage : Type 0 where
  issued_notice due_soon due_today overdue_1 overdue_2 final_notice : InvoiceDunningStage

-- `STAGE_THRESHOLDS`: days from the due date.
abbrev pub stage_thresholds : List (InvoiceDunningStage × ℤ)
stage_thresholds =
    (final_notice, pos 21)
    ∷ (overdue_2, pos 10)
    ∷ (overdue_1, pos 3)
    ∷ (due_today, pos 0)
    ∷ (due_soon, negsuc 2)
    ∷ []

-- `asOf >= due + days * DAY_MS`
abbrev pub reached : ℕ → ℕ → ℤ → Bool
reached as_of due days = leb (due + pos_part days * 86400000) (as_of + neg_part days * 86400000)

-- The first stage of the list that is reached.
abbrev pub most_advanced : ℕ → ℕ → List (InvoiceDunningStage × ℤ) → InvoiceDunningStage
most_advanced as_of due [] = issued_notice
most_advanced as_of due ((stage, days) ∷ rest) =
    if reached as_of due days then stage else most_advanced as_of due rest

abbrev pub stage_on : ℕ → ℕ → ℕ → Option InvoiceDunningStage
stage_on as_of due issued =
    if ltb as_of issued then none else some (most_advanced as_of due stage_thresholds)

-- With a date that does not parse there is no stage.
abbrev pub dated_stage : Option ℕ → Option ℕ → Option ℕ → Option InvoiceDunningStage
dated_stage (some now) (some due) (some issued) = stage_on now due issued
dated_stage _ _ _ = none

unfoldable pub invoice_dunning_stage :
    {R : Type 0} → Invoice R → Option ℕ → Option InvoiceDunningStage
invoice_dunning_stage i as_of =
    if is_settled i.status then none else dated_stage as_of i.due_at i.issued_at

-- How far a reminder has come.
abbrev pub rank : Option InvoiceDunningStage → ℕ
rank none = 0
rank (some issued_notice) = 1
rank (some due_soon) = 2
rank (some due_today) = 3
rank (some overdue_1) = 4
rank (some overdue_2) = 5
rank (some final_notice) = 6

stage_on_mono :
    (t u due issued : ℕ) → t ≤ u → rank (stage_on t due issued) ≤ rank (stage_on u due issued)
stage_on_mono t u due issued h = ground arith

dated_stage_mono :
    (t u : ℕ) (due issued : Option ℕ)
    → t ≤ u
    → rank (dated_stage (some t) due issued) ≤ rank (dated_stage (some u) due issued)
dated_stage_mono t u none issued h = ground arith
dated_stage_mono t u (some due) none h = ground arith
dated_stage_mono t u (some due) (some issued) h = stage_on_mono t u due issued h

aged_settled :
    (s : InvoiceStatus) (b : Bool)
    → is_settled (if is_settled s then s else (if b then overdue else s)) ≡ is_settled s
aged_settled s b = ground arith

module _ (N : Numbers) where
  open N use {Real}

  -- As time goes on the reminder that is due never falls back to an earlier stage, whatever the
  -- invoice; ageing the invoice by its finance charge leaves the reminder as it is.
  pub invoice_dunning_stage_mono :
      (i : Invoice Real) (t u : ℕ)
      → t ≤ u
      → (rank (invoice_dunning_stage i (some t)) ≤ rank (invoice_dunning_stage i (some u)))
        × (invoice_dunning_stage (invoice_as_of N i (some t)) (some u)
            ≡ invoice_dunning_stage i (some u))
  unfolding invoice_dunning_stage invoice_as_of
  invoice_dunning_stage_mono i t u h = (
    ground (arith, dated_stage_mono t u i.due_at i.issued_at h),
    rw (aged_settled i.status (is_after (some t) i.due_at)) refl,
  )
