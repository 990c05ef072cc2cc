-- ===== src/Analytics/Splits.antt =====
-- The rows of the processors add up to the cumulative row (apps/api/src/analytics/pnl.ts, `computePnl`).
use ax10m.Common.{
  ℕ, ◌≡◌, refl, ap, ◌∙◌, inl, inr, String, List, [], ◌∷◌, ◌++◌, Bool-cases, if◌then◌else◌, or_else,
}
use ax10m.Common.Int.{ℤ, pos, ◌+ℤ◌, ◌-ℤ◌, leb_ℤ, int_laws}
use ax10m.Common.Dict.{Dict, lookup, insert, str_eq}
use ax10m.Ledger.{
  LedgerEventType, case_recovered, case_reversed, case_reversal_reverted, charge_succeeded,
  charge_failed,
}
use ax10m.Billing.{Numbers}
use ax10m.BillingRun.{BillingLedgerEntry, num}
use ax10m.Analytics.{
  PnlOptions, accumulate_type, Bool, compute_pnl, PnlTotals, empty_totals, is_reported, accumulate,
  accumulate_all, processor_of, push_entry, partition_from, insert_desc, sort_desc, ProcessorPnl,
  processor_pnl, rows_of, PnlReport, with_fee,
}

abbrev pub sum_by : {A : Type 0} → (A → ℤ) → List A → ℤ
sum_by f [] = pos 0
sum_by f (x ∷ xs) = f x +ℤ sum_by f xs

-- A part of the totals to which each entry adds its own share.
pub record IsAdditive (currency : String) (part : PnlTotals → ℤ) (share : BillingLedgerEntry → ℤ)
    : Type 0 where
  pub starts : part empty_totals ≡ pos 0
  pub adds :
      (e : BillingLedgerEntry) (t : PnlTotals) → part (accumulate currency e t) ≡ part t +ℤ share e

module _ {currency : String} {part : PnlTotals → ℤ} {share : BillingLedgerEntry → ℤ}
    (additive : IsAdditive currency part share) where
  all_shares-from :
      (es : List BillingLedgerEntry) (t : PnlTotals)
      → part (accumulate_all currency es t) ≡ part t +ℤ sum_by share es
  all_shares-from [] t = grind int_laws
  all_shares-from (e ∷ es) t =
      grind (int_laws, all_shares-from es (accumulate currency e t), additive.adds e t)

  all_shares :
      (es : List BillingLedgerEntry)
      → part (accumulate_all currency es empty_totals) ≡ sum_by share es
  all_shares es = grind (int_laws, all_shares-from es empty_totals, additive.starts)

module _ (share : BillingLedgerEntry → ℤ) where
  abbrev group_sum : Dict (List BillingLedgerEntry) → ℤ
  group_sum m = sum_by (λ g. sum_by share g.1) m

  sum_by-snoc :
      (es : List BillingLedgerEntry) (e : BillingLedgerEntry)
      → sum_by share (es ++ e ∷ []) ≡ sum_by share es +ℤ share e
  sum_by-snoc [] e = grind int_laws
  sum_by-snoc (x ∷ es) e = grind (int_laws, sum_by-snoc es e)

  group_sum-insert :
      (p : String) (v : List BillingLedgerEntry) (m : Dict (List BillingLedgerEntry))
      → group_sum (insert p v m)
        ≡ group_sum m +ℤ (sum_by share v -ℤ sum_by share (or_else (lookup p m) []))
  group_sum-insert p v [] = grind int_laws
  group_sum-insert p v ((j, w) ∷ m) = elim (Bool-cases (str_eq j p)) [
    | inl b ↦ rw b (grind int_laws)
    | inr b ↦ rw b (grind (int_laws, group_sum-insert p v m))
  ]

  group_sum-push :
      (p : String) (e : BillingLedgerEntry) (m : Dict (List BillingLedgerEntry))
      → group_sum (push_entry p e m) ≡ group_sum m +ℤ share e
  group_sum-push p e m =
      let old = or_else (lookup p m) [] in
      grind (int_laws, group_sum-insert p (old ++ e ∷ []) m, sum_by-snoc old e)

  group_sum-partition :
      (m : Dict (List BillingLedgerEntry)) (es : List BillingLedgerEntry)
      → group_sum (partition_from m es) ≡ group_sum m +ℤ sum_by share es
  group_sum-partition m [] = grind int_laws
  group_sum-partition m (e ∷ es) = grind (
    int_laws,
    group_sum-partition (push_entry (processor_of e) e m) es,
    group_sum-push (processor_of e) e m,
  )

module _ {A : Type 0} (key f : A → ℤ) where
  sum_by-insert_desc : (x : A) (ys : List A) → sum_by f (insert_desc key x ys) ≡ f x +ℤ sum_by f ys
  sum_by-insert_desc x [] = refl
  sum_by-insert_desc x (y ∷ ys) = elim (Bool-cases (leb_ℤ (key y) (key x))) [
    | inl b ↦ rw b refl
    | inr b ↦ rw b (grind (int_laws, sum_by-insert_desc x ys))
  ]

  sum_by-sort_desc : (xs : List A) → sum_by f (sort_desc key xs) ≡ sum_by f xs
  sum_by-sort_desc [] = refl
  sum_by-sort_desc (x ∷ xs) =
      sum_by-insert_desc x (sort_desc key xs) ∙ ap (λ n. f x +ℤ n) (sum_by-sort_desc xs)

module _ (N : Numbers) where
  abbrev pub Part : Type 0
  Part = PnlTotals → ℤ

  -- The cumulative row has in a part what the rows of the processors have together.
  abbrev pub SplitsBy : Part → PnlReport N → Type 0
  SplitsBy part r = part r.cumulative.totals ≡ sum_by (λ p. part p.totals) r.processors

  module _ (now : ℕ) (rate : N.Real) {currency : String} {raw : Part}
      {share : BillingLedgerEntry → ℤ} (additive : IsAdditive currency raw share) (part : Part)
      (reads : (t : PnlTotals) → part (with_fee N rate t) ≡ raw t) where
    rows-sum :
        (groups : Dict (List BillingLedgerEntry))
        → sum_by (λ p. part p.totals) (rows_of N now rate currency groups) ≡ group_sum share groups
    rows-sum [] = refl
    rows-sum ((p, es) ∷ groups) = grind (
      int_laws,
      rows-sum groups,
      all_shares additive es,
      reads (accumulate_all currency es empty_totals),
    )

    splits :
        (es : List BillingLedgerEntry)
        → part (processor_pnl N now rate currency "all" es).totals
          ≡ sum_by
              (λ p. part p.totals)
              (sort_desc (λ p. p.totals.fee) (rows_of N now rate currency (partition_from [] es)))
    splits es = grind (
      int_laws,
      sum_by-sort_desc {A = ProcessorPnl N} (λ p. p.totals.fee) (λ p. part p.totals)
          (rows_of N now rate currency (partition_from [] es)),
      rows-sum (partition_from [] es),
      group_sum-partition share [] es,
      all_shares additive es,
      reads (accumulate_all currency es empty_totals),
    )

-- What an entry adds to the parts of the totals, by its type; `b` is whether it is reported.
abbrev gross_share : LedgerEventType → Bool → ℤ → ℤ
gross_share case_recovered b a = if b then a else pos 0
gross_share _ b a = pos 0

abbrev reversed_share : LedgerEventType → Bool → ℤ → ℤ
reversed_share case_reversed b a = if b then a else pos 0
reversed_share _ b a = pos 0

abbrev reinstated_share : LedgerEventType → Bool → ℤ → ℤ
reinstated_share case_reversal_reverted b a = if b then a else pos 0
reinstated_share _ b a = pos 0

abbrev recovery_share : LedgerEventType → Bool → ℤ → ℤ
recovery_share case_recovered b a = if b then pos 1 else pos 0
recovery_share _ b a = pos 0

abbrev attempt_share : LedgerEventType → Bool → ℤ → ℤ
attempt_share charge_succeeded b a = pos 1
attempt_share charge_failed b a = pos 1
attempt_share _ b a = pos 0

abbrev share_by : (LedgerEventType → Bool → ℤ → ℤ) → String → BillingLedgerEntry → ℤ
share_by f currency e = f e.type (is_reported currency e) (num (lookup "amount" e.detail))

module _ (type : LedgerEventType) (b : Bool) (a : ℤ) (t : PnlTotals) where
  gross-adds : (accumulate_type type b a t).gross ≡ t.gross +ℤ gross_share type b a
  gross-adds = grind int_laws

  reversed-adds : (accumulate_type type b a t).reversed ≡ t.reversed +ℤ reversed_share type b a
  reversed-adds = grind int_laws

  reinstated-adds :
      (accumulate_type type b a t).reinstated ≡ t.reinstated +ℤ reinstated_share type b a
  reinstated-adds = grind int_laws

  recoveries-adds :
      pos (accumulate_type type b a t).recoveries ≡ pos t.recoveries +ℤ recovery_share type b a
  recoveries-adds = grind int_laws

  attempts-adds :
      pos (accumulate_type type b a t).attempts ≡ pos t.attempts +ℤ attempt_share type b a
  attempts-adds = grind int_laws

module _ (currency : String) (part : PnlTotals → ℤ) (f : LedgerEventType → Bool → ℤ → ℤ)
    (zero_at : part empty_totals ≡ pos 0)
    (step : (type : LedgerEventType) (b : Bool) (a : ℤ) (t : PnlTotals)
      → part (accumulate_type type b a t) ≡ part t +ℤ f type b a) where
  share_by-IsAdditive : IsAdditive currency part (share_by f currency)
  share_by-IsAdditive = record {
    starts = zero_at;
    adds = λ e t. step e.type (is_reported currency e) (num (lookup "amount" e.detail)) t;
  }

abbrev net : PnlTotals → ℤ
net t = t.gross -ℤ t.reversed +ℤ t.reinstated

abbrev net_share : LedgerEventType → Bool → ℤ → ℤ
net_share type b a = gross_share type b a -ℤ reversed_share type b a +ℤ reinstated_share type b a

net-adds :
    (type : LedgerEventType) (b : Bool) (a : ℤ) (t : PnlTotals)
    → net (accumulate_type type b a t) ≡ net t +ℤ net_share type b a
net-adds type b a t =
    grind (int_laws, gross-adds type b a t, reversed-adds type b a t, reinstated-adds type b a t)

module _ (N : Numbers) where
  -- The net recovered amount, the gross one, what was reversed and what was given back, and the numbers
  -- of recoveries and of charges are in the cumulative row of a report what they are in the rows of the
  -- processors together, whatever the currency and the options.
  pub compute_pnl-splits :
      (day_key : ℕ → String) (es : List BillingLedgerEntry) (opts : PnlOptions N)
      → let r = compute_pnl N day_key es opts in
        SplitsBy N (λ t. t.recovered) r
        × SplitsBy N (λ t. t.gross) r
        × SplitsBy N (λ t. t.reversed) r
        × SplitsBy N (λ t. t.reinstated) r
        × SplitsBy N (λ t. pos t.recoveries) r
        × SplitsBy N (λ t. pos t.attempts) r
  unfolding compute_pnl ◌+ℤ◌ ◌-ℤ◌
  compute_pnl-splits day_key es opts =
      let r = compute_pnl N day_key es opts in
      let rate = or_else opts.fee_rate (N.ratio 12 100) in
      (
        splits N opts.now rate (share_by-IsAdditive r.currency net net_share refl net-adds)
            (λ t. t.recovered) (λ t. refl) es,
        splits N opts.now rate
            (share_by-IsAdditive r.currency (λ t. t.gross) gross_share refl gross-adds)
            (λ t. t.gross) (λ t. refl) es,
        splits N opts.now rate
            (share_by-IsAdditive r.currency (λ t. t.reversed) reversed_share refl reversed-adds)
            (λ t. t.reversed) (λ t. refl) es,
        splits N opts.now rate
            (share_by-IsAdditive r.currency (λ t. t.reinstated) reinstated_share refl
              reinstated-adds)
            (λ t. t.reinstated) (λ t. refl) es,
        splits N opts.now rate
            (share_by-IsAdditive r.currency (λ t. pos t.recoveries) recovery_share refl
              recoveries-adds)
            (λ t. pos t.recoveries) (λ t. refl) es,
        splits N opts.now rate
            (share_by-IsAdditive r.currency (λ t. pos t.attempts) attempt_share refl attempts-adds)
            (λ t. pos t.attempts) (λ t. refl) es,
      )
