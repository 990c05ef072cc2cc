-- ===== src/Analytics.antt =====
-- The profit-and-loss report of apps/api/src/analytics/pnl.ts: what was recovered, reversed and given
-- back, and the fee that accrues on it, for each processor and together. Fractional numbers are those of
-- the fee (Billing.Numbers); `day_key` is the date of an instant. An instant is none if `Date.parse`
-- rejects its text, and the present is a valid one, later than the days of the series.
pub mod Splits
mod Examples
use ax10m.Common.{
  ℕ, zero, suc, ◌+◌, ◌-◌, ◌*◌, ◌/◌, Bool, true, false, ◌&&◌, String, Option, none, some, List, [],
  ◌∷◌, ◌++◌, ltb, leb, if◌then◌else◌, or_else, map,
}
use ax10m.Common.Int.{ℤ, pos, ◌+ℤ◌, ◌-ℤ◌, leb_ℤ}
use ax10m.Common.Dict.{Dict, lookup, insert, str_eq}
use ax10m.Ledger.{
  LedgerEventType, case_recovered, case_reversed, case_reversal_reverted, charge_succeeded,
  charge_failed, comms_sent,
}
use ax10m.Billing.{Numbers}
use ax10m.BillingRun.{BillingLedgerEntry, num, str}

pub record PnlTotals : Type 0 where
  pub recovered : ℤ
  pub gross : ℤ
  pub reversed : ℤ
  pub reinstated : ℤ
  pub fee : ℤ
  pub clawback : ℤ
  pub recoveries : ℕ
  pub reversals : ℕ
  pub reinstatements : ℕ
  pub attempts : ℕ
  pub comms : ℕ

abbrev pub empty_totals : PnlTotals
empty_totals = record {
  recovered = pos 0;
  gross = pos 0;
  reversed = pos 0;
  reinstated = pos 0;
  fee = pos 0;
  clawback = pos 0;
  recoveries = 0;
  reversals = 0;
  reinstatements = 0;
  attempts = 0;
  comms = 0;
}

-- `(str(e.detail.currency) ?? reportCurrency) === reportCurrency`
abbrev pub is_reported : String → BillingLedgerEntry → Bool
is_reported currency e = str_eq (or_else (str (lookup "currency" e.detail)) currency) currency

-- The `switch` on the type; `b` is whether the currency is that of the report.
abbrev pub accumulate_type : LedgerEventType → Bool → ℤ → PnlTotals → PnlTotals
accumulate_type case_recovered b a t =
    if b then record t { gross = t.gross +ℤ a; recoveries = t.recoveries + 1 } else t
accumulate_type case_reversed b a t =
    if b then record t { reversed = t.reversed +ℤ a; reversals = t.reversals + 1 } else t
accumulate_type case_reversal_reverted b a t =
    if b
    then record t { reinstated = t.reinstated +ℤ a; reinstatements = t.reinstatements + 1 }
    else t
accumulate_type charge_succeeded b a t = record t { attempts = t.attempts + 1 }
accumulate_type charge_failed b a t = record t { attempts = t.attempts + 1 }
accumulate_type comms_sent b a t = record t { comms = t.comms + 1 }
accumulate_type _ b a t = t

abbrev pub accumulate : String → BillingLedgerEntry → PnlTotals → PnlTotals
accumulate currency e t =
    accumulate_type e.type (is_reported currency e) (num (lookup "amount" e.detail)) t

abbrev pub accumulate_all : String → List BillingLedgerEntry → PnlTotals → PnlTotals
accumulate_all currency [] t = t
accumulate_all currency (e ∷ es) t = accumulate_all currency es (accumulate currency e t)

-- `t >= nowMs - span && t <= nowMs`, and the window before it.
abbrev pub in_current : ℕ → ℕ → ℕ → Bool
in_current now span t = leb now (t + span) && leb t now

abbrev pub in_previous : ℕ → ℕ → ℕ → Bool
in_previous now span t = leb now (t + 2 * span) && ltb (t + span) now

abbrev pub in_window : (ℕ → Bool) → BillingLedgerEntry → Bool
in_window test e = elim e.occurred_at [ none ↦ false | some t ↦ test t ]

abbrev pub accumulate_if : Bool → String → BillingLedgerEntry → PnlTotals → PnlTotals
accumulate_if b currency e t = if b then accumulate currency e t else t

-- The loop over the entries for one of the two windows, which do not overlap.
abbrev pub accumulate_window : (ℕ → Bool) → String → List BillingLedgerEntry → PnlTotals → PnlTotals
accumulate_window test currency [] t = t
accumulate_window test currency (e ∷ es) t =
    accumulate_window test currency es (accumulate_if (in_window test e) currency e t)

-- `str(e.detail.processor) ?? 'unknown'`
abbrev pub processor_of : BillingLedgerEntry → String
processor_of e = or_else (str (lookup "processor" e.detail)) "unknown"

abbrev pub push_entry :
    String → BillingLedgerEntry → Dict (List BillingLedgerEntry) → Dict (List BillingLedgerEntry)
push_entry p e m = insert p (or_else (lookup p m) [] ++ e ∷ []) m

abbrev pub partition_from :
    Dict (List BillingLedgerEntry) → List BillingLedgerEntry → Dict (List BillingLedgerEntry)
partition_from m [] = m
partition_from m (e ∷ es) = partition_from (push_entry (processor_of e) e m) es

abbrev pub is_recovery_entry : LedgerEventType → Bool
is_recovery_entry case_recovered = true
is_recovery_entry _ = false

-- `currencyCounts`
abbrev pub count_currency : BillingLedgerEntry → Dict ℕ → Dict ℕ
count_currency e m =
    let c = or_else (str (lookup "currency" e.detail)) "USD" in
    if is_recovery_entry e.type then insert c (or_else (lookup c m) 0 + 1) m else m

abbrev pub count_currencies : List BillingLedgerEntry → Dict ℕ → Dict ℕ
count_currencies [] m = m
count_currencies (e ∷ es) m = count_currencies es (count_currency e m)

module _ {A : Type 0} (key : A → ℤ) where
  -- `sort((a, b) => key(b) - key(a))`: stable, the greatest first.
  abbrev pub insert_desc : A → List A → List A
  insert_desc x [] = x ∷ []
  insert_desc x (y ∷ ys) = if leb_ℤ (key y) (key x) then x ∷ y ∷ ys else y ∷ insert_desc x ys

  abbrev pub sort_desc : List A → List A
  sort_desc [] = []
  sort_desc (x ∷ xs) = insert_desc x (sort_desc xs)

abbrev pub first_key : Dict ℕ → Option String
first_key [] = none
first_key ((k, v) ∷ m) = some k

abbrev pub dominant : List BillingLedgerEntry → Option String
dominant es = first_key (sort_desc (λ x. pos x.1) (count_currencies es []))

-- The three types of the daily series.
abbrev pub is_money_event : LedgerEventType → Bool
is_money_event case_recovered = true
is_money_event case_reversed = true
is_money_event case_reversal_reverted = true
is_money_event _ = false

abbrev pub day_ms : ℕ
day_ms = 86400000

abbrev pub add_to_day : (ℕ → String) → String → BillingLedgerEntry → Dict PnlTotals → Dict PnlTotals
add_to_day day_key currency e m = elim e.occurred_at [
  | none ↦ m
  | some t ↦
      if is_money_event e.type
      then insert (day_key t) (accumulate currency e (or_else (lookup (day_key t) m) empty_totals))
          m
      else m
]

abbrev pub per_day :
    (ℕ → String) → String → List BillingLedgerEntry → Dict PnlTotals → Dict PnlTotals
per_day day_key currency [] m = m
per_day day_key currency (e ∷ es) m = per_day day_key currency es (add_to_day day_key currency e m)

pub record PnlSeriesPoint : Type 0 where
  pub date : String
  pub recovered : ℤ
  pub fee : ℤ

module _ (N : Numbers) where
  open N use {Real, of_int, ratio, sub, mul, div, round}

  abbrev pub with_fee : Real → PnlTotals → PnlTotals
  with_fee rate t =
      let net = t.gross -ℤ t.reversed +ℤ t.reinstated in
      record t {
        recovered = net;
        fee = round (mul (of_int net) rate);
        clawback = round (mul (of_int (t.reversed -ℤ t.reinstated)) rate);
      }

  -- None for a previous value of 0.
  abbrev pub pct_change : ℤ → ℤ → Option Real
  pct_change current (pos zero) = none
  pct_change current previous =
      some (mul (div (sub (of_int current) (of_int previous)) (of_int previous)) (ratio 100 1))

  pub record PeriodDelta : Type 0 where
    pub current : PnlTotals
    pub previous : PnlTotals
    pub fee_delta_pct : Option Real
    pub recovered_delta_pct : Option Real

  abbrev pub period_delta : List BillingLedgerEntry → ℕ → Real → String → ℕ → PeriodDelta
  period_delta es now rate currency days =
      let span = days * day_ms in
      let cur = with_fee rate (accumulate_window (in_current now span) currency es empty_totals) in
      let prev =
        with_fee rate (accumulate_window (in_previous now span) currency es empty_totals) in
      record {
        current = cur;
        previous = prev;
        fee_delta_pct = pct_change cur.fee prev.fee;
        recovered_delta_pct = pct_change cur.recovered prev.recovered;
      }

  pub record ProcessorPnl : Type 0 where
    pub processor : String
    pub totals : PnlTotals
    pub day : PeriodDelta
    pub week : PeriodDelta
    pub month : PeriodDelta
    pub year : PeriodDelta

  abbrev pub processor_pnl : ℕ → Real → String → String → List BillingLedgerEntry → ProcessorPnl
  processor_pnl now rate currency processor es = record {
    processor = processor;
    totals = with_fee rate (accumulate_all currency es empty_totals);
    day = period_delta es now rate currency 1;
    week = period_delta es now rate currency 7;
    month = period_delta es now rate currency 30;
    year = period_delta es now rate currency 365;
  }

  -- The point of a day, and those of the last days up to today.
  abbrev pub series_point : (ℕ → String) → Real → Dict PnlTotals → ℕ → PnlSeriesPoint
  series_point day_key rate days at =
      let t = with_fee rate (or_else (lookup (day_key at) days) empty_totals) in
      record { date = day_key at; recovered = t.recovered; fee = t.fee }

  abbrev pub daily_series : (ℕ → String) → Real → Dict PnlTotals → ℕ → ℕ → List PnlSeriesPoint
  daily_series day_key rate days today zero = []
  daily_series day_key rate days today (suc i) =
      series_point day_key rate days (today - i * day_ms) ∷ daily_series day_key rate days today i

  pub record PnlOptions : Type 0 where
    pub now : ℕ
    pub fee_rate : Option Real
    pub currency : Option String
    pub series_days : Option ℕ

  pub record PnlReport : Type 0 where
    pub generated_at : ℕ
    pub currency : String
    pub fee_rate_pct : ℤ
    pub cumulative : ProcessorPnl
    pub processors : List ProcessorPnl
    pub series : List PnlSeriesPoint

  abbrev pub rows_of : ℕ → Real → String → Dict (List BillingLedgerEntry) → List ProcessorPnl
  rows_of now rate currency groups = map (λ g. processor_pnl now rate currency g.0 g.1) groups

  unfoldable pub compute_pnl : (ℕ → String) → List BillingLedgerEntry → PnlOptions → PnlReport
  compute_pnl day_key es opts =
      let rate = or_else opts.fee_rate (ratio 12 100) in
      let currency = or_else opts.currency (or_else (dominant es) "USD") in
      record {
        generated_at = opts.now;
        currency = currency;
        fee_rate_pct = round (mul rate (ratio 100 1));
        cumulative = processor_pnl opts.now rate currency "all" es;
        processors =
            sort_desc (λ p. p.totals.fee) (rows_of opts.now rate currency (partition_from [] es));
        series =
            daily_series day_key rate (per_day day_key currency es []) (opts.now / day_ms * day_ms)
              (or_else opts.series_days 30);
      }
