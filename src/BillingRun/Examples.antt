-- ===== src/BillingRun/Examples.antt =====
-- Instances of the theorems on the monthly billing.
use ax10m.Common.{
  length, ℕ, ◌≡◌, ◌+◌, ◌*◌, ◌/◌, ◌-◌, refl, true, none, some, List, [], ◌∷◌, All, Any, keep, map,
  ltb, min, max,
}
use ax10m.Common.Int.{pos, pos_part, ◌+ℤ◌, ◌-ℤ◌}
use ax10m.Ledger.{holdout_assigned, case_recovered, case_reversed, uplift_statement}
use ax10m.Billing.{Numbers}
use ax10m.BillingRun.{BillingLedgerEntry, BillingPeriod, number, text, is_mine}
use ax10m.BillingRun.Observations.{reconstruct_observations, net_from, observe_all}
use ax10m.BillingRun.Observations.Net.{net_amount}
use ax10m.BillingRun.Observations.Tenancy.{reconstruct_observations-mine}
use ax10m.BillingRun.Observations.Cohort.{qualifies, Explains, reconstruct_observations-Explains}
use ax10m.BillingRun.Run.{Host, BillingRunOptions, run_billing, skipped}
use ax10m.BillingRun.Run.Charges.{due_requests, watched, Justified, run_billing-Justified}

abbrev whole : Numbers
whole = record {
  Real = ℕ;
  of_int = pos_part;
  ratio = λ a b. a / b;
  sub = λ a b. a - b;
  mul = λ a b. a * b;
  div = λ a b. a / b;
  min_of = min;
  max_of = max;
  lt = ltb;
  round = pos;
}

abbrev january : BillingPeriod
january = record { label = "2026-01"; start_ms = 100; end_ms = 200 }

-- One invoice assigned in the window, recovered and partly reversed after it, and another tenant.
abbrev entries : List BillingLedgerEntry
entries =
    record {
      merchant_id = "m_1";
      type = holdout_assigned;
      occurred_at = some 150;
      detail =
          ("invoiceId", text "in_1")
          ∷ ("bucket", text "treatment")
          ∷ ("amount", number (pos 900))
          ∷ [];
    }
    ∷ record {
      merchant_id = "m_1";
      type = case_recovered;
      occurred_at = some 250;
      detail = ("invoiceId", text "in_1") ∷ ("amount", number (pos 900)) ∷ [];
    }
    ∷ record {
      merchant_id = "m_1";
      type = case_reversed;
      occurred_at = some 300;
      detail = ("invoiceId", text "in_1") ∷ ("amount", number (pos 200)) ∷ [];
    }
    ∷ record {
      merchant_id = "m_2";
      type = case_recovered;
      occurred_at = some 260;
      detail = ("invoiceId", text "in_1") ∷ ("amount", number (pos 5)) ∷ [];
    }
    ∷ []

outcomes : map (λ o. o.outcome) (reconstruct_observations entries "m_1" january) ≡ pos 700 ∷ []
unfolding reconstruct_observations ◌+ℤ◌ ◌-ℤ◌ net_from observe_all
outcomes = refl

reconstruct_observations-Explains_example :
    (length (reconstruct_observations entries "m_1" january)
      ≡ length (keep (qualifies "m_1" january) entries))
    × All
        (λ o. Any (Explains "m_1" january (λ i. net_amount "m_1" i (pos 0) entries) o) entries)
        (reconstruct_observations entries "m_1" january)
reconstruct_observations-Explains_example = reconstruct_observations-Explains "m_1" january entries

reconstruct_observations-mine_example :
    reconstruct_observations (keep (is_mine "m_1") entries) "m_1" january
    ≡ reconstruct_observations entries "m_1" january
reconstruct_observations-mine_example = reconstruct_observations-mine "m_1" january entries

abbrev recorded : BillingLedgerEntry
recorded = record {
  merchant_id = "m_1";
  type = uplift_statement;
  occurred_at = some 400;
  detail = ("lowerDollarsCum", number (pos 500)) ∷ [];
}

-- A host that counts the calls of its charger, and a fee of 120 for everyone.
abbrev counting : Host ℕ
counting = record {
  World = ℕ × ℕ;
  statement = λ m p os prior. record {
    currency = "USD";
    result = record {
      fee = pos 120;
      lower_dollars_cum = pos 1000;
      billable_increment = pos 1000;
      billable = true;
      gate_reasons = [];
      treated_invoices = 1;
      delta_per = 0;
    };
    statement_hash = "h";
    signature = "s";
    signing_key_id = "k";
  };
  append = λ w e. (w.0, w.1 + 1);
  charge = λ w r. (
    (w.0 + 1, w.1),
    record { status = skipped; provider = "noop"; reference = none; reason = none },
  );
}

abbrev options : BillingRunOptions ℕ
options = record {
  entries = entries;
  period = january;
  now = 400;
  records = true;
  live = true;
  onboarded_at = [];
  holdout_schedule = record {
    certification_days = 90;
    certification_fraction = 0;
    audit_fraction = 0;
  };
}

run_billing-Justified_example :
    let s = run_billing whole (watched counting) options ((0, 0), []) in
    (s.world.1 ≡ due_requests options s.merchants) × All (Justified options) s.merchants
run_billing-Justified_example = run_billing-Justified whole counting options (0, 0)
