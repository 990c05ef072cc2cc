-- ===== src/Assignment/Examples.antt =====
-- Instances of the theorems on the holdout, with positions in hundredths.
use ax10m.Common.{ℕ, ◌*◌, ◌-◌, ◌≡◌, ◌≢◌, refl, String, some, none, ltb, min, max, arith}
use ax10m.Common.Int.{pos_part, pos}
use ax10m.Canonical.{soft, hard}
use ax10m.Billing.{Numbers}
use ax10m.Reconciliation.{control}
use ax10m.RecoveryEngine.{na, emea}
use ax10m.Assignment.{Hashed, HoldoutConfig, AssignmentInput, Stratum, small, assign}
use ax10m.Assignment.Arms.{Ordered, arm}

-- Whole numbers, of which a hundred make up the unit interval.
abbrev hundredths : Numbers
hundredths = record {
  Real = ℕ;
  of_int = pos_part;
  ratio = λ a b. min a 1 * 100;
  sub = λ a b. a - b;
  mul = λ a b. a * b;
  div = λ a b. a;
  min_of = min;
  max_of = max;
  lt = ltb;
  round = pos;
}

hundredths-Ordered : Ordered hundredths
hundredths-Ordered x a b h k = ground (arith, h, k)

abbrev all_seven : Hashed
all_seven = record { join = λ s parts. s; top_bits = λ material. 7 }

abbrev config : HoldoutConfig ℕ
config = record { control_fraction = 10; salt = "v1" }

abbrev stratum : Stratum
stratum = record { mrr_tier = small; decline_family = soft; issuer_region = na }

abbrev other_stratum : Stratum
other_stratum = record { mrr_tier = small; decline_family = hard; issuer_region = emea }

abbrev input : AssignmentInput
input = record {
  merchant_id = "m_1";
  customer_id = some "c_1";
  invoice_id = "in_1";
  stratum = stratum;
}

abbrev customer : String
customer = "c_1"

customer-given : customer ≢ ""
customer-given = λ e. absurd (cc)

in_range : assign hundredths all_seven input (record config { control_fraction = 20 }) ≢ none
unfolding assign
in_range = λ e. absurd (cc)

drawn_control : arm hundredths all_seven (assign hundredths all_seven input config) ≡ some control
unfolding assign
drawn_control = refl
