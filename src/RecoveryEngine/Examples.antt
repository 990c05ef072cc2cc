-- ===== src/RecoveryEngine/Examples.antt =====
-- Instances of the theorems on the recovery engine.
use ax10m.Common.{
  if◌then◌else◌, ℕ, ◌*◌, ◌≡◌, ◌≤◌, refl, true, false, none, some, [], ◌∷◌, length, All, ltb,
}
use ax10m.RecoveryEngine.FeatureStore.{BinRange, bin_lookup, bin_region_index, digits_of}
use ax10m.RecoveryEngine.FeatureStore.Lookup.{IsMostSpecific, bin_lookup-IsMostSpecific}
use ax10m.Common.Sort.{Sorted}
use ax10m.Canonical.{is_hard, DeclineCode, do_not_honor, lost_card, is_retriable, family_of}
use ax10m.Guardrail.{visa, default_caps}
use ax10m.RecoveryEngine.{Scores, RecoveryFeatures, retry, na}
use ax10m.RecoveryEngine.Strategy.{strategy_for, strategy_for-retriable, network_max_attempts}
use ax10m.RecoveryEngine.Sequence.{
  SequenceContext, plan_retry_sequence, plan_attempts, plan_attempts,
}
use ax10m.RecoveryEngine.Sequence.Schedule.{
  Schedule, SpacedOut, Follows, plan_retry_sequence-Schedule, plan_retry_sequence-SpacedOut,
}
use ax10m.RecoveryEngine.Credential.{
  InWindow, plan_credential_recovery, plan_credential_recovery-InWindow, is_credential_problem,
}

-- Scores in thousandths.
abbrev thousandths : Scores
thousandths = record { Score = ℕ; below = ltb; add_ms = λ d ms. d }

abbrev failed_charge : DeclineCode → RecoveryFeatures ℕ
failed_charge code = record {
  decline_code = code;
  amount_minor = 4900;
  currency = "USD";
  issuer_region = na;
  card_type = none;
  customer_tenure_days = 400;
  prior_recovery_rate = 500;
  attempt_number = 1;
  days_since_first_fail = 0;
  issuer_approval_prior = none;
}

abbrev planning : SequenceContext ℕ
planning = record {
  now = 1000000;
  methods =
      record { ref = "pm_1"; auto_updated = none; is_default = some true }
      ∷ record { ref = "pm_2"; auto_updated = none; is_default = none }
      ∷ [];
  network = visa;
  min_recoverability_to_continue = 40;
  model = λ f. 300;
}

do_not_honor-retriable : is_retriable do_not_honor ≡ true
unfolding is_retriable family_of
do_not_honor-retriable = refl

-- All four attempts of the cadence are planned.
planned_refs : length (plan_retry_sequence thousandths (failed_charge do_not_honor) planning) ≡ 4
unfolding plan_retry_sequence plan_attempts strategy_for
planned_refs = refl

strategy_for-retriable_example : (strategy_for do_not_honor visa).action ≡ retry
strategy_for-retriable_example = (strategy_for-retriable do_not_honor visa).1 do_not_honor-retriable

plan_retry_sequence-Schedule_example :
    let plan = plan_retry_sequence thousandths (failed_charge do_not_honor) planning in
    Schedule thousandths 40 1 1000000 plan
    × (length plan ≤ network_max_attempts visa)
    × Follows thousandths
        (failed_charge do_not_honor)
        planning
        0
        1000000
        (strategy_for do_not_honor visa).delays_minutes
        plan
plan_retry_sequence-Schedule_example =
    plan_retry_sequence-Schedule thousandths (failed_charge do_not_honor) planning
      do_not_honor-retriable

plan_retry_sequence-SpacedOut_example :
    SpacedOut thousandths
      ((default_caps visa).min_minutes_between * 60000)
      (plan_retry_sequence thousandths (failed_charge do_not_honor) planning)
plan_retry_sequence-SpacedOut_example =
    plan_retry_sequence-SpacedOut thousandths (failed_charge do_not_honor) planning
      do_not_honor-retriable

plan_credential_recovery-InWindow_example :
    let plan = plan_credential_recovery lost_card 1000000 planning.methods in
    (length plan ≡ (
      if is_credential_problem lost_card
      then (if is_hard (family_of lost_card) then 5 else 7)
      else 0))
    × Sorted (λ s. s.at) plan
    × All (InWindow 1000000) plan
plan_credential_recovery-InWindow_example =
    plan_credential_recovery-InWindow lost_card 1000000 planning.methods

lost_card-retriable : is_retriable lost_card ≡ false
unfolding is_retriable family_of
lost_card-retriable = refl

abbrev broad : BinRange
broad = record {
  prefix = "42";
  info = record {
    region = na;
    issuer_id = none;
    country = none;
    brand = some "visa";
    card_type = none;
  };
}

abbrev narrow : BinRange
narrow = record broad { prefix = "424242" }

bin_lookup-IsMostSpecific_example :
    IsMostSpecific
      (digits_of "4242 4242")
      (broad ∷ narrow ∷ [])
      (bin_lookup (bin_region_index (broad ∷ narrow ∷ [])) (some "4242 4242"))
bin_lookup-IsMostSpecific_example = bin_lookup-IsMostSpecific (broad ∷ narrow ∷ []) "4242 4242" refl
