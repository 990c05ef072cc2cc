-- ===== src/Guardrail/Examples.antt =====
-- Concrete actions for packages/guardrail/src, and the theorems at them.
use ax10m.Common.{◌≡◌, ◌↔◌, refl, true, false, some}
use ax10m.Canonical.{insufficient_funds, lost_card, soft, hard}
use ax10m.Guardrail.{
  ProposedAction, charge_retry, fresh_credential_charge, comms, unrecognized, visa,
  default_guardrail_policy, allow, suppress, hard_decline, quiet_hours, unknown_action,
  min_interval_not_elapsed, evaluate,
}
use ax10m.Guardrail.Permitted.{Permitted, evaluate_iff}

-- A retry on a Visa card, two hours after its first attempt.
abbrev second_retry : ProposedAction
second_retry = record {
  kind = charge_retry;
  decline_code = insufficient_funds;
  decline_family = soft;
  attempts_so_far = 1;
  card_network = some visa;
  attempts_in_window = some 1;
  minutes_since_last_attempt = some 120;
  local_hour = 3;
  has_consent = true;
  globally_opted_out = false;
}

lost_card_blocked :
    evaluate
      (record second_retry { decline_code = lost_card; decline_family = hard })
      default_guardrail_policy
    ≡ suppress hard_decline
unfolding evaluate
lost_card_blocked = refl

fresh_card_allowed :
    evaluate
      (record second_retry {
        kind = fresh_credential_charge;
        decline_code = lost_card;
        decline_family = hard;
      })
      default_guardrail_policy
    ≡ allow
unfolding evaluate
fresh_card_allowed = refl

message_at_night :
    evaluate (record second_retry { kind = comms }) default_guardrail_policy ≡ suppress quiet_hours
unfolding evaluate
message_at_night = refl

hammering_blocked :
    evaluate (record second_retry { minutes_since_last_attempt = some 59 }) default_guardrail_policy
    ≡ suppress min_interval_not_elapsed
unfolding evaluate
hammering_blocked = refl

fails_closed :
    evaluate (record second_retry { kind = unrecognized }) default_guardrail_policy
    ≡ suppress unknown_action
unfolding evaluate
fails_closed = refl

evaluate_iff_example :
    (evaluate second_retry default_guardrail_policy ≡ allow)
    ↔ Permitted second_retry default_guardrail_policy
evaluate_iff_example = evaluate_iff second_retry default_guardrail_policy
