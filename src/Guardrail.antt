-- ===== src/Guardrail.antt =====
-- The compliance guardrail of packages/guardrail/src: types.ts and guardrail.ts. A decision keeps
-- the machine-readable reason and leaves out the message text.
pub mod Permitted
pub mod Quiet
mod Examples
use ax10m.Common.{
  ℕ, Bool, true, false, ◌&&◌, ◌||◌, Option, none, some, ltb, leb, ◌==◌, if◌then◌else◌, or_else, not,
}
use ax10m.Canonical.{DeclineFamily, DeclineCode, is_hard, is_retriable}

-- The last constructor is any kind that the guardrail does not know at run time.
pub data ProposedActionKind : Type 0 where
  charge_retry fresh_credential_charge comms unrecognized : ProposedActionKind

pub data CardNetwork : Type 0 where
  visa mastercard amex discover other : CardNetwork

pub record ProposedAction : Type 0 where
  pub kind : ProposedActionKind
  pub decline_code : DeclineCode
  pub decline_family : DeclineFamily
  pub attempts_so_far : ℕ
  pub card_network : Option CardNetwork
  pub attempts_in_window : Option ℕ
  pub minutes_since_last_attempt : Option ℕ
  pub local_hour : ℕ
  pub has_consent : Bool
  pub globally_opted_out : Bool

pub record NetworkRetryCap : Type 0 where
  pub max_attempts_per_window : ℕ
  pub window_days : ℕ
  pub min_minutes_between : ℕ

pub record HourWindow : Type 0 where
  pub start : ℕ
  pub end : ℕ

pub record GuardrailPolicy : Type 0 where
  pub max_retry_attempts : ℕ
  pub network_caps : Option (CardNetwork → NetworkRetryCap)
  pub quiet_hours : HourWindow

-- `CONSERVATIVE_CAP`
abbrev pub conservative_cap : ℕ → NetworkRetryCap
conservative_cap n = record {
  max_attempts_per_window = n;
  window_days = 30;
  min_minutes_between = 60;
}

abbrev pub default_caps : CardNetwork → NetworkRetryCap
default_caps visa = conservative_cap 15
default_caps mastercard = conservative_cap 10
default_caps amex = conservative_cap 10
default_caps discover = conservative_cap 10
default_caps other = conservative_cap 8

-- `DEFAULT_GUARDRAIL_POLICY`
abbrev pub default_guardrail_policy : GuardrailPolicy
default_guardrail_policy = record {
  max_retry_attempts = 8;
  network_caps = some default_caps;
  quiet_hours = record { start = 21; end = 8 };
}

pub data SuppressionReason : Type 0 where
  hard_decline retry_cap_reached quiet_hours no_consent global_opt_out : SuppressionReason
  non_retriable_code network_window_cap_reached min_interval_not_elapsed : SuppressionReason
  unknown_action : SuppressionReason

pub data GuardrailDecision : Type 0 where
  allow : GuardrailDecision
  suppress : SuppressionReason → GuardrailDecision

unfoldable pub in_quiet_hours : ℕ → HourWindow → Bool
in_quiet_hours hour w =
    if w.start == w.end
    then false
    else if ltb w.end w.start
    then leb w.start hour || ltb hour w.end
    else leb w.start hour && ltb hour w.end

-- `minutes !== undefined && minutes < min`
abbrev pub too_soon : Option ℕ → ℕ → Bool
too_soon none min = false
too_soon (some m) min = ltb m min

-- The rules of one network, `if (cap) { … } return ALLOW;`.
check_network : ProposedAction → NetworkRetryCap → GuardrailDecision
check_network a cap =
    if too_soon a.minutes_since_last_attempt cap.min_minutes_between
    then suppress min_interval_not_elapsed
    else if leb cap.max_attempts_per_window (or_else a.attempts_in_window a.attempts_so_far)
    then suppress network_window_cap_reached
    else allow

check_caps : ProposedAction → Option (CardNetwork → NetworkRetryCap) → GuardrailDecision
unfolding check_network
check_caps a none = allow
check_caps a (some caps) = check_network a (caps (or_else a.card_network other))

-- The caps that both kinds of charge meet.
check_charge : ProposedAction → GuardrailPolicy → GuardrailDecision
unfolding check_caps
check_charge a policy =
    if leb policy.max_retry_attempts a.attempts_so_far
    then suppress retry_cap_reached
    else check_caps a policy.network_caps

check_comms : ProposedAction → GuardrailPolicy → GuardrailDecision
unfolding in_quiet_hours
check_comms a policy =
    if not a.has_consent
    then suppress no_consent
    else if in_quiet_hours a.local_hour policy.quiet_hours
    then suppress quiet_hours
    else allow

check_kind : ProposedActionKind → ProposedAction → GuardrailPolicy → GuardrailDecision
unfolding check_charge check_comms is_retriable
check_kind charge_retry a policy =
    if is_hard a.decline_family
    then suppress hard_decline
    else if not (is_retriable a.decline_code)
    then suppress non_retriable_code
    else check_charge a policy
check_kind fresh_credential_charge a policy = check_charge a policy
check_kind comms a policy = check_comms a policy
check_kind unrecognized a policy = suppress unknown_action

unfoldable pub evaluate : ProposedAction → GuardrailPolicy → GuardrailDecision
unfolding check_kind
evaluate a policy =
    if a.globally_opted_out then suppress global_opt_out else check_kind a.kind a policy
