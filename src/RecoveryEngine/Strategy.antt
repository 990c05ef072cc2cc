-- ===== src/RecoveryEngine/Strategy.antt =====
-- Retry cadences by decline code and network (packages/recovery-engine/src/retry-strategy.ts).
use ax10m.Common.{
  ℕ, ◌≡◌, ◌↔◌, ◌≤◌, ◌<◌, true, Option, none, some, List, [], ◌∷◌, length, take, ltb, if◌then◌else◌,
  arith, All,
}
use ax10m.Canonical.{
  DeclineCode, insufficient_funds, issuer_unavailable, processing_error, try_again_later,
  velocity_limit_exceeded, authentication_required, do_not_honor, family_of, is_retriable,
}
use ax10m.Guardrail.{CardNetwork, visa, mastercard, amex, discover, other, default_caps}
use ax10m.RecoveryEngine.{RecommendedAction, retry, card_update, suppress, classify_decline}

pub record RetryStrategy : Type 0 where
  pub code : DeclineCode
  pub network : CardNetwork
  pub action : RecommendedAction
  pub max_attempts : ℕ
  pub delays_minutes : List ℕ
  pub rotate_method_after_attempt : Option ℕ

-- `NETWORK_MAX_ATTEMPTS`
abbrev pub network_max_attempts : CardNetwork → ℕ
network_max_attempts visa = 4
network_max_attempts mastercard = 4
network_max_attempts amex = 3
network_max_attempts discover = 3
network_max_attempts other = 2

pub record Cadence : Type 0 where
  pub delays : List ℕ
  pub rotate_after : Option ℕ

abbrev pub base_cadence : DeclineCode → Cadence
base_cadence insufficient_funds = record {
  delays = 1440 ∷ 4320 ∷ 14400 ∷ 20160 ∷ [];
  rotate_after = none;
}
base_cadence issuer_unavailable = record {
  delays = 15 ∷ 240 ∷ 1440 ∷ 7200 ∷ [];
  rotate_after = none;
}
base_cadence processing_error = record { delays = 15 ∷ 240 ∷ 1440 ∷ 7200 ∷ []; rotate_after = none }
base_cadence try_again_later = record { delays = 15 ∷ 240 ∷ 1440 ∷ 7200 ∷ []; rotate_after = none }
base_cadence velocity_limit_exceeded = record {
  delays = 1440 ∷ 5760 ∷ 14400 ∷ [];
  rotate_after = none;
}
base_cadence authentication_required = record { delays = 60 ∷ 2880 ∷ []; rotate_after = none }
base_cadence do_not_honor = record {
  delays = 720 ∷ 4320 ∷ 11520 ∷ 21600 ∷ [];
  rotate_after = some 2;
}
base_cadence _ = record { delays = 720 ∷ 4320 ∷ 14400 ∷ []; rotate_after = none }

-- `rotateAfter !== undefined && rotateAfter < capped.length ? rotateAfter : undefined`
abbrev pub rotation : Option ℕ → ℕ → Option ℕ
rotation none n = none
rotation (some r) n = if ltb r n then some r else none

abbrev pub no_strategy : DeclineCode → CardNetwork → RecommendedAction → RetryStrategy
no_strategy code network action = record {
  code = code;
  network = network;
  action = action;
  max_attempts = 0;
  delays_minutes = [];
  rotate_method_after_attempt = none;
}

abbrev pub retry_strategy : DeclineCode → CardNetwork → RetryStrategy
retry_strategy code network =
    let base = base_cadence code in
    let capped = take (network_max_attempts network) base.delays in
    record {
      code = code;
      network = network;
      action = retry;
      max_attempts = length capped;
      delays_minutes = capped;
      rotate_method_after_attempt = rotation base.rotate_after (length capped);
    }

abbrev pub strategy_by : DeclineCode → CardNetwork → RecommendedAction → RetryStrategy
strategy_by code network retry = retry_strategy code network
strategy_by code network card_update = no_strategy code network card_update
strategy_by code network suppress = no_strategy code network suppress

unfoldable pub strategy_for : DeclineCode → CardNetwork → RetryStrategy
unfolding classify_decline
strategy_for code network = strategy_by code network (classify_decline code).recommended_action

-- The strategy proposes charges exactly for the codes that the taxonomy calls retriable, whatever
-- the network.
pub strategy_for-retriable :
    (code : DeclineCode) (network : CardNetwork)
    → ((strategy_for code network).action ≡ retry) ↔ (is_retriable code ≡ true)
unfolding strategy_for classify_decline is_retriable family_of
strategy_for-retriable code network = (λ h. ground arith, λ h. ground arith)

-- A rotation, if there is one, comes before the last attempt.
abbrev Rotates : Option ℕ → ℕ → Type 0
Rotates none n = Unit {0}
Rotates (some r) n = r < n

-- A strategy of the network lists one positive delay per attempt, no more attempts than the
-- network tolerates, and rotates before the last of them.
abbrev pub Fits : CardNetwork → RetryStrategy → Type 0
Fits network s =
    (s.max_attempts ≡ length s.delays_minutes)
    × (s.max_attempts ≤ network_max_attempts network)
    × (s.max_attempts ≤ (default_caps network).max_attempts_per_window)
    × All (λ d. 0 < d) s.delays_minutes
    × Rotates s.rotate_method_after_attempt s.max_attempts

retry_strategy-Fits :
    (code : DeclineCode) (network : CardNetwork) → Fits network (retry_strategy code network)
retry_strategy-Fits code network = ground arith

strategy_by-Fits :
    (code : DeclineCode) (network : CardNetwork) (action : RecommendedAction)
    → Fits network (strategy_by code network action)
strategy_by-Fits code network retry = retry_strategy-Fits code network
strategy_by-Fits code network card_update = ground arith
strategy_by-Fits code network suppress = ground arith

-- For every code and network the strategy lists one positive delay per attempt, at most as many
-- attempts as the network's ceiling here and the guardrail's default cap allow, and a rotation of
-- the credential, if any, before the last attempt.
pub strategy_for-Fits :
    (code : DeclineCode) (network : CardNetwork) → Fits network (strategy_for code network)
unfolding strategy_for classify_decline
strategy_for-Fits code network =
    strategy_by-Fits code network (classify_decline code).recommended_action

abbrev pub after_first : List ℕ → List ℕ
after_first [] = []
after_first (d ∷ ds) = ds

retry_strategy-gaps :
    (code : DeclineCode) (network : CardNetwork)
    → All
        (λ d. (default_caps network).min_minutes_between ≤ d)
        (after_first (retry_strategy code network).delays_minutes)
retry_strategy-gaps code network = ground arith

strategy_by-gaps :
    (code : DeclineCode) (network : CardNetwork) (action : RecommendedAction)
    → All
        (λ d. (default_caps network).min_minutes_between ≤ d)
        (after_first (strategy_by code network action).delays_minutes)
strategy_by-gaps code network retry = retry_strategy-gaps code network
strategy_by-gaps code network card_update = tt
strategy_by-gaps code network suppress = tt

-- All delays but the first respect the guardrail's default interval.
pub strategy_for-gaps :
    (code : DeclineCode) (network : CardNetwork)
    → All
        (λ d. (default_caps network).min_minutes_between ≤ d)
        (after_first (strategy_for code network).delays_minutes)
unfolding strategy_for classify_decline
strategy_for-gaps code network =
    strategy_by-gaps code network (classify_decline code).recommended_action
