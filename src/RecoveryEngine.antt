-- ===== src/RecoveryEngine.antt =====
-- The recovery engine of packages/recovery-engine/src: what to do about a decline
-- (decline-intel.ts), the retry cadence (retry-strategy.ts), the planned sequence of attempts
-- (sequence.ts) and the recovery of dead credentials (credential-recovery.ts). Scores and days are
-- JavaScript numbers, for which any ordered type with the operations that the code uses may stand
-- (`Scores`); the scoring model is any function (`RecoverabilityModel` is an interface).
pub mod Strategy
pub mod Sequence
pub mod Credential
pub mod FeatureStore
mod Examples
use ax10m.Common.{
  ℕ, Bool, true, false, String, Option, none, some, List, [], ◌∷◌, if◌then◌else◌, or_else,
}
use ax10m.Canonical.{
  DeclineFamily, DeclineCode, family_of, is_retriable, is_hard, is_expired, is_fraud,
}

pub data RecommendedAction : Type 0 where
  retry card_update suppress : RecommendedAction

-- Without the description, which is only shown.
pub record DeclineClassification : Type 0 where
  pub code : DeclineCode
  pub family : DeclineFamily
  pub retriable : Bool
  pub recommended_action : RecommendedAction

abbrev pub recommend : DeclineCode → DeclineFamily → RecommendedAction
recommend code family =
    if is_fraud code
    then suppress
    else (if is_expired code then card_update else (if is_hard family then card_update else retry))

unfoldable pub classify_decline : DeclineCode → DeclineClassification
unfolding family_of is_retriable
classify_decline code = record {
  code = code;
  family = family_of code;
  retriable = is_retriable code;
  recommended_action = recommend code (family_of code);
}

pub data CardProductType : Type 0 where
  credit debit prepaid unknown_type : CardProductType

pub data IssuerRegion : Type 0 where
  na emea latam apac unknown_region : IssuerRegion

-- `number` as the planner uses it: `x < y`, and `days + ms / 86_400_000`.
pub record Scores : Type 1 where
  pub Score : Type 0
  pub below : Score → Score → Bool
  pub add_ms : Score → ℕ → Score

pub record RecoveryFeatures (Score : Type 0) : Type 0 where
  pub decline_code : DeclineCode
  pub amount_minor : ℕ
  pub currency : String
  pub issuer_region : IssuerRegion
  pub card_type : Option CardProductType
  pub customer_tenure_days : Score
  pub prior_recovery_rate : Score
  pub attempt_number : ℕ
  pub days_since_first_fail : Score
  pub issuer_approval_prior : Option Score

pub record AvailableMethod : Type 0 where
  pub ref : String
  pub auto_updated : Option Bool
  pub is_default : Option Bool
