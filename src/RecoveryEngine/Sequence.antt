-- ===== src/RecoveryEngine/Sequence.antt =====
-- The planned sequence of attempts (packages/recovery-engine/src/sequence.ts). Instants are valid
-- milliseconds; the rationale of a step is left out.
pub mod Schedule
pub mod Methods
use ax10m.Common.{
  ℕ, ◌+◌, ◌*◌, ◌-◌, Bool, false, not, String, Option, none, some, List, [], ◌∷◌, find?, or_else,
  map_option, leb, if◌then◌else◌,
}
use ax10m.Guardrail.{CardNetwork}
use ax10m.RecoveryEngine.{
  RecommendedAction, retry, card_update, suppress, classify_decline, Scores, RecoveryFeatures,
  AvailableMethod,
}
use ax10m.RecoveryEngine.Strategy.{strategy_for}

pub record RetryStep (Score : Type 0) : Type 0 where
  pub attempt_number : ℕ
  pub at : ℕ
  pub action : RecommendedAction
  pub method_ref : Option String
  pub expected_recoverability : Score

-- The model and the floor are given; the source has defaults for both.
pub record SequenceContext (Score : Type 0) : Type 0 where
  pub now : ℕ
  pub methods : List AvailableMethod
  pub network : CardNetwork
  pub min_recoverability_to_continue : Score
  pub model : RecoveryFeatures Score → Score

abbrev pub is_auto_updated : AvailableMethod → Bool
is_auto_updated m = or_else m.auto_updated false

abbrev pub is_default_method : AvailableMethod → Bool
is_default_method m = or_else m.is_default false

abbrev pub first_method : List AvailableMethod → Option AvailableMethod
first_method [] = none
first_method (m ∷ ms) = some m

-- `a ?? b` where b may itself be undefined.
abbrev pub otherwise {ℓ} : {A : Type ℓ} → Option A → Option A → Option A
otherwise none b = b
otherwise (some a) b = some a

abbrev pub pick_default : List AvailableMethod → Option AvailableMethod
pick_default ms =
    otherwise (find? is_auto_updated ms) (otherwise (find? is_default_method ms) (first_method ms))

abbrev pub pick_alternate : List AvailableMethod → Option AvailableMethod
pick_alternate ms = otherwise (find? (λ m. not (is_default_method m)) ms) (find? is_auto_updated ms)

-- `rotateMethodAfterAttempt !== undefined && i >= rotateMethodAfterAttempt`
abbrev pub rotates : Option ℕ → ℕ → Bool
rotates none i = false
rotates (some r) i = leb r i

abbrev pub pick_method : List AvailableMethod → Bool → Option AvailableMethod
pick_method ms rotate =
    otherwise (if rotate then pick_alternate ms else pick_default ms) (pick_default ms)

module _ (S : Scores) where
  open S use {Score, below, add_ms}

  module _ (features : RecoveryFeatures Score) (ctx : SequenceContext Score) where
    -- The features as they will be at an attempt to come.
    abbrev pub features_at : ℕ → ℕ → RecoveryFeatures Score
    features_at i cursor = record features {
      attempt_number = features.attempt_number + i;
      days_since_first_fail = add_ms features.days_since_first_fail (cursor - ctx.now);
    }

    abbrev pub step_at : Option ℕ → ℕ → ℕ → RetryStep Score
    step_at rotate_after i cursor = record {
      attempt_number = features.attempt_number + i;
      at = cursor;
      action = retry;
      method_ref = map_option (λ m. m.ref) (pick_method ctx.methods (rotates rotate_after i));
      expected_recoverability = ctx.model (features_at i cursor);
    }

    -- The loop over the delays, which are as many as the attempts; it breaks at the first score
    -- below the floor.
    unfoldable pub plan_attempts : Option ℕ → ℕ → ℕ → List ℕ → List (RetryStep Score)
    plan_attempts rotate_after i cursor [] = []
    plan_attempts rotate_after i cursor (d ∷ ds) =
        let at = cursor + d * 60000 in
        let rest = plan_attempts rotate_after (i + 1) (cursor + d * 60000) ds in
        if below (ctx.model (features_at i at)) ctx.min_recoverability_to_continue
        then []
        else step_at rotate_after i at ∷ rest

    abbrev pub terminal_step : RecommendedAction → RetryStep Score
    terminal_step action = record {
      attempt_number = features.attempt_number;
      at = ctx.now;
      action = action;
      method_ref = none;
      expected_recoverability = ctx.model features;
    }

    abbrev pub plan_by : RecommendedAction → List (RetryStep Score)
    plan_by retry =
        let strategy = strategy_for features.decline_code ctx.network in
        plan_attempts strategy.rotate_method_after_attempt 0 ctx.now strategy.delays_minutes
    plan_by card_update = terminal_step card_update ∷ []
    plan_by suppress = terminal_step suppress ∷ []

    unfoldable pub plan_retry_sequence : List (RetryStep Score)
    unfolding classify_decline
    plan_retry_sequence = plan_by (classify_decline features.decline_code).recommended_action
