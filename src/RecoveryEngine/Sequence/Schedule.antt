-- ===== src/RecoveryEngine/Sequence/Schedule.antt =====
-- The planned attempts are numbered and timed as a schedule (packages/recovery-engine/src/
-- sequence.ts, `planRetrySequence`).
use ax10m.Common.{
  ℕ, ◌+◌, ◌*◌, ◌≡◌, ◌≤◌, ◌<◌, refl, subst, sym, ap, true, false, Option, List, [], ◌∷◌, length,
  arith, All, Bool-cases, inl, inr,
}
use ax10m.Canonical.{DeclineCode, is_retriable, family_of}
use ax10m.Guardrail.{default_caps}
use ax10m.RecoveryEngine.{retry, classify_decline, recommend, Scores, RecoveryFeatures}
use ax10m.RecoveryEngine.Strategy.{
  strategy_for, network_max_attempts, strategy_for-Fits, strategy_for-gaps, after_first,
}
use ax10m.RecoveryEngine.Sequence.{
  RetryStep, SequenceContext, plan_attempts, plan_by, plan_retry_sequence, features_at,
}

recommend_retry :
    (code : DeclineCode) → is_retriable code ≡ true → recommend code (family_of code) ≡ retry
unfolding is_retriable family_of
recommend_retry code h = ground arith

module _ (S : Scores) where
  open S use {Score, below, add_ms}

  -- Retries under consecutive numbers from n on, each later than the one before (the first later
  -- than t), and each with a score that is not below the floor.
  abbrev pub Schedule : Score → ℕ → ℕ → List (RetryStep Score) → Type 0
  Schedule floor n t [] = Unit {0}
  Schedule floor n t (s ∷ ss) =
      (s.attempt_number ≡ n)
      × (t < s.at)
      × (s.action ≡ retry)
      × (below s.expected_recoverability floor ≡ false)
      × Schedule floor (n + 1) s.at ss

  -- The charges from t on lie at least `gap` milliseconds apart.
  abbrev pub Spaced : ℕ → ℕ → List (RetryStep Score) → Type 0
  Spaced gap t [] = Unit {0}
  Spaced gap t (s ∷ ss) = (t + gap ≤ s.at) × Spaced gap s.at ss

  -- The first charge may come at any time.
  abbrev pub SpacedOut : ℕ → List (RetryStep Score) → Type 0
  SpacedOut gap [] = Unit {0}
  SpacedOut gap (s ∷ ss) = Spaced gap s.at ss

  module _ (features : RecoveryFeatures Score) (ctx : SequenceContext Score) where
    -- The steps follow the delays, and stop before the last one only where the attempt to come
    -- would score below the floor.
    abbrev pub Follows : ℕ → ℕ → List ℕ → List (RetryStep Score) → Type 0
    Follows i t [] [] = Unit {0}
    Follows i t [] (s ∷ ss) = ⊥
    Follows i t (d ∷ ds) [] =
        below (ctx.model (features_at S features ctx i (t + d * 60000)))
          ctx.min_recoverability_to_continue
        ≡ true
    Follows i t (d ∷ ds) (s ∷ ss) = (s.at ≡ t + d * 60000) × Follows (i + 1) (t + d * 60000) ds ss

    plan_attempts-Follows :
        (r : Option ℕ) (i t : ℕ) (ds : List ℕ)
        → Follows i t ds (plan_attempts S features ctx r i t ds)
    unfolding plan_attempts
    plan_attempts-Follows r i t [] = tt
    plan_attempts-Follows r i t (d ∷ ds) =
        elim (Bool-cases (
          below (ctx.model (features_at S features ctx i (t + d * 60000)))
            ctx.min_recoverability_to_continue)) [
              | inl e ↦ rw e e
              | inr e ↦ rw e (refl, plan_attempts-Follows r (i + 1) (t + d * 60000) ds)
            ]

  module _ (features : RecoveryFeatures Score) (ctx : SequenceContext Score) where
    pub plan-retriable :
        is_retriable features.decline_code ≡ true
        → plan_retry_sequence S features ctx ≡ plan_by S features ctx retry
    unfolding plan_retry_sequence classify_decline
    plan-retriable h = ap (plan_by S features ctx) (recommend_retry features.decline_code h)

    plan_attempts-Schedule :
        (r : Option ℕ) (i t : ℕ) (ds : List ℕ)
        → All (λ d. 0 < d) ds
        → Schedule ctx.min_recoverability_to_continue
            (features.attempt_number + i)
            t
            (plan_attempts S features ctx r i t ds)
    unfolding plan_attempts
    plan_attempts-Schedule r i t [] a = tt
    plan_attempts-Schedule r i t (d ∷ ds) a =
        let at = t + d * 60000 in
        let floor = ctx.min_recoverability_to_continue in
        let ih = plan_attempts-Schedule r (i + 1) (t + d * 60000) ds a.1 in
        elim (Bool-cases (below (ctx.model (features_at S features ctx i at)) floor)) [
          | inl e ↦ rw e tt
          | inr e ↦ rw e (
            refl,
            omega (arith, a.0),
            refl,
            e,
            subst (λ n. Schedule floor n at (plan_attempts S features ctx r (i + 1) at ds))
                (omega arith) ih,
          )
        ]

    length-plan_attempts :
        (r : Option ℕ) (i t : ℕ) (ds : List ℕ)
        → length (plan_attempts S features ctx r i t ds) ≤ length ds
    unfolding plan_attempts
    length-plan_attempts r i t [] = omega arith
    length-plan_attempts r i t (d ∷ ds) =
        ground (arith, length-plan_attempts r (i + 1) (t + d * 60000) ds)

    -- The plan for a retriable decline is a schedule of retries: the numbers go up by one from the
    -- attempt at hand, each is later than the one before and than now, and has a score that is not
    -- below the floor; there are no more of them than the network's ceiling; they follow the delays
    -- of the strategy, and stop before the last only where the next score would be below the floor.
    pub plan_retry_sequence-Schedule :
        is_retriable features.decline_code ≡ true
        → let plan = plan_retry_sequence S features ctx in
          Schedule ctx.min_recoverability_to_continue features.attempt_number ctx.now plan
          × (length plan ≤ network_max_attempts ctx.network)
          × Follows features ctx 0 ctx.now
              (strategy_for features.decline_code ctx.network).delays_minutes
              plan
    plan_retry_sequence-Schedule h =
        let strategy = strategy_for features.decline_code ctx.network in
        let fits = strategy_for-Fits features.decline_code ctx.network in
        let floor = ctx.min_recoverability_to_continue in
        let r = strategy.rotate_method_after_attempt in
        let ds = strategy.delays_minutes in
        let plan = plan_attempts S features ctx r 0 ctx.now ds in
        subst
          (λ p.
            Schedule floor features.attempt_number ctx.now p
            × (length p ≤ network_max_attempts ctx.network)
            × Follows features ctx 0 ctx.now ds p)
          (sym (plan-retriable h))
          (
            subst (λ n. Schedule floor n ctx.now plan) (omega arith)
                (plan_attempts-Schedule r 0 ctx.now ds fits.3),
            omega (arith, length-plan_attempts r 0 ctx.now ds, fits.0, fits.1),
            plan_attempts-Follows features ctx r 0 ctx.now ds,
          )

    plan_attempts-Spaced :
        (gap : ℕ) (r : Option ℕ) (i t : ℕ) (ds : List ℕ)
        → All (λ d. gap ≤ d) ds
        → Spaced (gap * 60000) t (plan_attempts S features ctx r i t ds)
    unfolding plan_attempts
    plan_attempts-Spaced gap r i t [] a = tt
    plan_attempts-Spaced gap r i t (d ∷ ds) a =
        elim (Bool-cases (
          below (ctx.model (features_at S features ctx i (t + d * 60000)))
            ctx.min_recoverability_to_continue)) [
              | inl e ↦ rw e tt
              | inr e ↦
                  rw e
                    (omega (arith, a.0), plan_attempts-Spaced gap r (i + 1) (t + d * 60000) ds a.1)
            ]

    plan_attempts-SpacedOut :
        (gap : ℕ) (r : Option ℕ) (i t : ℕ) (ds : List ℕ)
        → All (λ d. gap ≤ d) (after_first ds)
        → SpacedOut (gap * 60000) (plan_attempts S features ctx r i t ds)
    unfolding plan_attempts
    plan_attempts-SpacedOut gap r i t [] a = tt
    plan_attempts-SpacedOut gap r i t (d ∷ ds) a =
        elim (Bool-cases (
          below (ctx.model (features_at S features ctx i (t + d * 60000)))
            ctx.min_recoverability_to_continue)) [
              | inl e ↦ rw e tt
              | inr e ↦ rw e (plan_attempts-Spaced gap r (i + 1) (t + d * 60000) ds a)
            ]

    -- The charges planned for a retriable decline lie at least as far apart as the guardrail's
    -- default interval for the network asks.
    pub plan_retry_sequence-SpacedOut :
        is_retriable features.decline_code ≡ true
        → SpacedOut
            ((default_caps ctx.network).min_minutes_between * 60000)
            (plan_retry_sequence S features ctx)
    plan_retry_sequence-SpacedOut h =
        let strategy = strategy_for features.decline_code ctx.network in
        let gap = (default_caps ctx.network).min_minutes_between in
        subst (λ p. SpacedOut (gap * 60000) p) (sym (plan-retriable h))
          (plan_attempts-SpacedOut gap strategy.rotate_method_after_attempt 0 ctx.now
            strategy.delays_minutes (strategy_for-gaps features.decline_code ctx.network))
