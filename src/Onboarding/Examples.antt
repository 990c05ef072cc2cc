-- ===== src/Onboarding/Examples.antt =====
-- Instances of the theorems on the onboarding lifecycle.
use ax10m.Common.{some, ℕ, ◌*◌, ◌/◌, ◌-◌, ◌≡◌, ◌≢◌, refl, true, false, none, ltb, min, max}
use ax10m.Common.Int.{pos, pos_part, ◌-ℤ◌}
use ax10m.Billing.{Numbers}
use ax10m.Onboarding.{
  OnboardingState, OnboardingConfig, ShadowProjection, active, begin_onboarding, start_shadow,
  shadow_progress, readiness, activate,
}
use ax10m.Onboarding.Gate.{activated_from, Ready, activate_iff}
use ax10m.Onboarding.Lifecycle.{IsConsistent, begins, steps, starts, Reached-IsConsistent}

abbrev days : Numbers
days = record {
  Real = ℕ;
  of_int = pos_part;
  ratio = λ a b. a / b;
  sub = λ a b. a - b;
  mul = λ a b. a * b;
  div = λ a b. a / b;
  min_of = min;
  max_of = max;
  lt = ltb;
  round = pos;
}

abbrev config : OnboardingConfig days
config = record { shadow_window_days = 14; min_failures_to_activate = 200 }

abbrev begun : OnboardingState days
begun = begin_onboarding days "m_1" "stripe" 0 true config

abbrev projection : ShadowProjection
projection = record { observed_failures = 250; projected_monthly_value = pos 90000 }

-- Fifteen days later the window is over.
on_day_15 :
    (readiness days begun projection (shadow_progress days begun 1296000000) config).ready ≡ true
unfolding readiness shadow_progress begin_onboarding ◌-ℤ◌
on_day_15 = refl

begun_inactive : begun.status ≢ active
unfolding begin_onboarding
begun_inactive e = absurd (cc)

activate_iff_example :
    (Ready days begun projection (shadow_progress days begun 1296000000) config
      → activate days begun
          (readiness days begun projection (shadow_progress days begun 1296000000) config)
          1296000000
          false
        ≡ some (activated_from days begun 1296000000))
    × (¬ Ready days begun projection (shadow_progress days begun 1296000000) config
        → activate days begun
            (readiness days begun projection (shadow_progress days begun 1296000000) config)
            1296000000
            false
          ≡ none)
activate_iff_example =
    activate_iff days begun projection (shadow_progress days begun 1296000000) config 1296000000
      begun_inactive

-- Connected without webhooks, then measured, then paused.
abbrev measured : OnboardingState days
measured = start_shadow days (begin_onboarding days "m_1" "stripe" 0 false config) 5

Reached-IsConsistent_example : IsConsistent days measured
Reached-IsConsistent_example = Reached-IsConsistent days (
    steps (begins "m_1" "stripe" 0 false config)
      (starts (begin_onboarding days "m_1" "stripe" 0 false config) 5))
