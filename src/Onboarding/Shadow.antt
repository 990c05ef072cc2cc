-- ===== src/Onboarding/Shadow.antt =====
-- What the onboarding service observes of a merchant in shadow (apps/api/src/onboarding/
-- onboarding.service.ts): the failures, and which of them the merchant recovered by itself.
use ax10m.Common.{ℕ, Bool, true, false, String, none, some, if◌then◌else◌}
use ax10m.Common.Dict.{Dict, lookup, insert}
use ax10m.Canonical.{DeclineCode}
use ax10m.Billing.{Numbers}
use ax10m.Onboarding.{OnboardingStatus, shadow, OnboardingState}

pub record ShadowObservation : Type 0 where
  pub decline_code : DeclineCode
  pub amount : ℕ
  pub baseline_recovered : Bool

abbrev pub is_shadow : OnboardingStatus → Bool
is_shadow shadow = true
is_shadow _ = false

module _ (N : Numbers) where
  pub record MerchantOnboarding : Type 0 where
    pub state : OnboardingState N
    pub observations : Dict ShadowObservation

  -- `store`
  abbrev pub Merchants : Type 0
  Merchants = Dict MerchantOnboarding

  -- A merchant that is unknown, or not in shadow, is left alone.
  abbrev pub observing : Merchants → String → (MerchantOnboarding → MerchantOnboarding) → Merchants
  observing store merchant f = elim (lookup merchant store) [
    | none ↦ store
    | some m ↦ if is_shadow m.state.status then insert merchant (f m) store else store
  ]

  unfoldable pub record_failure : Merchants → String → String → DeclineCode → ℕ → Merchants
  record_failure store merchant invoice code amount = observing store merchant (λ m. record m {
    observations =
        insert invoice (record { decline_code = code; amount = amount; baseline_recovered = false })
          m.observations;
  })

  abbrev pub mark_recovered : String → Dict ShadowObservation → Dict ShadowObservation
  mark_recovered invoice observations = elim (lookup invoice observations) [
    | none ↦ observations
    | some o ↦ insert invoice (record o { baseline_recovered = true }) observations
  ]

  unfoldable pub record_baseline_recovery : Merchants → String → String → Merchants
  record_baseline_recovery store merchant invoice =
      observing store merchant
        (λ m. record m { observations = mark_recovered invoice m.observations })
