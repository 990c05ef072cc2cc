-- ===== src/Onboarding/Gate.antt =====
-- What an unforced activation takes (packages/onboarding/src/lifecycle.ts, `readiness` and
-- `activate`).
use ax10m.Common.{
  ap, ◌∙◌, if◌then◌else◌, some, ℕ, ◌≡◌, ◌≢◌, ◌↔◌, ◌≤◌, refl, Bool, true, false, not, none, [], ltb,
  arith, inl, inr, Bool-cases,
}
use ax10m.Common.Int.{pos, leb_ℤ}
use ax10m.Billing.{Numbers}
use ax10m.Onboarding.{
  OnboardingStatus, active, paused, is_active, is_paused, OnboardingState, OnboardingConfig,
  ShadowProjection, ShadowProgress, readiness, activate, no_positive_uplift, insufficient_failures,
  window_not_complete, onboarding_paused, push_if, is_empty, Readiness,
}

module _ (N : Numbers) where
  -- The window is over, enough failures were seen, the uplift is positive, and nobody paused.
  abbrev pub Ready :
      OnboardingState N → ShadowProjection → ShadowProgress N → OnboardingConfig N → Type 0
  Ready s projection progress config =
      (s.status ≢ paused)
      × (progress.window_complete ≡ true)
      × (config.min_failures_to_activate ≤ projection.observed_failures)
      × (leb_ℤ projection.projected_monthly_value (pos 0) ≡ false)

  no_reasons :
      (p w f u : Bool)
      → is_empty N (
            push_if N u no_positive_uplift (
              push_if N f insufficient_failures
                (push_if N (not w) window_not_complete (push_if N p onboarding_paused []))))
          ≡ true
        ↔ ((p ≡ false) × (w ≡ true) × (f ≡ false) × (u ≡ false))
  no_reasons p w f u = (λ h. ground (arith, h), λ h. ground (arith, h))

  inactive_of : (st : OnboardingStatus) → st ≢ active → is_active st ≡ false
  inactive_of st h = ground (arith, h)

  -- The tests behind the conditions.
  abbrev Tests :
      OnboardingState N → ShadowProjection → ShadowProgress N → OnboardingConfig N → Type 0
  Tests s projection progress config =
      (is_paused s.status ≡ false)
      × (progress.window_complete ≡ true)
      × (ltb projection.observed_failures config.min_failures_to_activate ≡ false)
      × (leb_ℤ projection.projected_monthly_value (pos 0) ≡ false)

  gates_iff :
      (s : OnboardingState N) (projection : ShadowProjection) (progress : ShadowProgress N)
      (config : OnboardingConfig N)
      → Tests s projection progress config ↔ Ready s projection progress config
  gates_iff s projection progress config = (
    λ t. (ground (arith, t.0), t.1, ground (arith, t.2), t.3),
    λ r. (ground (arith, r.0), r.1, ground (arith, r.2), r.3),
  )

  ready_iff :
      (s : OnboardingState N) (projection : ShadowProjection) (progress : ShadowProgress N)
      (config : OnboardingConfig N)
      → is_active s.status ≡ false
      → ((readiness N s projection progress config).ready ≡ true)
        ↔ Tests s projection progress config
  unfolding readiness
  ready_iff s projection progress config off = rw off (
      no_reasons (is_paused s.status) progress.window_complete
        (ltb projection.observed_failures config.min_failures_to_activate)
        (leb_ℤ projection.projected_monthly_value (pos 0)))

  -- The state of a merchant that has just been activated.
  abbrev pub activated_from : OnboardingState N → ℕ → OnboardingState N
  activated_from s now = record s { status = active; activated_at = some now }

  activate_by :
      (s : OnboardingState N) (r : Readiness) (now : ℕ)
      → is_active s.status ≡ false
      → activate N s r now false ≡ (if r.ready then some (activated_from s now) else none)
  unfolding activate
  activate_by s r now off = elim (Bool-cases r.ready) [
    | inl e ↦ rw (off, e) refl
    | inr e ↦ rw (off, e) refl
  ]

  -- A merchant that is not active yet and holds all four conditions is activated without force: the
  -- status becomes active, the time of the activation is the present one, and all else is as before. If
  -- one of the conditions does not hold, the call throws.
  pub activate_iff :
      (s : OnboardingState N) (projection : ShadowProjection) (progress : ShadowProgress N)
      (config : OnboardingConfig N) (now : ℕ)
      → s.status ≢ active
      → (Ready s projection progress config
          → activate N s (readiness N s projection progress config) now false
            ≡ some (activated_from s now))
        × (¬ Ready s projection progress config
            → activate N s (readiness N s projection progress config) now false ≡ none)
  activate_iff s projection progress config now h =
      let r = readiness N s projection progress config in
      let off = inactive_of s.status h in
      let out = activate_by s r now off in
      let k = ready_iff s projection progress config off in
      let g = gates_iff s projection progress config in
      (
        λ q. out ∙ ap (λ (b : Bool). if b then some (activated_from s now) else none) (k.1 (g.1 q)),
        λ n. out ∙ unready r.ready (λ e. n (g.0 (k.0 e))),
      )
    where
      unready :
          (b : Bool) → (b ≡ true → ⊥) → (if b then some (activated_from s now) else none) ≡ none
      unready true n = absurd (n refl)
      unready false n = refl
