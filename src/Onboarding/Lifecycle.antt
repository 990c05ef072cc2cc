-- ===== src/Onboarding/Lifecycle.antt =====
-- The states that an onboarding reaches (packages/onboarding/src/lifecycle.ts).
use ax10m.Common.{
  ℕ, ◌≡◌, refl, sym, ◌∙◌, ◌||◌, ap, subst, or_else, Bool-cases, inl, inr, Bool, true, false, String,
  Option, none, some,
}
use ax10m.Billing.{Numbers}
use ax10m.Onboarding.{
  OnboardingStatus, is_active, is_connecting, connecting, shadow, active, paused, OnboardingState,
  OnboardingConfig, Readiness, begin_onboarding, start_shadow, activate, pause,
}

abbrev pub is_given : Option ℕ → Bool
is_given none = false
is_given (some t) = true

-- What each status says of the webhooks and the activation.
abbrev pub ByStatus : OnboardingStatus → Bool → Option ℕ → Type 0
ByStatus connecting hooks activated = (hooks ≡ false) × (activated ≡ none)
ByStatus shadow hooks activated = (hooks ≡ true) × (activated ≡ none)
ByStatus active hooks activated = is_given activated ≡ true
ByStatus paused hooks activated = Unit {0}

connecting-ByStatus :
    (st : OnboardingStatus) (h : Bool) (a : Option ℕ)
    → is_connecting st ≡ true
    → ByStatus st h a
    → a ≡ none
connecting-ByStatus connecting h a e b = b.1
connecting-ByStatus shadow h a e b = absurd (cc)
connecting-ByStatus active h a e b = absurd (cc)
connecting-ByStatus paused h a e b = absurd (cc)

none-some : {A : Type 0} (x : A) → none ≡ some x → ⊥
none-some x e = absurd (cc)

some_inj : {A : Type 0} (x y : A) → some x ≡ some y → x ≡ y
some_inj x y e = ap (λ o. or_else o x) e

module _ (N : Numbers) where
  -- The operations on a merchant's state. An activation that throws is no step.
  pub data Step : OnboardingState N → OnboardingState N → Type 0 where
    starts : (s : OnboardingState N) (now : ℕ) → Step s (start_shadow N s now)
    activates :
        (s t : OnboardingState N) (r : Readiness) (now : ℕ) (force : Bool)
        → activate N s r now force ≡ some t
        → Step s t
    pauses : (s : OnboardingState N) → Step s (pause N s)

  pub data Reached : OnboardingState N → Type 0 where
    begins :
        (m p : String) (now : ℕ) (registered : Bool) (config : OnboardingConfig N)
        → Reached (begin_onboarding N m p now registered config)
    steps : {s t : OnboardingState N} → Reached s → Step s t → Reached t

  -- The webhooks are registered exactly when the shadow window has a start; a connecting merchant
  -- has neither, a shadow merchant both, neither is activated, and an active one is.
  abbrev pub IsConsistent : OnboardingState N → Type 0
  IsConsistent s =
      (s.webhooks_registered ≡ is_given s.shadow_started_at)
      × ByStatus s.status s.webhooks_registered s.activated_at

  begin-IsConsistent :
      (m p : String) (now : ℕ) (registered : Bool) (config : OnboardingConfig N)
      → IsConsistent (begin_onboarding N m p now registered config)
  unfolding begin_onboarding
  begin-IsConsistent m p now true config = (refl, (refl, refl))
  begin-IsConsistent m p now false config = (refl, (refl, refl))

  start_shadow-IsConsistent :
      (s : OnboardingState N) (now : ℕ) → IsConsistent s → IsConsistent (start_shadow N s now)
  unfolding start_shadow
  start_shadow-IsConsistent s now c = elim (Bool-cases (is_connecting s.status)) [
    | inl e ↦
        rw e (refl, (refl, connecting-ByStatus s.status s.webhooks_registered s.activated_at e c.1))
    | inr e ↦ rw e c
  ]

  activate_again :
      (s : OnboardingState N) (r : Readiness) (now : ℕ) (force : Bool)
      → is_active s.status ≡ true
      → activate N s r now force ≡ some s
  unfolding activate
  activate_again s r now force e = rw e refl

  activate_passes :
      (s : OnboardingState N) (r : Readiness) (now : ℕ) (force : Bool)
      → is_active s.status ≡ false
      → r.ready || force ≡ true
      → activate N s r now force ≡ some (record s { status = active; activated_at = some now })
  unfolding activate
  activate_passes s r now force e g = rw (e, g) refl

  activate_throws :
      (s : OnboardingState N) (r : Readiness) (now : ℕ) (force : Bool)
      → is_active s.status ≡ false
      → r.ready || force ≡ false
      → activate N s r now force ≡ none
  unfolding activate
  activate_throws s r now force e g = rw (e, g) refl

  activate-IsConsistent :
      (s t : OnboardingState N) (r : Readiness) (now : ℕ) (force : Bool)
      → activate N s r now force ≡ some t
      → IsConsistent s
      → IsConsistent t
  unfolding activate
  activate-IsConsistent s t r now force h c = elim (Bool-cases (is_active s.status)) [
    | inl e ↦ subst IsConsistent (some_inj s t (sym (activate_again s r now force e) ∙ h)) c
    | inr e ↦ elim (Bool-cases (r.ready || force)) [
      | inl g ↦
          subst IsConsistent
            (some_inj (record s { status = active; activated_at = some now }) t
              (sym (activate_passes s r now force e g) ∙ h))
            (c.0, refl)
      | inr g ↦ absurd (none-some t (sym (activate_throws s r now force e g) ∙ h))
    ]
  ]

  Step-IsConsistent : {s t : OnboardingState N} → Step s t → IsConsistent s → IsConsistent t
  unfolding pause
  Step-IsConsistent (starts s now) c = start_shadow-IsConsistent s now c
  Step-IsConsistent (activates s t r now force h) c = activate-IsConsistent s t r now force h c
  Step-IsConsistent (pauses s) c = (c.0, tt)

  -- Whatever operations a merchant goes through, its webhooks are registered exactly when the shadow
  -- window has a start; while connecting it has neither and in shadow both, in neither is it
  -- activated, and an active merchant has an activation instant.
  pub Reached-IsConsistent : {s : OnboardingState N} → Reached s → IsConsistent s
  Reached-IsConsistent (begins m p now registered config) =
      begin-IsConsistent m p now registered config
  Reached-IsConsistent (steps r st) = Step-IsConsistent st (Reached-IsConsistent r)
