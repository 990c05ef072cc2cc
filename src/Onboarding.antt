-- ===== src/Onboarding.antt =====
-- The onboarding lifecycle of packages/onboarding/src/lifecycle.ts: connecting, shadow, active and
-- paused. Instants are `none` where `Date.parse` gives NaN; a day count is one of JavaScript's
-- fractional numbers (Billing.Numbers). A call that throws gives `none`, and a reason keeps its
-- case without the figures that are printed with it.
pub mod Gate
pub mod Lifecycle
pub mod Shadow
mod Examples
use ax10m.Common.{
  ℕ, Bool, true, false, ◌||◌, not, String, Option, none, some, List, [], ◌∷◌, ◌++◌, ltb,
  if◌then◌else◌, or_else,
}
use ax10m.Common.Int.{ℤ, pos, ◌-ℤ◌, leb_ℤ}
use ax10m.Billing.{Numbers}

pub data OnboardingStatus : Type 0 where
  connecting shadow active paused : OnboardingStatus

pub data ReadinessReason : Type 0 where
  already_active onboarding_paused window_not_complete insufficient_failures : ReadinessReason
  no_positive_uplift : ReadinessReason

pub record Readiness : Type 0 where
  pub ready : Bool
  pub reasons : List ReadinessReason

-- What `readiness` reads of a projection.
pub record ShadowProjection : Type 0 where
  pub observed_failures : ℕ
  pub projected_monthly_value : ℤ

abbrev pub is_connecting : OnboardingStatus → Bool
is_connecting connecting = true
is_connecting _ = false

abbrev pub is_active : OnboardingStatus → Bool
is_active active = true
is_active _ = false

abbrev pub is_paused : OnboardingStatus → Bool
is_paused paused = true
is_paused _ = false

module _ (N : Numbers) where
  open N use {Real, of_int, ratio, sub, div, min_of, max_of, lt}

  pub record OnboardingState : Type 0 where
    pub merchant_id : String
    pub processor : String
    pub status : OnboardingStatus
    pub connected_at : ℕ
    pub shadow_started_at : Option ℕ
    pub activated_at : Option ℕ
    pub shadow_window_days : Real
    pub webhooks_registered : Bool

  pub record OnboardingConfig : Type 0 where
    pub shadow_window_days : Real
    pub min_failures_to_activate : ℕ

  pub record ShadowProgress : Type 0 where
    pub elapsed_days : Real
    pub remaining_days : Real
    pub window_complete : Bool
    pub pct_complete : Real

  abbrev pub days_between : ℕ → ℕ → Real
  days_between from to = max_of (ratio 0 1) (div (of_int (pos to -ℤ pos from)) (ratio 86400000 1))

  unfoldable pub begin_onboarding : String → String → ℕ → Bool → OnboardingConfig → OnboardingState
  begin_onboarding merchant processor now registered config = record {
    merchant_id = merchant;
    processor = processor;
    status = if registered then shadow else connecting;
    connected_at = now;
    shadow_started_at = if registered then some now else none;
    activated_at = none;
    shadow_window_days = config.shadow_window_days;
    webhooks_registered = registered;
  }

  unfoldable pub start_shadow : OnboardingState → ℕ → OnboardingState
  start_shadow s now =
      if is_connecting s.status
      then record s { status = shadow; webhooks_registered = true; shadow_started_at = some now }
      else s

  abbrev pub progress_from : Option ℕ → Real → ℕ → ShadowProgress
  progress_from none window now = record {
    elapsed_days = ratio 0 1;
    remaining_days = window;
    window_complete = false;
    pct_complete = ratio 0 1;
  }
  progress_from (some start) window now =
      let elapsed = days_between start now in
      record {
        elapsed_days = elapsed;
        remaining_days = max_of (ratio 0 1) (sub window elapsed);
        window_complete = not (lt elapsed window);
        pct_complete =
            min_of (ratio 1 1) (if lt (ratio 0 1) window then div elapsed window else ratio 1 1);
      }

  unfoldable pub shadow_progress : OnboardingState → ℕ → ShadowProgress
  shadow_progress s now = progress_from s.shadow_started_at s.shadow_window_days now

  -- `if (test) reasons.push(reason)`
  abbrev pub push_if : Bool → ReadinessReason → List ReadinessReason → List ReadinessReason
  push_if test reason reasons = if test then reasons ++ reason ∷ [] else reasons

  abbrev pub is_empty : List ReadinessReason → Bool
  is_empty [] = true
  is_empty (r ∷ rs) = false

  unfoldable pub readiness :
      OnboardingState → ShadowProjection → ShadowProgress → OnboardingConfig → Readiness
  readiness s projection progress config =
      let a = push_if (is_paused s.status) onboarding_paused [] in
      let b = push_if (not progress.window_complete) window_not_complete a in
      let c =
        push_if (ltb projection.observed_failures config.min_failures_to_activate)
          insufficient_failures b in
      let d = push_if (leb_ℤ projection.projected_monthly_value (pos 0)) no_positive_uplift c in
      if is_active s.status
      then record { ready = false; reasons = already_active ∷ [] }
      else record { ready = is_empty d; reasons = d }

  unfoldable pub activate : OnboardingState → Readiness → ℕ → Bool → Option OnboardingState
  activate s readiness now force =
      if is_active s.status
      then some s
      else (if not (readiness.ready || force)
          then none
          else some (record s { status = active; activated_at = some now }))

  unfoldable pub pause : OnboardingState → OnboardingState
  pause s = record s { status = paused }
