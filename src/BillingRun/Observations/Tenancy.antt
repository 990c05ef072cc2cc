-- ===== src/BillingRun/Observations/Tenancy.antt =====
-- A merchant's observations come from its own entries (apps/api/src/billing/observations.ts).
use ax10m.Common.{
  ◌≡◌, refl, sym, ap, ◌∙◌, inl, inr, true, false, String, none, List, [], ◌∷◌, keep, Bool-cases,
}
use ax10m.Common.Int.{ℤ}
use ax10m.Common.Dict.{Dict}
use ax10m.BillingRun.{BillingLedgerEntry, BillingPeriod, is_mine}
use ax10m.BillingRun.Observations.{
  net_step, net_from, observe, push_some, observe_all, reconstruct_observations, is_assignment,
}

module _ (merchant : String) where
  keep-own :
      (e : BillingLedgerEntry) (es : List BillingLedgerEntry)
      → is_mine merchant e ≡ true
      → keep (is_mine merchant) (e ∷ es) ≡ e ∷ keep (is_mine merchant) es
  keep-own e es h = rw h refl

  keep-foreign :
      (e : BillingLedgerEntry) (es : List BillingLedgerEntry)
      → is_mine merchant e ≡ false
      → keep (is_mine merchant) (e ∷ es) ≡ keep (is_mine merchant) es
  keep-foreign e es h = rw h refl

  net_step-foreign :
      (m : Dict ℤ) (e : BillingLedgerEntry) → is_mine merchant e ≡ false → net_step merchant m e ≡ m
  net_step-foreign m e h = rw h refl

  net_from-mine :
      (m : Dict ℤ) (es : List BillingLedgerEntry)
      → net_from merchant m (keep (is_mine merchant) es) ≡ net_from merchant m es
  unfolding net_from
  net_from-mine m [] = refl
  net_from-mine m (e ∷ es) = elim (Bool-cases (is_mine merchant e)) [
    | inl h ↦ ap (net_from merchant m) (keep-own e es h) ∙ net_from-mine (net_step merchant m e) es
    | inr h ↦
        ap (net_from merchant m) (keep-foreign e es h)
        ∙ (net_from-mine m es ∙ sym (ap (λ n. net_from merchant n es) (net_step-foreign m e h)))
  ]

  observe-foreign :
      (net : Dict ℤ) (p : BillingPeriod) (e : BillingLedgerEntry)
      → is_mine merchant e ≡ false
      → observe net merchant p e ≡ none
  observe-foreign net p e h = elim (Bool-cases (is_assignment e.type)) [
    | inl a ↦ rw (a, h) refl
    | inr a ↦ rw a refl
  ]

  observe_all-mine :
      (net : Dict ℤ) (p : BillingPeriod) (es : List BillingLedgerEntry)
      → observe_all net merchant p (keep (is_mine merchant) es) ≡ observe_all net merchant p es
  unfolding observe_all
  observe_all-mine net p [] = refl
  observe_all-mine net p (e ∷ es) = elim (Bool-cases (is_mine merchant e)) [
    | inl h ↦
        ap (observe_all net merchant p) (keep-own e es h)
        ∙ ap (push_some (observe net merchant p e)) (observe_all-mine net p es)
    | inr h ↦
        ap (observe_all net merchant p) (keep-foreign e es h)
        ∙ (observe_all-mine net p es
            ∙ sym
                (ap (λ o. push_some o (observe_all net merchant p es)) (observe-foreign net p e h)))
  ]

  -- The observations of a merchant are those of its own entries alone: no other tenant's entry
  -- adds one or changes an outcome.
  pub reconstruct_observations-mine :
      (p : BillingPeriod) (es : List BillingLedgerEntry)
      → reconstruct_observations (keep (is_mine merchant) es) merchant p
        ≡ reconstruct_observations es merchant p
  unfolding reconstruct_observations
  reconstruct_observations-mine p es =
      ap (λ n. observe_all n merchant p (keep (is_mine merchant) es)) (net_from-mine [] es)
      ∙ observe_all-mine (net_from merchant [] es) p es
