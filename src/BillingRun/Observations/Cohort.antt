-- ===== src/BillingRun/Observations/Cohort.antt =====
-- The cohort is fixed by the assignments in the window (apps/api/src/billing/observations.ts).
use ax10m.Common.{
  ◌+◌, ◌&&◌, Bool, false, if◌then◌else◌, length, keep, arith, ◌≡◌, refl, sym, ap, ◌∙◌, inl, inr,
  true, String, Option, none, some, List, [], ◌∷◌, or_else, map_option, Bool-cases, All, All-map,
  Any,
}
use ax10m.Common.Int.{ℤ, pos}
use ax10m.Common.Dict.{Dict, lookup}
use ax10m.Reconciliation.{Observation, Arm}
use ax10m.BillingRun.{BillingLedgerEntry, BillingPeriod, str, is_mine}
use ax10m.BillingRun.Observations.{
  net_from, observe, observation_for, push_some, observe_all, reconstruct_observations,
  is_assignment, in_period, arm_of,
}
use ax10m.BillingRun.Observations.Net.{net_amount, net_from-at}

-- The entry assigns this merchant's invoice in the window, and the outcome is that invoice's.
abbrev pub Explains :
    String → BillingPeriod → (String → ℤ) → Observation → BillingLedgerEntry → Type 0
Explains merchant p outcome_of o e =
    (is_assignment e.type ≡ true)
    × (is_mine merchant e ≡ true)
    × (in_period p e.occurred_at ≡ true)
    × ((invoice : String) × (str (lookup "invoiceId" e.detail) ≡ some invoice)
        × (o.outcome ≡ outcome_of invoice))

module _ (net : Dict ℤ) (outcome_of : String → ℤ)
    (agrees : (i : String) → or_else (lookup i net) (pos 0) ≡ outcome_of i) (merchant : String)
    (p : BillingPeriod) where
  observation_for-outcome :
      (e : BillingLedgerEntry) (i : Option String) (a : Option Arm) (o : Observation)
      → observation_for net e i a ≡ some o
      → (invoice : String) × (i ≡ some invoice) × (o.outcome ≡ outcome_of invoice)
  observation_for-outcome e none a o h = absurd (cc)
  observation_for-outcome e (some i) none o h = absurd (cc)
  observation_for-outcome e (some i) (some a) o h =
      (i, refl, ap (λ x. or_else (map_option (λ y. y.outcome) x) (pos 0)) (sym h) ∙ agrees i)

  observe-in :
      (e : BillingLedgerEntry)
      → is_assignment e.type ≡ true
      → is_mine merchant e ≡ true
      → in_period p e.occurred_at ≡ true
      → observe net merchant p e
        ≡ observation_for net e
            (str (lookup "invoiceId" e.detail))
            (arm_of (str (lookup "bucket" e.detail)))
  observe-in e a b c = rw (a, b, c) refl

  observe-Explains :
      (e : BillingLedgerEntry) (o : Observation)
      → observe net merchant p e ≡ some o
      → Explains merchant p outcome_of o e
  observe-Explains e o h = elim (Bool-cases (is_assignment e.type)) [
    | inr a ↦ absurd (ground (arith, h))
    | inl a ↦ elim (Bool-cases (is_mine merchant e)) [
      | inr b ↦ absurd (ground (arith, h))
      | inl b ↦ elim (Bool-cases (in_period p e.occurred_at)) [
        | inr c ↦ absurd (ground (arith, h))
        | inl c ↦ (
          a,
          b,
          c,
          observation_for-outcome e (str (lookup "invoiceId" e.detail))
              (arm_of (str (lookup "bucket" e.detail))) o (sym (observe-in e a b c) ∙ h),
        )
      ]
    ]
  ]

  push_some-All :
      (P : Observation → Type 0) (o : Option Observation) (os : List Observation)
      → ((x : Observation) → o ≡ some x → P x)
      → All P os
      → All P (push_some o os)
  push_some-All P none os f a = a
  push_some-All P (some x) os f a = (f x refl, a)

  observe_all-Explains :
      (es : List BillingLedgerEntry)
      → All (λ o. Any (Explains merchant p outcome_of o) es) (observe_all net merchant p es)
  unfolding observe_all
  observe_all-Explains [] = tt
  observe_all-Explains (e ∷ es) =
      push_some-All (λ o. Any (Explains merchant p outcome_of o) (e ∷ es))
        (observe net merchant p e) (observe_all net merchant p es)
        (λ o h. inl (observe-Explains e o h))
        (All-map (observe_all net merchant p es) (λ o h. inr h) (observe_all-Explains es))

abbrev is_known {ℓ} : {A : Type ℓ} → Option A → Bool
is_known none = false
is_known (some a) = true

-- An assignment of the merchant in the window that names its invoice and its arm.
abbrev pub qualifies : String → BillingPeriod → BillingLedgerEntry → Bool
qualifies merchant p e =
    is_assignment e.type
    && (is_mine merchant e && in_period p e.occurred_at)
    && (is_known (str (lookup "invoiceId" e.detail))
        && is_known (arm_of (str (lookup "bucket" e.detail))))

length-push_some :
    (net : Dict ℤ) (e : BillingLedgerEntry) (b : Bool) (i : Option String) (a : Option Arm)
    (os : List Observation)
    → length (push_some (if b then observation_for net e i a else none) os)
      ≡ (if b && (is_known i && is_known a) then 1 + length os else length os)
length-push_some net e true none a os = refl
length-push_some net e true (some i) none os = refl
length-push_some net e true (some i) (some a) os = omega arith
length-push_some net e false i a os = refl

length-keep :
    (b : Bool) (e : BillingLedgerEntry) (es : List BillingLedgerEntry)
    → (if b then 1 + length es else length es) ≡ length (if b then e ∷ es else es)
length-keep true e es = omega arith
length-keep false e es = refl

length-observe_all :
    (net : Dict ℤ) (merchant : String) (p : BillingPeriod) (es : List BillingLedgerEntry)
    → length (observe_all net merchant p es) ≡ length (keep (qualifies merchant p) es)
unfolding observe_all
length-observe_all net merchant p [] = refl
length-observe_all net merchant p (e ∷ es) =
    length-push_some net e
      (is_assignment e.type && (is_mine merchant e && in_period p e.occurred_at))
      (str (lookup "invoiceId" e.detail)) (arm_of (str (lookup "bucket" e.detail)))
      (observe_all net merchant p es)
    ∙ (ap (λ n. if qualifies merchant p e then 1 + n else n) (length-observe_all net merchant p es)
        ∙ length-keep (qualifies merchant p e) e (keep (qualifies merchant p) es))

-- There is one observation per assignment of the merchant in the window that names its invoice and
-- its arm; each comes from such an entry, and its outcome is what all the merchant's entries, in the
-- window or not, settle on that invoice.
pub reconstruct_observations-Explains :
    (merchant : String) (p : BillingPeriod) (es : List BillingLedgerEntry)
    → (length (reconstruct_observations es merchant p) ≡ length (keep (qualifies merchant p) es))
      × All
          (λ o. Any (Explains merchant p (λ i. net_amount merchant i (pos 0) es) o) es)
          (reconstruct_observations es merchant p)
unfolding reconstruct_observations
reconstruct_observations-Explains merchant p es = (
  length-observe_all (net_from merchant [] es) merchant p es,
  observe_all-Explains (net_from merchant [] es) (λ i. net_amount merchant i (pos 0) es)
      (λ i. net_from-at merchant i [] es) merchant p es,
)
