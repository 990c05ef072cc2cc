-- ===== src/RecoveryEngine/Credential.antt =====
-- Recovery of dead credentials (packages/recovery-engine/src/credential-recovery.ts). Instants are
-- valid milliseconds; the rationale of a step is left out.
use ax10m.Common.{
  length, ◌∙◌, ℕ, ◌+◌, ◌&&◌, ◌*◌, ◌≡◌, ◌≢◌, ◌↔◌, ◌≤◌, ◌<◌, refl, Bool, true, false, not, String,
  Option, none, List, [], ◌∷◌, ◌++◌, map, find?, map_option, if◌then◌else◌, arith, All, All-append,
  Bool-cases, inl, inr,
}
use ax10m.Common.Sort.{sort_by, Sorted, sort_by-Sorted, length-sort_by, All-sort_by}
use ax10m.Canonical.{
  DeclineCode, DeclineFamily, soft, hard, gray, fraudulent, is_retriable, is_hard, family_of,
}
use ax10m.RecoveryEngine.{
  RecommendedAction, card_update, suppress, classify_decline, AvailableMethod,
}
use ax10m.RecoveryEngine.Sequence.{is_default_method}

pub data CredentialAction : Type 0 where
  card_refresh alternate_rail dunning : CredentialAction

pub record CredentialStep : Type 0 where
  pub at : ℕ
  pub action : CredentialAction
  pub method_ref : Option String

-- `iso(base, days)`
abbrev pub days_after : ℕ → ℕ → ℕ
days_after base days = base + days * 86400000

-- `recommendedAction === 'card_update'`
abbrev pub is_card_update : RecommendedAction → Bool
is_card_update card_update = true
is_card_update _ = false

-- `recommendedAction === 'suppress'`
abbrev pub is_suppress : RecommendedAction → Bool
is_suppress suppress = true
is_suppress _ = false

unfoldable pub is_credential_problem : DeclineCode → Bool
unfolding classify_decline
is_credential_problem code =
    let cls = classify_decline code in
    if is_hard cls.family && is_suppress cls.recommended_action
    then false
    else is_card_update cls.recommended_action

abbrev pub probe_days : DeclineFamily → List ℕ
probe_days family = if is_hard family then 3 ∷ 21 ∷ [] else 2 ∷ 10 ∷ 21 ∷ 31 ∷ []

abbrev pub credential_step : ℕ → ℕ → CredentialAction → Option String → CredentialStep
credential_step base days action method = record {
  at = days_after base days;
  action = action;
  method_ref = method;
}

-- The steps in the order in which they are pushed.
abbrev pub credential_steps : DeclineCode → ℕ → List AvailableMethod → List CredentialStep
credential_steps code base methods =
    let alternate = find? (λ m. not (is_default_method m)) methods in
    credential_step base 1 alternate_rail (map_option (λ m. m.ref) alternate)
    ∷ (map (λ d. credential_step base d card_refresh none) (probe_days (family_of code))
        ++ credential_step base 3 dunning none ∷ credential_step base 15 dunning none ∷ [])

unfoldable pub plan_credential_recovery :
    DeclineCode → ℕ → List AvailableMethod → List CredentialStep
plan_credential_recovery code now methods =
    if is_credential_problem code
    then sort_by (λ s. s.at) (credential_steps code now methods)
    else []

-- The credential path takes the declines that are neither retriable nor fraud.
pub is_credential_problem_iff :
    (code : DeclineCode)
    → (is_credential_problem code ≡ true) ↔ ((is_retriable code ≡ false) × (code ≢ fraudulent))
unfolding is_credential_problem classify_decline is_retriable family_of
is_credential_problem_iff code = (λ h. ground arith, λ h. ground arith)

-- A step falls in the reissue window, and only the backup rail charges a method known beforehand.
abbrev pub InWindow : ℕ → CredentialStep → Type 0
InWindow now s =
    (now < s.at) × (s.at ≤ days_after now 31) × (s.method_ref ≢ none → s.action ≡ alternate_rail)

unnamed-InWindow :
    (base d : ℕ) (action : CredentialAction)
    → 0 < d
    → d ≤ 31
    → InWindow base (credential_step base d action none)
unnamed-InWindow base d action h k = (omega arith, omega arith, λ n. absurd (n refl))

soft_probes :
    (base : ℕ)
    → All
        (InWindow base)
        (map (λ d. credential_step base d card_refresh none) (2 ∷ 10 ∷ 21 ∷ 31 ∷ []))
soft_probes base = (
  unnamed-InWindow base 2 card_refresh (omega arith) (omega arith),
  (
    unnamed-InWindow base 10 card_refresh (omega arith) (omega arith),
    (
      unnamed-InWindow base 21 card_refresh (omega arith) (omega arith),
      (unnamed-InWindow base 31 card_refresh (omega arith) (omega arith), tt),
    ),
  ),
)

probes-InWindow :
    (base : ℕ) (family : DeclineFamily)
    → All (InWindow base) (map (λ d. credential_step base d card_refresh none) (probe_days family))
probes-InWindow base hard = (
  unnamed-InWindow base 3 card_refresh (omega arith) (omega arith),
  (unnamed-InWindow base 21 card_refresh (omega arith) (omega arith), tt),
)
probes-InWindow base soft = soft_probes base
probes-InWindow base gray = soft_probes base

credential_steps-InWindow :
    (code : DeclineCode) (base : ℕ) (methods : List AvailableMethod)
    → All (InWindow base) (credential_steps code base methods)
credential_steps-InWindow code base methods = (
  (omega arith, omega arith, λ n. refl),
  All-append (InWindow base)
      (map (λ d. credential_step base d card_refresh none) (probe_days (family_of code)))
      (credential_step base 3 dunning none ∷ credential_step base 15 dunning none ∷ [])
      (probes-InWindow base (family_of code))
      (
        unnamed-InWindow base 3 dunning (omega arith) (omega arith),
        (unnamed-InWindow base 15 dunning (omega arith) (omega arith), tt),
      ),
)

length-steps :
    (code : DeclineCode) (now : ℕ) (methods : List AvailableMethod)
    → length (credential_steps code now methods) ≡ (if is_hard (family_of code) then 5 else 7)
length-steps code now methods = elim (Bool-cases (is_hard (family_of code))) [
  | inl e ↦ rw e refl
  | inr e ↦ rw e refl
]

-- A decline that is no credential problem gets no step, one of a hard family five and any other
-- seven. The plan is in order of time, lies in the 31 days after now, and charges a method known
-- beforehand only on the backup rail.
pub plan_credential_recovery-InWindow :
    (code : DeclineCode) (now : ℕ) (methods : List AvailableMethod)
    → let plan = plan_credential_recovery code now methods in
      (length plan
        ≡ (if is_credential_problem code then (if is_hard (family_of code) then 5 else 7) else 0))
      × Sorted (λ s. s.at) plan
      × All (InWindow now) plan
unfolding plan_credential_recovery
plan_credential_recovery-InWindow code now methods =
    let steps = credential_steps code now methods in
    elim (Bool-cases (is_credential_problem code)) [
      | inl e ↦ rw e (
        length-sort_by (λ s. s.at) steps ∙ length-steps code now methods,
        sort_by-Sorted (λ s. s.at) steps,
        All-sort_by (λ s. s.at) (InWindow now) steps (credential_steps-InWindow code now methods),
      )
      | inr e ↦ rw e (refl, tt, tt)
    ]
