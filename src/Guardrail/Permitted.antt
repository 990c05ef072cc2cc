-- ===== src/Guardrail/Permitted.antt =====
-- What `evaluate` of packages/guardrail/src/guardrail.ts lets through, stated without its order of
-- tests.
use ax10m.Common.{
  ℕ, ◌≤◌, ◌<◌, ◌≡◌, ◌≢◌, ◌↔◌, Bool, false, true, Option, none, some, or_else, arith, if◌then◌else◌,
}
use ax10m.Canonical.{hard, is_retriable}
use ax10m.Guardrail.{
  ProposedAction, ProposedActionKind, charge_retry, fresh_credential_charge, comms, unrecognized,
  CardNetwork, other, NetworkRetryCap, GuardrailPolicy, GuardrailDecision, SuppressionReason,
  global_opt_out, suppress, allow, in_quiet_hours, check_network, check_charge, check_kind,
  evaluate,
}

-- The interval since the last attempt, where one is known, is long enough.
abbrev pub Elapsed : Option ℕ → ℕ → Type 0
Elapsed none m = Unit {0}
Elapsed (some n) m = m ≤ n

abbrev pub WithinNetwork : ProposedAction → NetworkRetryCap → Type 0
WithinNetwork a cap =
    Elapsed a.minutes_since_last_attempt cap.min_minutes_between
    × (or_else a.attempts_in_window a.attempts_so_far < cap.max_attempts_per_window)

abbrev pub WithinCaps : ProposedAction → Option (CardNetwork → NetworkRetryCap) → Type 0
WithinCaps a none = Unit {0}
WithinCaps a (some caps) = WithinNetwork a (caps (or_else a.card_network other))

abbrev pub MayCharge : ProposedAction → GuardrailPolicy → Type 0
MayCharge a p = (a.attempts_so_far < p.max_retry_attempts) × WithinCaps a p.network_caps

abbrev pub MayContact : ProposedAction → GuardrailPolicy → Type 0
MayContact a p = (a.has_consent ≡ true) × (in_quiet_hours a.local_hour p.quiet_hours ≡ false)

abbrev pub PermittedKind : ProposedActionKind → ProposedAction → GuardrailPolicy → Type 0
PermittedKind charge_retry a p =
    (a.decline_family ≢ hard) × (is_retriable a.decline_code ≡ true) × MayCharge a p
PermittedKind fresh_credential_charge a p = MayCharge a p
PermittedKind comms a p = MayContact a p
PermittedKind unrecognized a p = ⊥

abbrev pub Permitted : ProposedAction → GuardrailPolicy → Type 0
Permitted a p = (a.globally_opted_out ≡ false) × PermittedKind a.kind a p

check_network_iff :
    (a : ProposedAction) (cap : NetworkRetryCap)
    → (check_network a cap ≡ allow) ↔ WithinNetwork a cap
unfolding check_network
check_network_iff a cap = (λ h. ground arith, λ h. ground arith)

check_charge_iff :
    (a : ProposedAction) (p : GuardrailPolicy) → (check_charge a p ≡ allow) ↔ MayCharge a p
unfolding check_charge
check_charge_iff a p = (λ h. ground arith, λ h. ground arith)

-- A block in front of other rules: allowed exactly when the block does not apply and they allow.
block_iff :
    (b : Bool) (r : SuppressionReason) (d : GuardrailDecision)
    → ((if b then suppress r else d) ≡ allow) ↔ ((b ≡ false) × (d ≡ allow))
block_iff b r d = (λ h. ground arith, λ h. ground arith)

check_retry_iff :
    (a : ProposedAction) (p : GuardrailPolicy)
    → (check_kind charge_retry a p ≡ allow) ↔ PermittedKind charge_retry a p
unfolding check_kind
check_retry_iff a p =
    (λ h. ground (arith, check_charge_iff a p), λ h. ground (arith, (check_charge_iff a p).1 h.2))

check_kind_iff :
    (k : ProposedActionKind) (a : ProposedAction) (p : GuardrailPolicy)
    → (check_kind k a p ≡ allow) ↔ PermittedKind k a p
unfolding check_kind
check_kind_iff charge_retry a p = check_retry_iff a p
check_kind_iff fresh_credential_charge a p = check_charge_iff a p
check_kind_iff comms a p = (λ h. ground arith, λ h. ground arith)
check_kind_iff unrecognized a p = (λ h. cc, λ h. absurd h)

-- `evaluate` allows an action exactly when the customer has not opted out and: a retry of the same
-- card has a soft or gray, retriable decline and both charge kinds stay below the attempt cap, the
-- network's window cap and its minimum interval; a message has consent outside the quiet hours.
-- An unknown kind is never allowed.
pub evaluate_iff :
    (a : ProposedAction) (p : GuardrailPolicy) → (evaluate a p ≡ allow) ↔ Permitted a p
unfolding evaluate
evaluate_iff a p = (
  λ h.
      let parts = (block_iff a.globally_opted_out global_opt_out (check_kind a.kind a p)).0 h in
      (parts.0, (check_kind_iff a.kind a p).0 parts.1),
  λ h.
      (block_iff a.globally_opted_out global_opt_out (check_kind a.kind a p)).1
        (h.0, (check_kind_iff a.kind a p).1 h.1),
)

abbrev pub with_attempts : ProposedAction → ℕ → Option ℕ → ProposedAction
with_attempts a n w = record a { attempts_so_far = n; attempts_in_window = w }

-- The guardrail is monotone: an action that is allowed after n attempts, w of them in the window,
-- is allowed after fewer, all else equal.
pub evaluate_mono :
    (a : ProposedAction) (p : GuardrailPolicy) (m n v w : ℕ)
    → m ≤ n
    → v ≤ w
    → evaluate (with_attempts a n (some w)) p ≡ allow
    → evaluate (with_attempts a m (some v)) p ≡ allow
evaluate_mono a p m n v w mn vw h =
    (evaluate_iff (with_attempts a m (some v)) p).1
      (let q = (evaluate_iff (with_attempts a n (some w)) p).0 h in (q.0, kinds a.kind q.1))
  where
    caps :
        (c : Option (CardNetwork → NetworkRetryCap))
        → WithinCaps (with_attempts a n (some w)) c
        → WithinCaps (with_attempts a m (some v)) c
    caps none k = tt
    caps (some c) k = (k.0, omega arith)

    charge : MayCharge (with_attempts a n (some w)) p → MayCharge (with_attempts a m (some v)) p
    charge k = (omega arith, caps p.network_caps k.1)

    kinds :
        (k : ProposedActionKind)
        → PermittedKind k (with_attempts a n (some w)) p
        → PermittedKind k (with_attempts a m (some v)) p
    kinds charge_retry q = (q.0, q.1, charge q.2)
    kinds fresh_credential_charge q = charge q
    kinds comms q = q
    kinds unrecognized q = q
