-- ===== src/RecoveryCase/Plan.antt =====
-- What the engine is asked, and what is noted of its answer (recovery-case.service.ts, `featuresFor`,
-- `planAttempt`). The scores, the rationale and the features in a detail are opaque.
use ax10m.Common.{ℕ, true, String, Option, none, some, List, [], ◌∷◌}
use ax10m.Common.Int.{pos}
use ax10m.Common.Dict.{Dict}
use ax10m.Common.Action.{ok, pure, gets, ◌>>=◌, ◌>>◌}
use ax10m.Canonical.{DeclineCode, unmapped}
use ax10m.Ledger.{recovery_planned}
use ax10m.BillingRun.{DetailValue, text, opaque}
use ax10m.Scheduler.{RecoveryDecision, RecoveryActionKind, retry, card_update_comms, suppress}
use ax10m.RecoveryEngine.{RecoveryFeatures, AvailableMethod}
use ax10m.RecoveryEngine.FeatureStore.{Instant, enrich}
use ax10m.RecoveryEngine.{Scores}
use ax10m.RecoveryEngine.Sequence.{SequenceContext, RetryStep, plan_retry_sequence}
use ax10m.RecoveryCase.{map_card_network}
use ax10m.RecoveryCase.{
  Invoice, PaymentMethod, Customer, DeclineEvent, ComplianceContext, Host, read_clock, note,
}
use ax10m.RecoveryCase.Attempt.{Service}

abbrev pub action_name : RecoveryActionKind → String
action_name retry = "retry"
action_name card_update_comms = "card_update_comms"
action_name suppress = "suppress"

abbrev pub code_of : Option DeclineEvent → DeclineCode
code_of none = unmapped
code_of (some d) = d.code

abbrev pub bin_of : Option PaymentMethod → Option String
bin_of none = none
bin_of (some m) = m.bin

abbrev pub created_of : Option Customer → Option Instant
created_of none = none
created_of (some c) = some c.created_at

-- The credential that is at hand, as the engine sees it.
abbrev pub available : PaymentMethod → AvailableMethod
available m = record {
  ref = m.processor_ref;
  auto_updated = m.auto_updated;
  is_default = some true;
}

abbrev pub available_methods : Option PaymentMethod → List AvailableMethod
available_methods none = []
available_methods (some m) = available m ∷ []

module _ (h : Host) where
  abbrev pub Features : Type 0
  Features = RecoveryFeatures (h.numbers.Real)

  unfoldable pub features_for :
      Invoice
      → Option PaymentMethod
      → Option DeclineEvent
      → ℕ
      → Option Customer
      → Service h Features
  features_for invoice method decline n customer = do
    now ← read_clock h
    gets (λ s. enrich h.numbers h.add h.features_config s.features (record {
      merchant_id = invoice.merchant_id;
      customer_id = invoice.customer_id;
      bin = bin_of method;
      customer_created_at = created_of customer;
      first_failed_at = invoice.first_failed_at;
      decline_code = code_of decline;
      amount_minor = invoice.amount;
      currency = invoice.currency;
      attempt_number = n;
      now = some now;
    }))

  unfoldable pub decide_at :
      Features → List AvailableMethod → Option ComplianceContext → ℕ → Service h RecoveryDecision
  decide_at features methods compliance now s =
      let (d, p) =
        h.decide features (record { now = now; methods = methods; compliance = compliance })
          s.policy in
      (ok d, record s { policy = p })

  -- `policy.decide` at the present instant.
  unfoldable pub ask_policy :
      Features → List AvailableMethod → Option ComplianceContext → Service h RecoveryDecision
  unfolding decide_at
  ask_policy features methods compliance = do
    now ← read_clock h
    decide_at features methods compliance now

  abbrev pub planned_detail : Invoice → RecoveryDecision → Dict DetailValue
  planned_detail invoice d =
      ("invoiceId", text invoice.id)
      ∷ ("action", text (action_name d.action))
      ∷ ("retryAt", opaque)
      ∷ ("recoverabilityScore", opaque)
      ∷ ("expectedValueMinor", opaque)
      ∷ ("rationale", opaque)
      ∷ ("features", opaque)
      ∷ ("shadow", opaque)
      ∷ []

  unfoldable pub plan_attempt :
      Invoice → Option PaymentMethod → Option DeclineEvent → ℕ → Service h RecoveryDecision
  plan_attempt invoice method decline n = do
    features ← features_for invoice method decline n none
    decision ← ask_policy features (available_methods method) none
    note h invoice.merchant_id recovery_planned (planned_detail invoice decision)
    pure decision

  -- `x < y` and `days + ms / 86_400_000` on JavaScript's numbers.
  abbrev pub scores : Scores
  scores = record {
    Score = h.numbers.Real;
    below = h.numbers.lt;
    add_ms = λ days ms.
        h.add days (h.numbers.div (h.numbers.of_int (pos ms)) (h.numbers.ratio 86400000 1));
  }

  -- The floor is the default of `planRetrySequence`.
  abbrev pub sequence_context : PaymentMethod → ℕ → SequenceContext (h.numbers.Real)
  sequence_context m now = record {
    now = now;
    methods = available m ∷ [];
    network = map_card_network h m.brand;
    min_recoverability_to_continue = h.numbers.ratio 4 100;
    model = h.model;
  }

  abbrev pub sequence_detail : Invoice → Dict DetailValue
  sequence_detail invoice =
      ("invoiceId", text invoice.id)
      ∷ ("sequenceLength", opaque)
      ∷ ("actions", opaque)
      ∷ ("retryAts", opaque)
      ∷ ("features", opaque)
      ∷ []

  unfoldable pub plan_sequence :
      Invoice
      → PaymentMethod
      → Option DeclineEvent
      → ℕ
      → Service h (List (RetryStep (h.numbers.Real)))
  plan_sequence invoice method decline n = do
    features ← features_for invoice (some method) decline n none
    now ← read_clock h
    note h invoice.merchant_id recovery_planned (sequence_detail invoice)
    pure (plan_retry_sequence scores features (sequence_context method now))
