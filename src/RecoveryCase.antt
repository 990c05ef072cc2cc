-- ===== src/RecoveryCase.antt =====
-- The recovery case service of apps/api/src/recovery/recovery-case.service.ts: its state, and what it
-- is given from outside (`Host`). The processor, the policy, the message agent and sender and the
-- dispatcher are the interfaces that the service is written against; a call of them that rejects is
-- `thrown`. The ledger, the counters and the sent keys are the in-process ones. A part of a ledger
-- detail that is neither a number nor a text is `opaque`, and one that is undefined is left out.
pub mod Credentials
pub mod Attempt
pub mod Plan
pub mod Intake
pub mod Deliver
pub mod Fresh
pub mod Execute
pub mod Calls
pub mod Keeps
pub mod Shadow
pub mod Messages
pub mod Active
pub mod Settle
pub mod Recovered
pub mod Books
pub mod Capped
pub mod Charged
pub mod Arrivals
pub mod Reached
pub mod Once
pub mod Port
pub mod Coherent
pub mod Verdicts
pub mod Sagas
mod Examples
use Prim.Native.String.{◌++◌ as ◌<>◌}
use ax10m.Common.{
  ℕ, ◌/◌, ◌%◌, Bool, String, Option, none, some, List, [], ◌∷◌, ◌++◌, ltb, if◌then◌else◌, or_else,
}
use ax10m.Common.Int.{ℤ}
use ax10m.Common.Dict.{Dict, str_eq}
use ax10m.Common.Action.{Result, ok, Action, modify, ◌>>=◌}
use ax10m.Canonical.{DeclineCode, DeclineFamily, gray}
use ax10m.Ledger.{LedgerEventType}
use ax10m.BillingRun.{BillingLedgerEntry, DetailValue}
use ax10m.Billing.{Numbers}
use ax10m.Assignment.{Hashed, HoldoutConfig, Stratum, MrrTier, micro, small, mid, large, enterprise}
use ax10m.Guardrail.{CardNetwork, visa, mastercard, amex, discover, other}
use ax10m.Scheduler.{RecoveryDecision, ChargeOutcome}
use ax10m.RecoveryEngine.{RecoveryFeatures, AvailableMethod, unknown_region}
use ax10m.RecoveryEngine.FeatureStore.{Instant, FeatureStore, FeatureStoreConfig}
use ax10m.Comms.{DunningChannel, DunningMessage, Sender, TextTests}
use ax10m.Onboarding.Shadow.{Merchants}

pub record Invoice : Type 0 where
  pub id : String
  pub merchant_id : String
  pub customer_id : String
  pub amount : ℕ
  pub currency : String
  pub first_failed_at : Option Instant

pub record PaymentMethod : Type 0 where
  pub id : String
  pub processor_ref : String
  pub token : String
  pub brand : Option String
  pub last4 : Option String
  pub bin : Option String
  pub auto_updated : Option Bool

pub record ConsentState : Type 0 where
  pub email_consent : Bool
  pub sms_consent : Bool
  pub globally_opted_out : Bool

pub record Customer : Type 0 where
  pub id : String
  pub email_address : Option String
  pub phone : Option String
  pub created_at : Instant
  pub consent : ConsentState

pub record DeclineEvent : Type 0 where
  pub code : DeclineCode
  pub family : DeclineFamily

pub record ChargeResult : Type 0 where
  pub outcome : ChargeOutcome
  pub idempotent_replay : Bool
  pub decline_code : Option String

pub record ComplianceContext : Type 0 where
  pub attempts_in_network_window : ℕ
  pub network_cap : Option ℕ

pub record PolicyContext : Type 0 where
  pub now : ℕ
  pub methods : List AvailableMethod
  pub compliance : Option ComplianceContext

pub record DunningContext : Type 0 where
  pub channel : DunningChannel
  pub decline_code : DeclineCode
  pub merchant_name : String
  pub amount_minor : ℕ
  pub currency : String
  pub update_card_url : String
  pub opt_out_instruction : String
  pub card_last4 : Option String

pub record DunningCommsConfig : Type 0 where
  pub update_card_url : Invoice → String → String
  pub opt_out_instruction : String
  pub channel : Option DunningChannel
  pub merchant_name : Option (String → Option String)

-- What the durable saga of a case is started with.
pub record DurableRecoveryRequest : Type 0 where
  pub workflow_id : String
  pub invoice : Invoice
  pub method : PaymentMethod
  pub decline : Option DeclineEvent
  pub customer : Option Customer
  pub shadow : Bool

pub record CredentialRecord : Type 0 where
  pub count : ℕ
  pub last_at : ℕ

-- Code that is given from outside: of the language the digest, the printing of numbers, `trim`, the
-- regular expression and `toLowerCase`; of the deployment its configuration and the interfaces.
pub record Host : Type 1 where
  pub numbers : Numbers
  pub add : numbers.Real → numbers.Real → numbers.Real
  pub hashed : Hashed
  pub idempotency_digest : String → String
  pub tests : TextTests
  pub lower_case : String → String
  pub decimal : ℕ → String
  pub holdout : HoldoutConfig (numbers.Real)
  pub features_config : FeatureStoreConfig numbers add
  pub Processor : Type 0
  pub processor_id : String
  pub attempt_charge :
      Invoice → PaymentMethod → String → Processor → Result ChargeResult × Processor
  pub fetch_updated_card : PaymentMethod → Processor → Result (Option PaymentMethod) × Processor
  pub list_payment_methods : Customer → Processor → Result (List PaymentMethod) × Processor
  pub Policy : Type 0
  pub decide : RecoveryFeatures (numbers.Real) → PolicyContext → Policy → RecoveryDecision × Policy
  pub update : RecoveryFeatures (numbers.Real) → RecoveryDecision → ℤ → Policy → Policy
  pub model : RecoveryFeatures (numbers.Real) → numbers.Real
  pub Clock : Type 0
  pub tick : Clock → ℕ × Clock
  pub Mail : Type 0
  pub sender : Option (Sender Mail)
  pub compose : DunningContext → Result DunningMessage
  pub dunning_config : Option DunningCommsConfig
  pub live_comms : Bool
  pub Dispatched : Type 0
  pub dispatch : DurableRecoveryRequest → Dispatched → Result (Unit {0}) × Dispatched
  pub durable_recovery : Bool
  pub live_charging : Bool

module _ (h : Host) where
  pub record CaseState : Type 0 where
    pub ledger : List BillingLedgerEntry
    pub opened_invoices : List String
    pub attempts : Dict ℕ
    pub credential_attempts : Dict CredentialRecord
    pub sent_keys : List String
    pub features : FeatureStore
    pub merchants : Merchants (h.numbers)
    pub processor : h.Processor
    pub policy : h.Policy
    pub clock : h.Clock
    pub mail : h.Mail
    pub dispatched : h.Dispatched

  -- `new Date()`
  unfoldable pub read_clock : Action CaseState ℕ
  read_clock s = let (now, rest) = h.tick s.clock in (ok now, record s { clock = rest })

  -- `ledger.append` of an event at a given instant.
  abbrev pub entry_of : String → LedgerEventType → Instant → Dict DetailValue → BillingLedgerEntry
  entry_of merchant type at detail = record {
    merchant_id = merchant;
    type = type;
    occurred_at = at;
    detail = detail;
  }

  abbrev pub with_entry : BillingLedgerEntry → CaseState → CaseState
  with_entry e s = record s { ledger = s.ledger ++ e ∷ [] }

  -- `ledger.append` of an event of now.
  unfoldable pub note : String → LedgerEventType → Dict DetailValue → Action CaseState (Unit {0})
  unfolding read_clock
  note merchant type detail = do
    now ← read_clock
    modify (with_entry (entry_of merchant type (some now) detail))

-- `getUTCHours`
abbrev pub utc_hour : ℕ → ℕ
utc_hour ms = ms / 3600000 % 24

abbrev pub network_of : String → CardNetwork
network_of s =
    if str_eq s "visa"
    then visa
    else if str_eq s "mastercard"
    then mastercard
    else if str_eq s "master"
    then mastercard
    else if str_eq s "amex"
    then amex
    else if str_eq s "american express"
    then amex
    else if str_eq s "american_express"
    then amex
    else if str_eq s "discover"
    then discover
    else other

abbrev pub map_card_network : Host → Option String → CardNetwork
map_card_network h brand = network_of (h.lower_case (or_else brand ""))

abbrev pub mrr_tier_from_amount : ℕ → MrrTier
mrr_tier_from_amount minor =
    if ltb minor 2000
    then micro
    else if ltb minor 10000
    then small
    else if ltb minor 50000
    then mid
    else if ltb minor 200000
    then large
    else enterprise

abbrev pub family_or_gray : Option DeclineEvent → DeclineFamily
family_or_gray none = gray
family_or_gray (some d) = d.family

abbrev pub derive_stratum : Invoice → Option DeclineEvent → Stratum
derive_stratum invoice decline = record {
  mrr_tier = mrr_tier_from_amount invoice.amount;
  decline_family = family_or_gray decline;
  issuer_region = unknown_region;
}

abbrev pub credential_key : String → PaymentMethod → String
credential_key invoice_id m = invoice_id <> ":" <> m.token
