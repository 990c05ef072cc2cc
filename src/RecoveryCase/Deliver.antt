-- ===== src/RecoveryCase/Deliver.antt =====
-- The delivery of a message to a customer (recovery-case.service.ts, `composeDunning` and
-- `deliverDunning`): the guardrail's comms check, the address, the key of what was sent before, and
-- then the sender, or a dry run unless messages are live.
use Prim.Native.String.{◌++◌ as ◌<>◌}
use ax10m.Common.{
  ℕ, Bool, true, false, String, Option, none, some, [], ◌∷◌, ◌++◌, if◌then◌else◌, or_else,
}
use ax10m.Common.Action.{ok, pure, lift, gets, modify, ◌>>=◌, ◌>>◌}
use ax10m.Canonical.{DeclineCode, family_of}
use ax10m.Guardrail.{
  ProposedAction, comms, GuardrailDecision, allow, suppress, SuppressionReason, evaluate,
  default_guardrail_policy,
}
use ax10m.Comms.{
  DunningChannel, email, sms, DunningMessage, DunningRecipient, SendStatus, sent, SendResult,
  Sender, dry_run_sender, missing_address,
}
use ax10m.RecoveryCase.{
  Invoice, PaymentMethod, Customer, DunningContext, DunningCommsConfig, Host, CaseState, read_clock,
  utc_hour,
}
use ax10m.RecoveryCase.Attempt.{Service, when}
use ax10m.RecoveryCase.Intake.{has}

-- What happened to a message: blocked by the guardrail, without an address, sent before, or what the
-- sender made of it.
pub data DunningDelivery : Type 0 where
  delivery_suppressed : SuppressionReason → DunningDelivery
  skipped duplicate : DunningDelivery
  delivered : SendResult → DunningDelivery

abbrev pub channel_name : DunningChannel → String
channel_name email = "email"
channel_name sms = "sms"

abbrev pub is_sent : SendStatus → Bool
is_sent sent = true
is_sent _ = false

abbrev pub consents : DunningChannel → Option Customer → Bool
consents channel none = false
consents email (some c) = c.consent.email_consent
consents sms (some c) = c.consent.sms_consent

abbrev pub opted_out : Option Customer → Bool
opted_out none = false
opted_out (some c) = c.consent.globally_opted_out

abbrev pub email_of : Option Customer → Option String
email_of none = none
email_of (some c) = c.email_address

abbrev pub phone_of : Option Customer → Option String
phone_of none = none
phone_of (some c) = c.phone

abbrev pub recipient_of : DunningChannel → Option Customer → DunningRecipient
recipient_of channel customer = record {
  channel = channel;
  email_address = email_of customer;
  phone = phone_of customer;
}

abbrev pub comms_proposal : DunningChannel → DeclineCode → Option Customer → ℕ → ProposedAction
comms_proposal channel code customer hour = record {
  kind = comms;
  decline_code = code;
  decline_family = family_of code;
  attempts_so_far = 0;
  card_network = none;
  attempts_in_window = none;
  minutes_since_last_attempt = none;
  local_hour = hour;
  has_consent = consents channel customer;
  globally_opted_out = opted_out customer;
}

module _ (h : Host) where
  -- `cfg.merchantName?.(id) ?? id`
  abbrev pub display_name : DunningCommsConfig → String → String
  display_name config merchant = elim config.merchant_name [
    | none ↦ merchant
    | some name ↦ or_else (name merchant) merchant
  ]

  abbrev pub dunning_context :
      DunningCommsConfig → Invoice → PaymentMethod → DeclineCode → DunningContext
  dunning_context config invoice m code = record {
    channel = or_else config.channel email;
    decline_code = code;
    merchant_name = display_name config invoice.merchant_id;
    amount_minor = invoice.amount;
    currency = invoice.currency;
    update_card_url = config.update_card_url invoice invoice.customer_id;
    opt_out_instruction = config.opt_out_instruction;
    card_last4 = m.last4;
  }

  -- Without a configuration nothing is composed.
  abbrev pub compose_with :
      Option DunningCommsConfig
      → Invoice
      → PaymentMethod
      → DeclineCode
      → Service h (Option DunningMessage)
  compose_with none invoice m code = pure none
  compose_with (some config) invoice m code = do
    message ← lift (h.compose (dunning_context config invoice m code))
    pure (some message)

  unfoldable pub compose_dunning :
      Invoice → PaymentMethod → DeclineCode → Service h (Option DunningMessage)
  compose_dunning invoice m code = compose_with h.dunning_config invoice m code

  abbrev pub send_key : Invoice → ℕ → DunningChannel → String
  send_key invoice n channel =
      invoice.merchant_id <> ":" <> invoice.id <> ":" <> h.decimal n <> ":" <> channel_name channel

  -- The sender that is wired, or the dry run.
  abbrev pub sender_in_use : Sender (h.Mail) → Sender (h.Mail)
  sender_in_use wired = if h.live_comms then wired else dry_run_sender h.tests (λ w m. w)

  unfoldable pub call_sender :
      Sender (h.Mail) → DunningMessage → DunningRecipient → Service h SendResult
  call_sender sender m r s =
      let (w, answer) = sender s.mail m r in (ok answer, record s { mail = w })

  abbrev pub record_key : String → CaseState h → CaseState h
  record_key key s = record s { sent_keys = s.sent_keys ++ key ∷ [] }

  -- Only a real send is recorded.
  abbrev pub send_unless :
      Bool
      → Sender (h.Mail)
      → DunningMessage
      → DunningRecipient
      → String
      → Service h DunningDelivery
  send_unless true sender m r key = pure duplicate
  send_unless false sender m r key = do
    answer ← call_sender (sender_in_use sender) m r
    when h (is_sent answer.status) (modify (record_key key))
    pure (delivered answer)

  unfoldable pub send_once :
      Sender (h.Mail) → DunningMessage → DunningRecipient → String → Service h DunningDelivery
  send_once sender m r key = do
    seen ← gets (λ s. has key s.sent_keys)
    send_unless seen sender m r key

  abbrev pub deliver_allowed :
      GuardrailDecision
      → Sender (h.Mail)
      → DunningMessage
      → Option Customer
      → String
      → Service h DunningDelivery
  deliver_allowed (suppress reason) sender m customer key = pure (delivery_suppressed reason)
  deliver_allowed allow sender m customer key =
      if missing_address h.tests m.channel (recipient_of m.channel customer)
      then pure skipped
      else send_once sender m (recipient_of m.channel customer) key

  -- `localHour ?? new Date().getUTCHours()`
  abbrev pub hour_or_now : Option ℕ → Service h ℕ
  hour_or_now none = do now ← read_clock h; pure (utc_hour now)
  hour_or_now (some hour) = pure hour

  -- With no sender there is nothing to say.
  abbrev pub deliver_wired :
      Option (Sender (h.Mail))
      → DunningMessage
      → Invoice
      → ℕ
      → DeclineCode
      → Option Customer
      → Option ℕ
      → Service h (Option DunningDelivery)
  deliver_wired none m invoice n code customer local_hour = pure none
  deliver_wired (some sender) m invoice n code customer local_hour = do
    hour ← hour_or_now local_hour
    delivery ←
        deliver_allowed
          (evaluate (comms_proposal m.channel code customer hour) default_guardrail_policy) sender m
          customer (send_key invoice n m.channel)
    pure (some delivery)

  unfoldable pub deliver_dunning :
      DunningMessage
      → Invoice
      → ℕ
      → DeclineCode
      → Option Customer
      → Option ℕ
      → Service h (Option DunningDelivery)
  deliver_dunning m invoice n code customer local_hour =
      deliver_wired h.sender m invoice n code customer local_hour
