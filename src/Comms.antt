-- ===== src/Comms.antt =====
-- The transport of messages to customers (packages/comms/src/sender.ts): the check at its boundary,
-- the dry run, a provider behind `fetch`, the routing by channel and the retries. A provider, its
-- timeout included, may change the world in any way. `TextTests` has the two tests on texts, `trim`
-- and the regular expression of `containsPanLike`. An error keeps its kind, not its text.
pub mod Retry
pub mod Boundary
mod Examples
use ax10m.Common.{
  ℕ, zero, suc, ◌+◌, Bool, true, false, ◌||◌, ◌&&◌, not, String, Option, none, some, leb, ◌==◌, max,
  if◌then◌else◌, or_else,
}
use ax10m.Common.Dict.{str_eq}

pub data DunningChannel : Type 0 where
  email sms : DunningChannel

pub record DunningMessage : Type 0 where
  pub channel : DunningChannel
  pub subject : Option String
  pub body : String

pub record DunningRecipient : Type 0 where
  pub channel : DunningChannel
  pub email_address : Option String
  pub phone : Option String

pub data SendStatus : Type 0 where
  sent dry_run failed : SendStatus

pub data SendError : Type 0 where
  channel_mismatch empty_body pan_in_payload no_address : SendError
  http_error transport_error no_sender : SendError

pub record SendResult : Type 0 where
  pub status : SendStatus
  pub channel : DunningChannel
  pub provider : String
  pub provider_message_id : Option String
  pub error : Option SendError
  pub retriable : Option Bool
  pub attempts : Option ℕ

pub record TextTests : Type 0 where
  pub is_blank : String → Bool
  pub contains_pan_like : Option String → String → Bool

-- `!address`
abbrev pub is_missing : Option String → Bool
is_missing none = true
is_missing (some a) = str_eq a ""

abbrev pub same_channel : DunningChannel → DunningChannel → Bool
same_channel email email = true
same_channel sms sms = true
same_channel _ _ = false

abbrev pub is_failed : SendStatus → Bool
is_failed failed = true
is_failed _ = false

abbrev pub plain_result : SendStatus → DunningChannel → String → SendResult
plain_result status channel provider = record {
  status = status;
  channel = channel;
  provider = provider;
  provider_message_id = none;
  error = none;
  retriable = none;
  attempts = none;
}

-- `failed(channel, provider, err)`: a refusal is permanent, anything else is worth a retry.
abbrev pub failed_result : DunningChannel → String → SendError → Bool → SendResult
failed_result channel provider error retriable = record (plain_result failed channel provider) {
  error = some error;
  retriable = some retriable;
}

module _ (tests : TextTests) where
  open tests use {is_blank, contains_pan_like}

  abbrev pub missing_address : DunningChannel → DunningRecipient → Bool
  missing_address email r = is_missing r.email_address
  missing_address sms r = is_missing r.phone

  -- `assertSendable`: what is refused, if anything.
  unfoldable pub assert_sendable : DunningMessage → DunningRecipient → Option SendError
  assert_sendable m r =
      if not (same_channel r.channel m.channel)
      then some channel_mismatch
      else (if is_blank m.body
          then some empty_body
          else (if contains_pan_like m.subject m.body
              then some pan_in_payload
              else (if missing_address m.channel r then some no_address else none)))

-- A sender, in a world that it may change.
abbrev pub Sender : Type 0 → Type 0
Sender World = World → DunningMessage → DunningRecipient → World × SendResult

-- `DryRunDunningSender`, whose sink is told of the message.
abbrev pub dry_run_for :
    {World : Type 0} → Option SendError → (World → DunningMessage → World) → Sender World
dry_run_for (some e) sink w m r = (w, failed_result m.channel "dry-run" e false)
dry_run_for none sink w m r = (sink w m, plain_result dry_run m.channel "dry-run")

unfoldable pub dry_run_sender :
    {World : Type 0} → TextTests → (World → DunningMessage → World) → Sender World
unfolding assert_sendable
dry_run_sender tests sink w m r = dry_run_for (assert_sendable tests m r) sink w m r

-- What a provider answers: an HTTP status with the id in its body, or a thrown error.
pub data Response : Type 0 where
  answered : ℕ → Option String → Response
  thrown : Response

-- `res.ok`
abbrev pub is_ok : ℕ → Bool
is_ok status = leb 200 status && leb status 299

abbrev pub http_retriable : ℕ → Bool
http_retriable status = leb 500 status || status == 429

abbrev pub provider_result : DunningChannel → String → Response → SendResult
provider_result channel provider thrown = failed_result channel provider transport_error true
provider_result channel provider (answered status id) =
    if is_ok status
    then record (plain_result sent channel provider) { provider_message_id = id }
    else failed_result channel provider http_error (http_retriable status)

-- `PostmarkEmailSender` and `TwilioSmsSender`, by the channel and the name that they report.
abbrev pub provider_for :
    {World : Type 0}
    → Option SendError
    → DunningChannel
    → String
    → (World → DunningMessage → DunningRecipient → World × Response)
    → Sender World
provider_for (some e) channel provider post w m r = (w, failed_result channel provider e false)
provider_for none channel provider post w m r =
    let answer = post w m r in (answer.0, provider_result channel provider answer.1)

unfoldable pub provider_sender :
    {World : Type 0}
    → TextTests
    → DunningChannel
    → String
    → (World → DunningMessage → DunningRecipient → World × Response)
    → Sender World
unfolding assert_sendable
provider_sender tests channel provider post w m r =
    provider_for (assert_sendable tests m r) channel provider post w m r

abbrev pub route_to : {World : Type 0} → Option (Sender World) → Sender World
route_to none w m r =
    (w, record (plain_result failed m.channel "composite") { error = some no_sender })
route_to (some target) w m r = target w m r

-- `CompositeDunningSender`
abbrev pub composite_sender :
    {World : Type 0} → Option (Sender World) → Option (Sender World) → Sender World
composite_sender by_email by_sms w m r = elim m.channel [
  | email ↦ route_to by_email w m r
  | sms ↦ route_to by_sms w m r
]

module _ {World : Type 0} (inner : Sender World) (pause : World → ℕ → World) where
  -- `last.status !== 'failed' || !last.retriable || attempt === max`
  abbrev pub gives_up : SendResult → ℕ → ℕ → Bool
  gives_up last attempt limit =
      not (is_failed last.status) || (not (or_else last.retriable false) || attempt == limit)

  -- The loop, with `left` rounds to go from `attempt` on; `pause` is the sleep after a failed try.
  unfoldable pub try_from :
      ℕ → ℕ → ℕ → World → SendResult → DunningMessage → DunningRecipient → World × SendResult
  try_from zero limit attempt w last m r = (w, record last { attempts = some limit })
  try_from (suc left) limit attempt w last m r =
      let answer = inner w m r in
      let rest = try_from left limit (attempt + 1) (pause answer.0 attempt) answer.1 m r in
      if gives_up answer.1 attempt limit
      then (answer.0, record answer.1 { attempts = some attempt })
      else rest

  -- `RetryingDunningSender`
  unfoldable pub retrying_sender : ℕ → Sender World
  unfolding try_from
  retrying_sender max_attempts w m r =
      try_from (max 1 max_attempts) (max 1 max_attempts) 1 w (plain_result failed m.channel "retry")
        m r
