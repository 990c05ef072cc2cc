-- ===== src/Comms/Examples.antt =====
-- Instances of the theorems on the transport of messages.
use ax10m.Common.{zero, suc, ℕ, ◌+◌, ◌≡◌, refl, false, some, none, max}
use ax10m.Common.Dict.{str_eq}
use ax10m.Comms.{
  DunningMessage, DunningRecipient, Response, SendError, TextTests, answered, email, failed_result,
  provider_sender, retrying_sender, try_from, assert_sendable,
}
use ax10m.Comms.Retry.{Outcome, retrying_sender-Outcome}
use ax10m.Comms.Boundary.{Sendable, refuses_unsendable}

abbrev tests : TextTests
tests = record {
  is_blank = λ s. str_eq s "";
  contains_pan_like = λ s b. str_eq b "4111111111111111";
}

abbrev notice : DunningMessage
notice = record {
  channel = email;
  subject = some "Update your card";
  body = "Please update your card.";
}

abbrev leak : DunningMessage
leak = record notice { body = "4111111111111111" }

abbrev customer : DunningRecipient
customer = record { channel = email; email_address = some "a@b.co"; phone = none }

-- A transport that fails twice with a server error; the world counts its calls and the pauses.
abbrev reply : ℕ → Response
reply zero = answered 503 none
reply (suc zero) = answered 503 none
reply (suc (suc n)) = answered 200 (some "id")

abbrev flaky : (ℕ × ℕ) → DunningMessage → DunningRecipient → (ℕ × ℕ) × Response
flaky w m r = ((w.0 + 1, w.1), reply w.0)

abbrev wait : (ℕ × ℕ) → ℕ → ℕ × ℕ
wait w failed_try = (w.0, w.1 + 1)

third_time :
    (retrying_sender (provider_sender tests email "postmark" flaky) wait 3 (0, 0) notice customer).0
    ≡ (3, 2)
unfolding retrying_sender provider_sender try_from assert_sendable
third_time = refl

retrying_sender-Outcome_example :
    Outcome
      (provider_sender tests email "postmark" flaky)
      wait
      notice
      customer
      (max 1 3)
      1
      (0, 0)
      (retrying_sender (provider_sender tests email "postmark" flaky) wait 3 (0, 0) notice customer)
retrying_sender-Outcome_example =
    retrying_sender-Outcome (provider_sender tests email "postmark" flaky) wait notice customer 3
      (0, 0)

leak-unsendable : Sendable tests leak customer → ⊥
leak-unsendable s = absurd (cc s.2)

refuses_unsendable_example :
    (e : SendError) × (retrying_sender
        (provider_sender tests email "postmark" flaky)
        wait
        3
        (0, 0)
        leak
        customer
      ≡ ((0, 0), record (failed_result email "postmark" e false) { attempts = some 1 }))
refuses_unsendable_example =
    refuses_unsendable tests email "postmark" flaky wait 3 (0, 0) leak customer leak-unsendable
