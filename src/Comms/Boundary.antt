-- ===== src/Comms/Boundary.antt =====
-- The check at the boundary of the transport (packages/comms/src/sender.ts, `assertSendable`).
use ax10m.Common.{
  ℕ, Option-cases, ◌-◌, suc, inl, inr, ap, ◌∙◌, max, ◌≡◌, ◌↔◌, refl, false, none, some, String,
  arith,
}
use ax10m.Comms.{
  plain_result, failed, DunningChannel, DunningMessage, DunningRecipient, SendResult, SendError,
  TextTests, Response, assert_sendable, missing_address, provider_sender, retrying_sender, try_from,
  failed_result,
}

-- A payload that may leave: the channels agree, the body is not blank, nothing in it looks like a
-- card number, and there is an address for the channel.
abbrev pub Sendable : TextTests → DunningMessage → DunningRecipient → Type 0
Sendable tests m r =
    (r.channel ≡ m.channel)
    × (tests.is_blank m.body ≡ false)
    × (tests.contains_pan_like m.subject m.body ≡ false)
    × (missing_address tests m.channel r ≡ false)

assert_sendable_iff :
    (tests : TextTests) (m : DunningMessage) (r : DunningRecipient)
    → (assert_sendable tests m r ≡ none) ↔ Sendable tests m r
unfolding assert_sendable
assert_sendable_iff tests m r = (λ h. ground (arith, h), λ h. ground (arith, h))

module _ {World : Type 0} (tests : TextTests) (channel : DunningChannel) (provider : String)
    (post : World → DunningMessage → DunningRecipient → World × Response)
    (pause : World → ℕ → World) where
  refused :
      (w : World) (m : DunningMessage) (r : DunningRecipient) {e : SendError}
      → assert_sendable tests m r ≡ some e
      → provider_sender tests channel provider post w m r
        ≡ (w, failed_result channel provider e false)
  unfolding provider_sender
  refused w m r h = rw h refl

  refused_once :
      (left limit : ℕ) (w : World) (last : SendResult) (m : DunningMessage) (r : DunningRecipient)
      (e : SendError)
      → assert_sendable tests m r ≡ some e
      → try_from (provider_sender tests channel provider post) pause (suc left) limit 1 w last m r
        ≡ (w, record (failed_result channel provider e false) { attempts = some 1 })
  unfolding try_from
  refused_once left limit w last m r e h = rw (refused w m r h) refl

  -- A payload that must not leave is refused at the first try: the provider is not called, no pause
  -- is made, the world stays as it was, and the failure is not worth a retry.
  pub refuses_unsendable :
      (max_attempts : ℕ) (w : World) (m : DunningMessage) (r : DunningRecipient)
      → (Sendable tests m r → ⊥)
      → (e : SendError) × (retrying_sender
            (provider_sender tests channel provider post)
            pause
            max_attempts
            w
            m
            r
          ≡ (w, record (failed_result channel provider e false) { attempts = some 1 }))
  unfolding retrying_sender
  refuses_unsendable max_attempts w m r h = elim (Option-cases (assert_sendable tests m r)) [
    | inl e ↦ absurd (h ((assert_sendable_iff tests m r).0 e))
    | inr (err, e) ↦
        let tries : max 1 max_attempts ≡ suc (max 1 max_attempts - 1) = omega arith in
        (
          err,
          ap
                (λ k.
                  try_from (provider_sender tests channel provider post) pause k
                    (max 1 max_attempts) 1 w (plain_result failed m.channel "retry") m r)
                tries
              ∙ refused_once (max 1 max_attempts - 1) (max 1 max_attempts) w
                  (plain_result failed m.channel "retry") m r err e,
        )
  ]
