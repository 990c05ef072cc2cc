-- ===== src/Comms/Retry.antt =====
-- The retries of a send (packages/comms/src/sender.ts, `RetryingDunningSender`).
use ax10m.Common.{
  ℕ, zero, suc, ◌+◌, ◌≡◌, ◌≤◌, ◌⊎◌, refl, true, false, some, max, or_else, arith, inl, inr,
  Bool-cases,
}
use ax10m.Comms.{
  DunningMessage, DunningRecipient, SendResult, Sender, is_failed, gives_up, try_from,
  retrying_sender, plain_result, failed,
}

less : (i limit : ℕ) → i ≤ limit → (i ≡ limit → ⊥) → i + 1 ≤ limit
less i limit h n = ground (arith, h, n)

module _ {World : Type 0} (inner : Sender World) (pause : World → ℕ → World) (m : DunningMessage)
    (r : DunningRecipient) where
  -- A result that is worth another try.
  abbrev pub Transient : SendResult → Type 0
  Transient x = (is_failed x.status ≡ true) × (or_else x.retriable false ≡ true)

  -- From try number i on, in this world, the sender is called up to try k, whose answer is this;
  -- each earlier answer was transient, and a pause follows it.
  pub data Tries : ℕ → World → ℕ → World → SendResult → Type 0 where
    final : (i : ℕ) (w : World) → Tries i w i (inner w m r).0 (inner w m r).1
    again :
        (i k : ℕ) (w u : World) (x : SendResult)
        → Transient (inner w m r).1
        → Tries (i + 1) (pause (inner w m r).0 i) k u x
        → Tries i w k u x

  -- What the loop returns: the answer of try k with its number, where it stopped for a reason.
  abbrev pub Outcome : ℕ → ℕ → World → World × SendResult → Type 0
  Outcome limit i w out =
      (k : ℕ) × (x : SendResult) × Tries i w k out.0 x
      × (out.1 ≡ record x { attempts = some k })
      × (k ≤ limit)
      × ((is_failed x.status ≡ false) ⊎ ((or_else x.retriable false ≡ false) ⊎ (k ≡ limit)))

  stop_reason :
      (x : SendResult) (i limit : ℕ)
      → gives_up inner pause x i limit ≡ true
      → (is_failed x.status ≡ false) ⊎ ((or_else x.retriable false ≡ false) ⊎ (i ≡ limit))
  stop_reason x i limit h = ground (arith, h)

  go_on :
      (x : SendResult) (i limit : ℕ)
      → gives_up inner pause x i limit ≡ false
      → Transient x × (i ≡ limit → ⊥)
  go_on x i limit h = ground (arith, h)

  try_from-Outcome :
      (left limit i : ℕ) (w : World) (last : SendResult)
      → i + left ≡ limit + 1
      → i ≤ limit
      → Outcome limit i w (try_from inner pause left limit i w last m r)
  unfolding try_from
  try_from-Outcome zero limit i w last e h = absurd (omega (arith, e, h))
  try_from-Outcome (suc left) limit i w last e h =
      let x = (inner w m r).1 in
      let v = pause (inner w m r).0 i in
      elim (Bool-cases (gives_up inner pause (inner w m r).1 i limit)) [
        | inl g ↦ rw g (i, x, final i w, refl, h, stop_reason x i limit g)
        | inr g ↦
            let go = go_on x i limit g in
            let ih =
              try_from-Outcome left limit (i + 1) v x (omega (arith, e)) (less i limit h go.1) in
            rw g (
              ih.0,
              ih.1,
              again i ih.0 w (try_from inner pause left limit (i + 1) v x m r).0 ih.1 go.0 ih.2,
              ih.3,
              ih.4,
              ih.5,
            )
      ]

  -- Whatever the sender does, the retrying sender ends after a number of tries that is at least one
  -- and within its limit; it returns the last answer with that number, every earlier answer was a
  -- failure worth a retry, and the last is not one, or the limit is reached.
  pub retrying_sender-Outcome :
      (max_attempts : ℕ) (w : World)
      → Outcome (max 1 max_attempts) 1 w (retrying_sender inner pause max_attempts w m r)
  unfolding retrying_sender
  retrying_sender-Outcome max_attempts w =
      try_from-Outcome (max 1 max_attempts) (max 1 max_attempts) 1 w
        (plain_result failed m.channel "retry") (omega arith) (omega arith)
