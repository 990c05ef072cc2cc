-- ===== src/RecoveryCase/Once.antt =====
-- A message is sent once (recovery-case.service.ts, `deliverDunning`).
use text.Mathlib.TextEquality.{eq_iff}
use ax10m.Common.{
  ℕ, ◌≡◌, refl, sym, subst, Bool, true, false, String, Option, none, some, List, [], ◌∷◌, ◌++◌,
  arith,
}
use ax10m.Common.Action.{
  ok, Ends, Triple, Triple-bind, Triple-pure, Triple-modify, Triple-gets, Triple-given, Ends-ok,
  Triple-if, pure, Triple-then, Keeps, Keeps-end, modify,
}
use ax10m.Canonical.{DeclineCode}
use ax10m.Guardrail.{GuardrailDecision, allow, suppress}
use ax10m.Comms.{DunningChannel, Sender, DunningMessage, DunningRecipient, missing_address}
use ax10m.RecoveryCase.{Invoice, PaymentMethod, Customer, Host, CaseState}
use ax10m.RecoveryCase.Attempt.{when, attempt_recovery}
use ax10m.RecoveryCase.Intake.{has}
use ax10m.RecoveryCase.Deliver.{
  DunningDelivery, delivered, duplicate, skipped, deliver_dunning, deliver_wired, deliver_allowed,
  send_once, send_unless, record_key, is_sent, recipient_of, send_key,
}
use ax10m.RecoveryCase.Fresh.{ExecuteInput}
use ax10m.RecoveryCase.Keeps.{Calm, hour_or_now-Keeps, plan_attempt-Keeps}
use ax10m.RecoveryCase.Messages.{Stable, call_sender-Keeps}
use ax10m.RecoveryCase.Settle.{Steps, dispose-Triple}
use ax10m.RecoveryCase.Active.{Attempts, execute_recovery-Triple}
use ax10m.RecoveryCase.Arrivals.{has-snoc, Arrives, ingest-Keeps}
use ax10m.RecoveryCase.Calls.{Leads, none_yet, ingested, planned, executed}
use ax10m.RecoveryCase.Execute.{execute_recovery}

has-kept :
    (k id : String) (marked : List String) → has k marked ≡ true → has k (marked ++ id ∷ []) ≡ true
has-kept k id marked h = ground (arith, has-snoc k id marked)

has-added : (k : String) (marked : List String) → has k (marked ++ k ∷ []) ≡ true
has-added k marked = ground (arith, has-snoc k k marked, eq_iff k k)

-- The message was handed to the sender.
abbrev pub is_delivered : Option DunningDelivery → Bool
is_delivered (some (delivered r)) = true
is_delivered _ = false

-- It left the system.
abbrev pub has_left : Option DunningDelivery → Bool
has_left (some (delivered r)) = is_sent r.status
has_left _ = false

module _ (h : Host) (key : String) where
  abbrev Recorded : CaseState h → Type 0
  Recorded s = has key s.sent_keys ≡ true

  Recorded-Calm : Calm h Recorded
  Recorded-Calm = record { clock = λ s c q. q; policy = λ s p q. q; notes = λ s e t q. q }

  Recorded-Stable : Stable h Recorded
  Recorded-Stable = record {
    calm = Recorded-Calm;
    fetches = λ s m q. q;
    lists = λ s c q. q;
    mail = λ s x q. q;
    keys = λ s x q. has-kept key x s.sent_keys q;
  }

  Recorded-Arrives : Arrives h Recorded
  Recorded-Arrives = record {
    calm = Recorded-Calm;
    features = λ s x q. q;
    merchants = λ s x q. q;
    dispatched = λ s x q. q;
    opens = λ invoice a at s e q. q;
    reverses = λ s p merchant at q. q;
    reinstates = λ s p merchant at q. q;
  }

  Recorded-Steps :
      (invoice : Invoice) (m : PaymentMethod) (n : ℕ)
      → Steps h invoice m n Recorded Recorded Recorded Recorded (λ won. Recorded)
  Recorded-Steps invoice m n = record {
    before_calm = Recorded-Calm;
    counted_calm = Recorded-Calm;
    reported_calm = Recorded-Calm;
    after_calm = λ won. Recorded-Calm;
    called_calm = Recorded-Calm;
    answers = λ s key r x e q. q;
    rejects = λ s key x e q. q;
    raises = λ s q. q;
    learns = λ won s x q. q;
    counts = λ s at q. q;
    reports = λ s e t q. q;
    declines = λ s e t q. q;
    recovers = λ s at q. q;
    idle = λ s q. q;
  }

  Attempts-Recorded : (p : ExecuteInput) → Attempts h Recorded (λ won. Recorded) p
  unfolding attempt_recovery
  Attempts-Recorded p kind code m w minutes hour shadow c =
      Triple-given (λ s q. q.0)
        (dispose-Triple h p.invoice m p.attempt_number (Recorded-Steps p.invoice m p.attempt_number)
          Recorded (λ s q. q) _ p.now_iso shadow)

  execute-Recorded : (p : ExecuteInput) → Keeps Recorded (execute_recovery h p)
  execute-Recorded p =
      execute_recovery-Triple h p Recorded (λ won. Recorded) Recorded-Stable (Attempts-Recorded p)
        (λ s q. q) (λ s q. q) (λ won. Recorded-Calm)

  Leads-Recorded : {s t : CaseState h} → Recorded s → Leads h s t → Recorded t
  Leads-Recorded r none_yet = r
  Leads-Recorded r (ingested es l) =
      Keeps-end _ (ingest-Keeps h Recorded-Arrives es) _ (Leads-Recorded r l)
  Leads-Recorded r (planned invoice m d n l) =
      Keeps-end _ (plan_attempt-Keeps h Recorded-Calm invoice m d n) _ (Leads-Recorded r l)
  Leads-Recorded r (executed p l) = Keeps-end _ (execute-Recorded p) _ (Leads-Recorded r l)

  -- What is sent is recorded.
  abbrev Anything : CaseState h → Type 0
  Anything s = Unit {0}

  Anything-Stable : Stable h Anything
  Anything-Stable = record {
    calm = record { clock = λ s c q. tt; policy = λ s p q. tt; notes = λ s e t q. tt };
    fetches = λ s m q. tt;
    lists = λ s c q. tt;
    mail = λ s x q. tt;
    keys = λ s x q. tt;
  }

  when-Recorded :
      (b : Bool)
      → Triple Anything
          (when h b (modify (record_key h key)))
          (λ u s. b ≡ true → Recorded s)
          Anything
  when-Recorded true = Triple-modify _ (λ s q e. has-added key s.sent_keys)
  when-Recorded false = Triple-pure tt (λ s q e. absurd (cc))

  send_unless-records :
      (seen : Bool) (sender : Sender (h.Mail)) (m : DunningMessage) (r : DunningRecipient)
      → Triple Anything
          (send_unless h seen sender m r key)
          (λ o s. has_left (some o) ≡ true → Recorded s)
          Anything
  send_unless-records true sender m r = Triple-pure duplicate (λ s q e. absurd (cc))
  send_unless-records false sender m r =
      Triple-bind _ _ (call_sender-Keeps h Anything-Stable _ m r) (λ answer.
        Triple-bind _ _ (when-Recorded (is_sent answer.status))
          (λ u. Triple-pure (delivered answer) (λ s q e. q e)))

  deliver_allowed-records :
      (d : GuardrailDecision) (sender : Sender (h.Mail)) (m : DunningMessage) (c : Option Customer)
      → Triple Anything
          (deliver_allowed h d sender m c key)
          (λ o s. has_left (some o) ≡ true → Recorded s)
          Anything
  unfolding send_once
  deliver_allowed-records (suppress reason) sender m c = Triple-pure _ (λ s q e. absurd (cc))
  deliver_allowed-records allow sender m c =
      Triple-if (missing_address h.tests m.channel (recipient_of m.channel c)) (pure skipped)
        (send_once h sender m (recipient_of m.channel c) key)
        (λ e. Triple-pure skipped (λ s q e'. absurd (cc)))
        (λ e.
          Triple-bind _ _
            (Triple-gets {Q = λ seen. Anything} (λ s. has key s.sent_keys) (λ s q. tt))
            (λ seen. send_unless-records seen sender m (recipient_of m.channel c)))

  -- A recorded message is not handed over again.
  module _ (w : h.Mail) where
    abbrev Silent : CaseState h → Type 0
    Silent s = (s.mail ≡ w) × Recorded s

    Silent-Calm : Calm h Silent
    Silent-Calm = record { clock = λ s c q. q; policy = λ s p q. q; notes = λ s e t q. q }

    abbrev Withheld : Option DunningDelivery → CaseState h → Type 0
    Withheld o s = (is_delivered o ≡ false) × (s.mail ≡ w)

    send_unless-Silent :
        (seen : Bool) (sender : Sender (h.Mail)) (m : DunningMessage) (r : DunningRecipient)
        → Triple
            (λ s. (seen ≡ true) × Silent s)
            (send_unless h seen sender m r key)
            (λ o. Withheld (some o))
            (λ s. s.mail ≡ w)
    send_unless-Silent true sender m r = Triple-pure duplicate (λ s q. (refl, q.1.0))
    send_unless-Silent false sender m r = record { run = λ s q. absurd (cc) }

    deliver_allowed-Silent :
        (d : GuardrailDecision) (sender : Sender (h.Mail)) (m : DunningMessage)
        (c : Option Customer)
        → Triple Silent
            (deliver_allowed h d sender m c key)
            (λ o. Withheld (some o))
            (λ s. s.mail ≡ w)
    unfolding send_once
    deliver_allowed-Silent (suppress reason) sender m c = Triple-pure _ (λ s q. (refl, q.0))
    deliver_allowed-Silent allow sender m c =
        Triple-if (missing_address h.tests m.channel (recipient_of m.channel c)) (pure skipped)
          (send_once h sender m (recipient_of m.channel c) key)
          (λ e. Triple-pure skipped (λ s q. (refl, q.0)))
          (λ e.
            Triple-bind _ _ (Triple-gets (λ s. has key s.sent_keys) (λ s q. (q.1, q)))
              (λ seen. send_unless-Silent seen sender m (recipient_of m.channel c)))

module _ (h : Host) where
  deliver_wired-records :
      (wired : Option (Sender (h.Mail))) (m : DunningMessage) (invoice : Invoice) (n : ℕ)
      (code : DeclineCode) (c : Option Customer) (hour : Option ℕ)
      → Triple
          (Anything h "")
          (deliver_wired h wired m invoice n code c hour)
          (λ o s. has_left o ≡ true → Recorded h (send_key h invoice n m.channel) s)
          (Anything h "")
  deliver_wired-records none m invoice n code c hour = Triple-pure none (λ s q e. absurd (cc))
  deliver_wired-records (some sender) m invoice n code c hour =
      Triple-bind _ _ (hour_or_now-Keeps h (Anything-Stable h "").calm hour) (λ at.
        Triple-bind _ _ (deliver_allowed-records h (send_key h invoice n m.channel) _ sender m c)
          (λ o. Triple-pure (some o) (λ s q. q)))

  deliver_wired-Silent :
      (w : h.Mail) (wired : Option (Sender (h.Mail))) (m : DunningMessage) (invoice : Invoice)
      (n : ℕ) (code : DeclineCode) (c : Option Customer) (hour : Option ℕ)
      → Triple
          (Silent h (send_key h invoice n m.channel) w)
          (deliver_wired h wired m invoice n code c hour)
          (Withheld h (send_key h invoice n m.channel) w)
          (λ s. s.mail ≡ w)
  deliver_wired-Silent w none m invoice n code c hour = Triple-pure none (λ s q. (refl, q.0))
  deliver_wired-Silent w (some sender) m invoice n code c hour =
      Triple-bind _ _
        (Triple-then (λ a s q. q) (λ s q. q.0)
          (hour_or_now-Keeps h (Silent-Calm h (send_key h invoice n m.channel) w) hour))
        (λ at.
          Triple-bind _ _ (deliver_allowed-Silent h (send_key h invoice n m.channel) w _ sender m c)
            (λ o. Triple-pure (some o) (λ s q. q)))

  -- Once a message for an attempt on an invoice has left over a channel, then after any webhooks, plans
  -- and executions, no message for the same attempt over the same channel is handed to the sender:
  -- what is behind the sender stays as it was.
  pub deliver_dunning-once :
      (m m' : DunningMessage) (invoice : Invoice) (n : ℕ) (code code' : DeclineCode)
      (c c' : Option Customer) (hour hour' : Option ℕ) (s t : CaseState h)
      (o : Option DunningDelivery)
      → (deliver_dunning h m invoice n code c hour s).0 ≡ ok o
      → has_left o ≡ true
      → Leads h (deliver_dunning h m invoice n code c hour s).1 t
      → m'.channel ≡ m.channel
      → let again = deliver_dunning h m' invoice n code' c' hour' t in
        Ends
          (λ o' u. (is_delivered o' ≡ false) × (u.mail ≡ t.mail))
          (λ u. u.mail ≡ t.mail)
          again.0
          again.1
  unfolding deliver_dunning
  deliver_dunning-once m m' invoice n code code' c c' hour hour' s t o e left leads same =
      let key = send_key h invoice n m.channel in
      let first = (deliver_wired-records h.sender m invoice n code c hour).run s tt in
      let kept = Leads-Recorded h key (Ends-ok _ _ o e first left) leads in
      let kept' : Recorded h (send_key h invoice n m'.channel) t =
        subst (λ (x : DunningChannel). Recorded h (send_key h invoice n x) t) (sym same) kept in
      (deliver_wired-Silent t.mail h.sender m' invoice n code' c' hour').run t (refl, kept')
