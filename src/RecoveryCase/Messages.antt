-- ===== src/RecoveryCase/Messages.antt =====
-- What a message to a customer keeps (recovery-case.service.ts, `composeDunning`, `deliverDunning`): any
-- property that the outside and the record of a message leave alone.
use ax10m.Common.{◌≡◌, ℕ, refl, Bool, true, false, not, String, Option, none, some, List}
use ax10m.Common.Action.{
  Triple-pure, Triple-bind, Triple, pure, modify, Keeps, Keeps-bind, Keeps-pure, Keeps-lift,
  Keeps-gets, Triple-modify, Keeps-if,
}
use ax10m.Canonical.{DeclineCode}
use ax10m.Guardrail.{GuardrailDecision, allow, suppress}
use ax10m.Comms.{Sender, DunningMessage, DunningRecipient, missing_address}
use ax10m.Scheduler.{RecoveryDecision}
use ax10m.RecoveryCase.{Invoice, PaymentMethod, Customer, DunningCommsConfig, Host, CaseState}
use ax10m.RecoveryCase.Deliver.{
  deliver_dunning, deliver_wired, deliver_allowed, send_once, send_unless, call_sender,
  compose_dunning, compose_with, record_key, is_sent, recipient_of, skipped,
}
use ax10m.RecoveryCase.Fresh.{ExecuteInput, try_processor}
use ax10m.RecoveryCase.Execute.{give_up, deliver_if, compose_if}
use ax10m.RecoveryCase.Keeps.{Calm, when-Keeps, note-Keeps, hour_or_now-Keeps}

module _ (h : Host) where
  -- Left alone by what is outside, too, and by the record of a message.
  pub record Stable (P : CaseState h → Type 0) : Type 0 where
    pub calm : Calm h P
    pub fetches :
        (s : CaseState h) (m : PaymentMethod)
        → P s
        → P (record s { processor = (h.fetch_updated_card m s.processor).1 })
    pub lists :
        (s : CaseState h) (c : Customer)
        → P s
        → P (record s { processor = (h.list_payment_methods c s.processor).1 })
    pub mail : (s : CaseState h) (x : h.Mail) → P s → P (record s { mail = x })
    pub keys : (s : CaseState h) (x : String) → P s → P (record_key h x s)

  module _ {P : CaseState h → Type 0} (stable : Stable P) where
    pub fetch-Keeps :
        (default : Option PaymentMethod) (m : PaymentMethod)
        → Keeps P (try_processor h default (h.fetch_updated_card m))
    unfolding try_processor
    fetch-Keeps default m = record { run = λ s q. stable.fetches s m q }

    pub list-Keeps :
        (default : List PaymentMethod) (c : Customer)
        → Keeps P (try_processor h default (h.list_payment_methods c))
    unfolding try_processor
    list-Keeps default c = record { run = λ s q. stable.lists s c q }

    pub call_sender-Keeps :
        (sender : Sender (h.Mail)) (m : DunningMessage) (r : DunningRecipient)
        → Keeps P (call_sender h sender m r)
    unfolding call_sender
    call_sender-Keeps sender m r = record { run = λ s q. stable.mail s (sender s.mail m r).0 q }

    send_unless-Keeps :
        (seen : Bool) (sender : Sender (h.Mail)) (m : DunningMessage) (r : DunningRecipient)
        (key : String)
        → Keeps P (send_unless h seen sender m r key)
    send_unless-Keeps true sender m r key = Keeps-pure _
    send_unless-Keeps false sender m r key = Keeps-bind _ _ (call_sender-Keeps _ m r) (λ answer.
        Keeps-bind _ _
          (when-Keeps h (is_sent answer.status) (modify (record_key h key))
            (Triple-modify (record_key h key) (λ s q. stable.keys s key q)))
          (λ u. Keeps-pure _))

    deliver_allowed-Keeps :
        (d : GuardrailDecision) (sender : Sender (h.Mail)) (m : DunningMessage)
        (customer : Option Customer) (key : String)
        → Keeps P (deliver_allowed h d sender m customer key)
    unfolding send_once
    deliver_allowed-Keeps (suppress reason) sender m customer key = Keeps-pure _
    deliver_allowed-Keeps allow sender m customer key =
        Keeps-if (missing_address h.tests m.channel (recipient_of m.channel customer))
          (pure skipped) (send_once h sender m (recipient_of m.channel customer) key)
          (λ e. Keeps-pure skipped)
          (λ e.
            Keeps-bind _ _ (Keeps-gets _)
              (λ seen. send_unless-Keeps seen sender m (recipient_of m.channel customer) key))

    pub deliver_wired-Keeps :
        (wired : Option (Sender (h.Mail))) (m : DunningMessage) (invoice : Invoice) (n : ℕ)
        (code : DeclineCode) (customer : Option Customer) (hour : Option ℕ)
        → Keeps P (deliver_wired h wired m invoice n code customer hour)
    deliver_wired-Keeps none m invoice n code customer hour = Keeps-pure _
    deliver_wired-Keeps (some sender) m invoice n code customer hour =
        Keeps-bind _ _ (hour_or_now-Keeps h stable.calm hour)
          (λ now. Keeps-bind _ _ (deliver_allowed-Keeps _ sender m customer _) (λ d. Keeps-pure _))

    deliver_if-Keeps :
        (m : Option DunningMessage) (p : ExecuteInput) (code : DeclineCode)
        → Keeps P (deliver_if h m p code)
    unfolding deliver_dunning
    deliver_if-Keeps none p code = Keeps-pure none
    deliver_if-Keeps (some m) p code =
        deliver_wired-Keeps h.sender m p.invoice p.attempt_number code p.customer p.local_hour

    compose_with-Keeps :
        (config : Option DunningCommsConfig) (invoice : Invoice) (m : PaymentMethod)
        (code : DeclineCode)
        → Keeps P (compose_with h config invoice m code)
    compose_with-Keeps none invoice m code = Keeps-pure none
    compose_with-Keeps (some config) invoice m code =
        Keeps-bind _ _ (Keeps-lift _) (λ x. Keeps-pure _)

    compose_if-Keeps :
        (b : Bool) (p : ExecuteInput) (code : DeclineCode) → Keeps P (compose_if h b p code)
    unfolding compose_dunning
    compose_if-Keeps true p code = compose_with-Keeps h.dunning_config p.invoice p.method code
    compose_if-Keeps false p code = Keeps-pure none

    -- It never reports a charge.
    pub give_up-Triple :
        (p : ExecuteInput) (code : DeclineCode) (d : RecoveryDecision) (b : Bool)
        → Triple P (give_up h p code d b) (λ o s. (o.outcome ≡ none) × P s) P
    unfolding give_up
    give_up-Triple p code d true = Triple-bind _ _ (compose_if-Keeps (not p.shadow) p code) (λ m.
        Triple-bind _ _ (deliver_if-Keeps m p code) (λ x.
          Triple-bind _ _ (note-Keeps h stable.calm _ _ _ refl)
            (λ u. Triple-pure _ (λ s q. (refl, q)))))
    give_up-Triple p code d false = Triple-bind _ _ (Keeps-pure none) (λ m.
        Triple-bind _ _ (deliver_if-Keeps m p code) (λ x.
          Triple-bind _ _ (note-Keeps h stable.calm _ _ _ refl)
            (λ u. Triple-pure _ (λ s q. (refl, q)))))
