-- ===== src/RecoveryCase/Keeps.antt =====
-- What the parts of the recovery case service keep (recovery-case.service.ts): one rule for each part
-- that charges nothing, for any property that its own changes leave alone.
use ax10m.Common.{ℕ, ◌≡◌, refl, Bool, true, false, String, Option, none, some, List}
use ax10m.Common.Dict.{Dict}
use ax10m.Common.Action.{
  Triple-pure, Triple-bind, Triple, modify, Keeps, Triple-modify, Keeps-pure, Keeps-gets,
  Keeps-bind,
}
use ax10m.Ledger.{
  LedgerEventType, recovery_planned, charge_attempted, comms_sent, action_suppressed,
}
use ax10m.BillingRun.{BillingLedgerEntry, DetailValue}
use ax10m.Scheduler.{RecoveryDecision, ChargeOutcome, succeeded, failed, pending}
use ax10m.RecoveryEngine.{AvailableMethod}
use ax10m.RecoveryCase.{
  Instant, Invoice, PaymentMethod, Customer, DeclineEvent, ComplianceContext, Host, CaseState,
  read_clock, note, with_entry, entry_of,
}
use ax10m.RecoveryCase.Attempt.{when, Service, time_or_now}
use ax10m.RecoveryCase.Deliver.{hour_or_now}
use ax10m.RecoveryCase.Execute.{learn_online}
use ax10m.RecoveryCase.Plan.{
  plan_sequence, Features, features_for, decide_at, ask_policy, plan_attempt,
}

-- The events that neither report a charge nor open or reverse a case.
abbrev pub is_quiet : LedgerEventType → Bool
is_quiet recovery_planned = true
is_quiet charge_attempted = true
is_quiet comms_sent = true
is_quiet action_suppressed = true
is_quiet _ = false

module _ (h : Host) {P : CaseState h → Type 0} where
  pub when-Keeps : (b : Bool) (m : Service h (Unit {0})) → Keeps P m → Keeps P (when h b m)
  when-Keeps true m k = k
  when-Keeps false m k = Keeps-pure tt

module _ (h : Host) where
  -- Left alone by the clock, the policy and the quiet notes.
  pub record Calm (P : CaseState h → Type 0) : Type 0 where
    pub clock : (s : CaseState h) (c : h.Clock) → P s → P (record s { clock = c })
    pub policy : (s : CaseState h) (p : h.Policy) → P s → P (record s { policy = p })
    pub notes :
        (s : CaseState h) (e : BillingLedgerEntry)
        → is_quiet e.type ≡ true
        → P s
        → P (with_entry h e s)

  module _ {P : CaseState h → Type 0} (calm : Calm P) where
    pub read_clock-Triple : {E : CaseState h → Type 0} → Triple P (read_clock h) (λ now. P) E
    unfolding read_clock
    read_clock-Triple = record { run = λ s q. calm.clock s (h.tick s.clock).1 q }

    -- What an event of now does.
    pub note-Triple :
        {Q E : CaseState h → Type 0} (merchant : String) (type : LedgerEventType)
        (detail : Dict DetailValue)
        → ((s : CaseState h) (at : Instant)
            → P s
            → Q (with_entry h (entry_of h merchant type at detail) s))
        → Triple P (note h merchant type detail) (λ u. Q) E
    unfolding note
    note-Triple merchant type detail f =
        Triple-bind (read_clock h) _ read_clock-Triple
          (λ now. Triple-modify _ (λ s q. f s (some now) q))

    pub note-Keeps :
        (merchant : String) (type : LedgerEventType) (detail : Dict DetailValue)
        → is_quiet type ≡ true
        → Keeps P (note h merchant type detail)
    note-Keeps merchant type detail quiet =
        note-Triple merchant type detail
          (λ s at q. calm.notes s (entry_of h merchant type at detail) quiet q)

    pub time_or_now-Triple :
        {E : CaseState h → Type 0} (at : Option ℕ) → Triple P (time_or_now h at) (λ now. P) E
    time_or_now-Triple none = read_clock-Triple
    time_or_now-Triple (some now) = Triple-pure now (λ s q. q)

    pub features_for-Keeps :
        (invoice : Invoice) (method : Option PaymentMethod) (decline : Option DeclineEvent) (n : ℕ)
        (customer : Option Customer)
        → Keeps P (features_for h invoice method decline n customer)
    unfolding features_for
    features_for-Keeps invoice method decline n customer =
        Keeps-bind (read_clock h) _ read_clock-Triple (λ now. Keeps-gets _)

    decide-Keeps :
        (features : Features h) (methods : List AvailableMethod)
        (compliance : Option ComplianceContext) (now : ℕ)
        → Keeps P (decide_at h features methods compliance now)
    unfolding decide_at
    decide-Keeps features methods compliance now = record {
      run = λ s q.
          calm.policy s
            (h.decide features (record { now = now; methods = methods; compliance = compliance })
              s.policy).1
            q;
    }

    pub ask_policy-Keeps :
        (features : Features h) (methods : List AvailableMethod)
        (compliance : Option ComplianceContext)
        → Keeps P (ask_policy h features methods compliance)
    unfolding ask_policy
    ask_policy-Keeps features methods compliance =
        Keeps-bind (read_clock h) _ read_clock-Triple (decide-Keeps features methods compliance)

    pub plan_attempt-Keeps :
        (invoice : Invoice) (method : Option PaymentMethod) (decline : Option DeclineEvent) (n : ℕ)
        → Keeps P (plan_attempt h invoice method decline n)
    unfolding plan_attempt
    plan_attempt-Keeps invoice method decline n =
        Keeps-bind _ _ (features_for-Keeps invoice method decline n none) (λ f.
          Keeps-bind _ _ (ask_policy-Keeps f _ none)
            (λ d. Keeps-bind _ _ (note-Keeps _ _ _ refl) (λ u. Keeps-pure d)))

    pub plan_sequence-Keeps :
        (invoice : Invoice) (m : PaymentMethod) (decline : Option DeclineEvent) (n : ℕ)
        → Keeps P (plan_sequence h invoice m decline n)
    unfolding plan_sequence
    plan_sequence-Keeps invoice m decline n =
        Keeps-bind _ _ (features_for-Keeps invoice (some m) decline n none) (λ f.
          Keeps-bind _ _ read_clock-Triple
            (λ now. Keeps-bind _ _ (note-Keeps _ _ _ refl) (λ u. Keeps-pure _)))

    pub hour_or_now-Keeps : (hour : Option ℕ) → Keeps P (hour_or_now h hour)
    hour_or_now-Keeps none = Keeps-bind _ _ read_clock-Triple (λ now. Keeps-pure _)
    hour_or_now-Keeps (some hour) = Keeps-pure hour

    pub learn_online-Triple :
        {E : CaseState h → Type 0} (f : Features h) (d : RecoveryDecision)
        (outcome : Option ChargeOutcome) (amount : ℕ)
        → Triple P (modify (learn_online h f d outcome amount)) (λ u. P) E
    learn_online-Triple f d none amount = Triple-modify _ (λ s q. q)
    learn_online-Triple f d (some succeeded) amount = Triple-modify _ (λ s q. calm.policy s _ q)
    learn_online-Triple f d (some failed) amount = Triple-modify _ (λ s q. calm.policy s _ q)
    learn_online-Triple f d (some pending) amount = Triple-modify _ (λ s q. q)
