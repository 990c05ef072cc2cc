-- ===== src/RecoveryCase/Charged.antt =====
-- What the processor was charged with, beside what the service counts of it (recovery-case.service.ts,
-- `attemptRecovery`, and credential-attempt-store.ts).
use text.Mathlib.TextEquality.{eq_iff}
use ax10m.Common.{
  ◌≤◌, Bool-cases, inl, inr, ap, subst, sym, ◌∙◌, ℕ, ◌+◌, ◌≡◌, String, List, [], ◌∷◌, if◌then◌else◌,
  arith, count_if,
}
use ax10m.Common.Dict.{Dict, str_eq, lookup-insert}
use ax10m.Common.Action.{Result, ok, thrown, Triple-given, Keeps, Keeps-end}
use ax10m.RecoveryCase.{
  Invoice, PaymentMethod, ChargeResult, CredentialRecord, Host, CaseState, credential_key,
}
use ax10m.RecoveryCase.Credentials.{attempts_on, count_of, increment}
use ax10m.RecoveryCase.Attempt.{attempt_recovery}
use ax10m.RecoveryCase.Fresh.{ExecuteInput}
use ax10m.RecoveryCase.Execute.{execute_recovery}
use ax10m.RecoveryCase.Keeps.{Calm, plan_attempt-Keeps}
use ax10m.RecoveryCase.Messages.{Stable}
use ax10m.RecoveryCase.Active.{Attempts, execute_recovery-Triple}
use ax10m.RecoveryCase.Arrivals.{Arrives, ingest-Keeps}
use ax10m.RecoveryCase.Books.{Books, IsCapped}
use ax10m.RecoveryCase.Reached.{IsNew, Leads-Books}
use ax10m.RecoveryCase.Settle.{Steps, dispose-Triple}
use ax10m.RecoveryCase.Calls.{Leads, none_yet, ingested, planned, executed}

-- The credential of a charge that the processor answered.
abbrev pub answered_on : Result ChargeResult → String → List String → List String
answered_on (ok r) key log = key ∷ log
answered_on thrown key log = log

-- The host, with the credentials of the charges that its processor was called with and answered.
abbrev pub watched : Host → Host
watched h = record h {
  Processor = h.Processor × List String;
  attempt_charge = λ invoice m key p.
      let (r, x) = h.attempt_charge invoice m key p.0 in
      (r, (x, answered_on r (credential_key invoice.id m) p.1));
  fetch_updated_card = λ m p. let (r, x) = h.fetch_updated_card m p.0 in (r, (x, p.1));
  list_payment_methods = λ c p. let (r, x) = h.list_payment_methods c p.0 in (r, (x, p.1));
}

-- How many charges of a credential the processor has answered.
abbrev pub charges_on : String → List String → ℕ
charges_on key log = count_if (λ k. str_eq k key) log

attempts_on-increment :
    (key k : String) (at : ℕ) (m : Dict CredentialRecord)
    → attempts_on k (increment key at m) ≡ (if str_eq key k then 1 else 0) + attempts_on k m
attempts_on-increment key k at m =
    let e : CredentialRecord = record { count = attempts_on key m + 1; last_at = at } in
    ap count_of (lookup-insert key k e m) ∙ elim (Bool-cases (str_eq key k)) [
      | inl q ↦ rw q (
          subst (λ (x : String). attempts_on key m + 1 ≡ 1 + attempts_on x m) ((eq_iff key k).0 q)
            (omega arith))
      | inr q ↦ rw q (omega arith)
    ]

attempts_on-capped : (k : String) (m : Dict CredentialRecord) → IsCapped m → attempts_on k m ≤ 15
attempts_on-capped k [] c = omega arith
attempts_on-capped k ((j, e) ∷ m) c = elim (Bool-cases (str_eq j k)) [
  | inl q ↦ rw q c.0
  | inr q ↦ rw q (attempts_on-capped k m c.1)
]

module _ (h : Host) where
  -- The processor has answered as many charges of each credential as the service counts attempts on it.
  abbrev pub Accounted : CaseState (watched h) → Type 0
  Accounted s = (k : String) → charges_on k s.processor.1 ≡ attempts_on k s.credential_attempts

  -- The charge of a credential has been answered and is not counted yet.
  abbrev Uncounted : String → CaseState (watched h) → Type 0
  Uncounted key s =
      (k : String)
      → charges_on k s.processor.1
        ≡ (if str_eq key k then 1 else 0) + attempts_on k s.credential_attempts

  Accounted-Calm : Calm (watched h) Accounted
  Accounted-Calm = record { clock = λ s c q. q; policy = λ s p q. q; notes = λ s e t q. q }

  Uncounted-Calm : (key : String) → Calm (watched h) (Uncounted key)
  Uncounted-Calm key = record { clock = λ s c q. q; policy = λ s p q. q; notes = λ s e t q. q }

  Accounted-Stable : Stable (watched h) Accounted
  Accounted-Stable = record {
    calm = Accounted-Calm;
    fetches = λ s m q. q;
    lists = λ s c q. q;
    mail = λ s x q. q;
    keys = λ s x q. q;
  }

  Accounted-Arrives : Arrives (watched h) Accounted
  Accounted-Arrives = record {
    calm = Accounted-Calm;
    features = λ s x q. q;
    merchants = λ s x q. q;
    dispatched = λ s x q. q;
    opens = λ invoice a at s e q. q;
    reverses = λ s p merchant at q. q;
    reinstates = λ s p merchant at q. q;
  }

  module _ (invoice : Invoice) (m : PaymentMethod) (n : ℕ) where
    abbrev this : String
    this = credential_key invoice.id m

    -- What the call leaves in the log, given what was answered.
    answers-log :
        (s : CaseState (watched h)) (key : String) (r : Result ChargeResult)
        (x : h.Processor × List String)
        → (watched h).attempt_charge invoice m key s.processor ≡ (r, x)
        → x.1 ≡ answered_on r this s.processor.1
    answers-log s key r x e =
        sym (ap (λ (y : Result ChargeResult × (h.Processor × List String)). y.1.1) e)
        ∙ ap
            (λ (y : Result ChargeResult × (h.Processor × List String)).
              answered_on y.0 this s.processor.1)
            e

    Accounted-Steps :
        Steps
          (watched h)
          invoice
          m
          n
          Accounted
          (Uncounted this)
          Accounted
          Accounted
          (λ won. Accounted)
    Accounted-Steps = record {
      before_calm = Accounted-Calm;
      called_calm = Uncounted-Calm this;
      counted_calm = Accounted-Calm;
      reported_calm = Accounted-Calm;
      after_calm = λ won. Accounted-Calm;
      answers = λ s key r x e q k.
          ap (charges_on k) (answers-log s key (ok r) x e)
          ∙ ap (λ (c : ℕ). (if str_eq this k then 1 else 0) + c) (q k);
      rejects = λ s key x e q k. ap (charges_on k) (answers-log s key thrown x e) ∙ q k;
      raises = λ s q. q;
      learns = λ won s x q. q;
      counts = λ s at q k. q k ∙ sym (attempts_on-increment this k at s.credential_attempts);
      reports = λ s e t q. q;
      declines = λ s e t q. q;
      recovers = λ s at q. q;
      idle = λ s q. q;
    }

  Attempts-Accounted : (p : ExecuteInput) → Attempts (watched h) Accounted (λ won. Accounted) p
  unfolding attempt_recovery
  Attempts-Accounted p kind code m w minutes hour shadow c =
      Triple-given (λ s q. q.0)
        (dispose-Triple (watched h) p.invoice m p.attempt_number
          (Accounted-Steps p.invoice m p.attempt_number) Accounted (λ s q. q) _ p.now_iso shadow)

  execute-Accounted : (p : ExecuteInput) → Keeps Accounted (execute_recovery (watched h) p)
  execute-Accounted p =
      execute_recovery-Triple (watched h) p Accounted (λ won. Accounted) Accounted-Stable
        (Attempts-Accounted p) (λ s q. q) (λ s q. q) (λ won. Accounted-Calm)

  pub Leads-Accounted :
      {s t : CaseState (watched h)} → Accounted s → Leads (watched h) s t → Accounted t
  Leads-Accounted r none_yet = r
  Leads-Accounted r (ingested es l) =
      Keeps-end _ (ingest-Keeps (watched h) Accounted-Arrives es) _ (Leads-Accounted r l)
  Leads-Accounted r (planned invoice m d n l) =
      Keeps-end _ (plan_attempt-Keeps (watched h) Accounted-Calm invoice m d n) _
        (Leads-Accounted r l)
  Leads-Accounted r (executed p l) = Keeps-end _ (execute-Accounted p) _ (Leads-Accounted r l)

  -- However webhooks, plans and executions are mixed in a service that starts with an empty ledger,
  -- whatever the processor, the policy and the sender do, and wherever a call throws: the processor has
  -- answered as many charges of each credential of an invoice as the service counts attempts on it, and
  -- at most 15 (a call that throws is not counted, and not among them); the ledger reports as many
  -- charges as the credentials count attempts, and claims as many recoveries as it reports successes;
  -- and the case of an invoice is opened in the ledger once if the invoice is marked as opened, and not
  -- at all otherwise.
  pub Leads-Charged :
      {s t : CaseState (watched h)}
      → IsNew (watched h) s
      → s.processor.1 ≡ []
      → Leads (watched h) s t
      → ((k : String)
          → (charges_on k t.processor.1 ≡ attempts_on k t.credential_attempts)
            × (charges_on k t.processor.1 ≤ 15))
        × Books (watched h) 0 0 t
  Leads-Charged {s} {t} n e l =
      let b = Leads-Books (watched h) n l in
      let a =
        Leads-Accounted
          (λ k.
            ap (charges_on k) e
            ∙ sym (ap (λ (m : Dict CredentialRecord). attempts_on k m) n.no_attempt))
          l in
      (λ k. (a k, omega (arith, a k, attempts_on-capped k t.credential_attempts b.capped)), b)
