-- ===== src/RecoveryCase/Recovered.antt =====
-- What an execution claims as recovered (recovery-case.service.ts, `executeRecovery`), measured by
-- `netRecoveredForInvoice`.
use ax10m.Common.{
  ℕ, ◌≡◌, refl, sym, ap, ◌∙◌, Bool, true, false, String, List, [], ◌∷◌, ◌++◌, if◌then◌else◌, arith,
  Bool-cases, inl, inr,
}
use ax10m.Common.Int.{ℤ, pos, ◌+ℤ◌, int_laws}
use ax10m.Common.Dict.{str_eq, lookup}
use ax10m.Common.Action.{Triple, Triple-given, Ends}
use ax10m.Ledger.{LedgerEventType, case_recovered, case_reversed}
use ax10m.BillingRun.{BillingLedgerEntry, num}
use ax10m.Reversals.{recover_by, net_recovered_for_invoice, is_text}
use ax10m.Reversals.Balance.{sum_from-snoc}
use ax10m.RecoveryEngine.FeatureStore.{Instant}
use ax10m.RecoveryCase.{Invoice, PaymentMethod, Host, CaseState, with_entry, entry_of}
use ax10m.RecoveryCase.Attempt.{attempt_recovery, recovered_detail}
use ax10m.RecoveryCase.Fresh.{ExecuteInput, has_succeeded}
use ax10m.RecoveryCase.Execute.{execute_recovery}
use ax10m.RecoveryCase.Keeps.{Calm, is_quiet}
use ax10m.RecoveryCase.Messages.{Stable}
use ax10m.RecoveryCase.Settle.{Steps, dispose-Triple}
use ax10m.RecoveryCase.Active.{Attempts, execute_recovery-Triple}

-- What a won charge of the invoice adds to what is recovered of the invoice `k`.
abbrev pub gain : Invoice → Bool → String → ℤ
gain invoice won k =
    if won then (if str_eq invoice.id k then pos invoice.amount else pos 0) else pos 0

pub add_zero : (a : ℤ) → a +ℤ pos 0 ≡ a
add_zero a = grind int_laws

-- An event other than a recovery or a reversal adds nothing.
abbrev moves_net : LedgerEventType → Bool
moves_net case_recovered = true
moves_net case_reversed = true
moves_net _ = false

unmoved :
    (t : LedgerEventType) (net amount : ℤ) → moves_net t ≡ false → recover_by t net amount ≡ net
unmoved t net amount e = ground arith

net-unmoved :
    (k : String) (es : List BillingLedgerEntry) (e : BillingLedgerEntry)
    → moves_net e.type ≡ false
    → net_recovered_for_invoice k (es ++ e ∷ []) ≡ net_recovered_for_invoice k es
net-unmoved k es e q =
    sum_from-snoc recover_by k (pos 0) es e
    ∙ elim (Bool-cases (is_text k (lookup "invoiceId" e.detail))) [
      | inl t ↦
          rw t (unmoved e.type (net_recovered_for_invoice k es) (num (lookup "amount" e.detail)) q)
      | inr f ↦ rw f refl
    ]

quiet-unmoved : (t : LedgerEventType) → is_quiet t ≡ true → moves_net t ≡ false
quiet-unmoved t q = ground arith

module _ (h : Host) where
  -- The recovered amounts are those of `net`.
  abbrev pub Nets : (String → ℤ) → CaseState h → Type 0
  Nets net s = (k : String) → net_recovered_for_invoice k s.ledger ≡ net k

  pub Nets-Calm : (net : String → ℤ) → Calm h (Nets net)
  Nets-Calm net = record {
    clock = λ s c q. q;
    policy = λ s p q. q;
    notes = λ s e quiet q k. net-unmoved k s.ledger e (quiet-unmoved e.type quiet) ∙ q k;
  }

  Nets-Stable : (net : String → ℤ) → Stable h (Nets net)
  Nets-Stable net = record {
    calm = Nets-Calm net;
    fetches = λ s m q. q;
    lists = λ s c q. q;
    mail = λ s x q. q;
    keys = λ s x q. q;
  }

  module _ (invoice : Invoice) (m : PaymentMethod) (n : ℕ) (net : String → ℤ) where
    -- The amounts after an attempt that won or did not.
    abbrev pub with_gain : Bool → String → ℤ
    with_gain won k = net k +ℤ gain invoice won k

    recovered-Nets :
        (s : CaseState h) (at : Instant)
        → Nets net s
        → Nets (with_gain true) (
            with_entry h
              (entry_of h invoice.merchant_id case_recovered at (recovered_detail h invoice n))
              s)
    recovered-Nets s at q k =
        sum_from-snoc recover_by k (pos 0) s.ledger
          (entry_of h invoice.merchant_id case_recovered at (recovered_detail h invoice n))
        ∙ elim (Bool-cases (str_eq invoice.id k)) [
          | inl e ↦ rw e (ap (λ (x : ℤ). x +ℤ pos invoice.amount) (q k))
          | inr e ↦ rw e (q k ∙ sym (add_zero (net k)))
        ]

    charge-Steps :
        Steps h invoice m n
          (Nets net)
          (Nets net)
          (Nets net)
          (Nets net)
          (λ won. Nets (with_gain won))
    charge-Steps = record {
      before_calm = Nets-Calm net;
      counted_calm = Nets-Calm net;
      reported_calm = Nets-Calm net;
      after_calm = λ won. Nets-Calm (with_gain won);
      called_calm = Nets-Calm net;
      answers = λ s key r x e q. q;
      rejects = λ s key x e q. q;
      raises = λ s q. q;
      learns = λ won s x q. q;
      counts = λ s at q. q;
      reports = λ s e t q k. net-unmoved k s.ledger e (ground (arith, t)) ∙ q k;
      declines =
          λ s e t q k. net-unmoved k s.ledger e (ground (arith, t)) ∙ q k ∙ sym (add_zero (net k));
      recovers = λ s at q. recovered-Nets s at q;
      idle = λ s q k. q k ∙ sym (add_zero (net k));
    }

  module _ (p : ExecuteInput) (net : String → ℤ) where
    Attempts-Nets :
        Attempts h
          (Nets net)
          (λ won. Nets (with_gain p.invoice p.method p.attempt_number net won))
          p
    unfolding attempt_recovery
    Attempts-Nets kind code m w minutes hour shadow c =
        Triple-given (λ s q. q.0)
          (dispose-Triple h p.invoice m p.attempt_number
            (charge-Steps p.invoice m p.attempt_number net) (Nets net) (λ s q. q) _ p.now_iso
            shadow)

  -- The same for any amounts to begin with.
  pub execute_recovery-Nets :
      (p : ExecuteInput) (net : String → ℤ)
      → Triple
          (Nets net)
          (execute_recovery h p)
          (λ o. Nets (λ k. net k +ℤ gain p.invoice (has_succeeded o.outcome) k))
          (Nets net)
  execute_recovery-Nets p net =
      execute_recovery-Triple h p (Nets net)
        (λ won. Nets (with_gain p.invoice p.method p.attempt_number net won)) (Nets-Stable net)
        (Attempts-Nets p net) (λ t q k. q k ∙ add_zero (net k))
        (λ t q k. q k ∙ sym (add_zero (net k)))
        (λ won. Nets-Calm (with_gain p.invoice p.method p.attempt_number net won))

  -- An execution raises what is recovered of its invoice by the invoice's amount if it reports a charge
  -- that succeeded, and leaves every recovered amount as it was if it reports anything else, or throws.
  pub execute_recovery-recovers :
      (p : ExecuteInput) (s : CaseState h)
      → let end = execute_recovery h p s in
        Ends
          (λ o t.
            (k : String)
            → net_recovered_for_invoice k t.ledger
              ≡ net_recovered_for_invoice k s.ledger +ℤ gain p.invoice (has_succeeded o.outcome) k)
          (λ t.
            (k : String)
            → net_recovered_for_invoice k t.ledger ≡ net_recovered_for_invoice k s.ledger)
          end.0
          end.1
  execute_recovery-recovers p s =
      (execute_recovery-Nets p (λ k. net_recovered_for_invoice k s.ledger)).run s (λ k. refl)
