-- ===== src/RecoveryCase/Books.antt =====
-- The books of the recovery case service (recovery-case.service.ts): what its ledger, its counters of
-- attempts and its set of opened invoices say of one another.
use ax10m.Common.{
  ℕ, ◌+◌, ◌≤◌, ◌<◌, ◌≡◌, ◌∙◌, Bool, true, false, String, List, [], ◌∷◌, ◌++◌, if◌then◌else◌, arith,
  Bool-cases, inl, inr, count_if, count_if-snoc, All,
}
use ax10m.Common.Dict.{Dict, str_eq, lookup, insert}
use ax10m.Ledger.{
  LedgerEventType, holdout_assigned, case_recovered, charge_succeeded, charge_failed,
}
use ax10m.BillingRun.{BillingLedgerEntry}
use ax10m.Reversals.{is_text}
use ax10m.RecoveryCase.{CredentialRecord, Host, CaseState}
use ax10m.RecoveryCase.Credentials.{attempts_on, increment}
use ax10m.RecoveryCase.Intake.{has}
use ax10m.RecoveryCase.Keeps.{Calm, is_quiet}

abbrev pub is_report : LedgerEventType → Bool
is_report charge_succeeded = true
is_report charge_failed = true
is_report _ = false

abbrev pub is_success : LedgerEventType → Bool
is_success charge_succeeded = true
is_success _ = false

abbrev pub is_recovery : LedgerEventType → Bool
is_recovery case_recovered = true
is_recovery _ = false

abbrev pub is_opening : LedgerEventType → Bool
is_opening holdout_assigned = true
is_opening _ = false

-- The entry opens the case of the invoice.
abbrev pub opens : String → BillingLedgerEntry → Bool
opens k e = if is_opening e.type then is_text k (lookup "invoiceId" e.detail) else false

-- How many entries of a kind there are.
abbrev pub reports_of : List BillingLedgerEntry → ℕ
reports_of es = count_if (λ e. is_report e.type) es

abbrev pub successes_of : List BillingLedgerEntry → ℕ
successes_of es = count_if (λ e. is_success e.type) es

abbrev pub recoveries_of : List BillingLedgerEntry → ℕ
recoveries_of es = count_if (λ e. is_recovery e.type) es

abbrev pub openings_of : String → List BillingLedgerEntry → ℕ
openings_of k es = count_if (opens k) es

-- The attempts on all credentials together.
abbrev pub all_attempts : Dict CredentialRecord → ℕ
all_attempts [] = 0
all_attempts ((key, e) ∷ m) = e.count + all_attempts m

-- No credential has had more attempts than the widest network allows in a window.
abbrev pub IsCapped : Dict CredentialRecord → Type 0
IsCapped m = All (λ e. e.1.count ≤ 15) m

all_attempts-insert :
    (key : String) (x : CredentialRecord) (m : Dict CredentialRecord)
    → all_attempts (insert key x m) + attempts_on key m ≡ all_attempts m + x.count
all_attempts-insert key x [] = omega arith
all_attempts-insert key x ((j, e) ∷ m) = ground (arith, all_attempts-insert key x m)

insert-IsCapped :
    (key : String) (x : CredentialRecord) (m : Dict CredentialRecord)
    → x.count ≤ 15
    → IsCapped m
    → IsCapped (insert key x m)
insert-IsCapped key x [] h c = (h, tt)
insert-IsCapped key x ((j, e) ∷ m) h c = elim (Bool-cases (str_eq j key)) [
  | inl q ↦ rw q (h, c.1)
  | inr q ↦ rw q (c.0, insert-IsCapped key x m h c.1)
]

-- Each attempt on a credential is reported, but for `due` of them, and each reported success is
-- claimed as a recovery, but for `owed` of them; every credential is within the cap; and a case was
-- opened once for each invoice that is marked as opened, and for no other.
pub record Agree (due owed : ℕ) (ledger : List BillingLedgerEntry)
    (credentials : Dict CredentialRecord) (marked : List String) : Type 0 where
  pub reported : all_attempts credentials ≡ reports_of ledger + due
  pub claimed : recoveries_of ledger + owed ≡ successes_of ledger
  pub capped : IsCapped credentials
  pub opened : (k : String) → openings_of k ledger ≡ (if has k marked then 1 else 0)

-- What an entry does to the books.
pub entered :
    (due owed due' owed' : ℕ) {es : List BillingLedgerEntry} {m : Dict CredentialRecord}
    {marked : List String} (e : BillingLedgerEntry)
    → due ≡ due' + (if is_report e.type then 1 else 0)
    → owed + (if is_success e.type then 1 else 0) ≡ owed' + (if is_recovery e.type then 1 else 0)
    → is_opening e.type ≡ false
    → Agree due owed es m marked
    → Agree due' owed' (es ++ e ∷ []) m marked
entered due owed due' owed' {es} e d o n b = record {
  reported =
      omega
        (arith, b.reported, d, count_if-snoc (λ (x : BillingLedgerEntry). is_report x.type) es e);
  claimed = omega (
    arith,
    b.claimed,
    o,
    count_if-snoc (λ (x : BillingLedgerEntry). is_recovery x.type) es e,
    count_if-snoc (λ (x : BillingLedgerEntry). is_success x.type) es e,
  );
  capped = b.capped;
  opened = λ k. count_if-snoc (opens k) es e ∙ rw n (omega (arith, b.opened k));
}

-- The events that the books do not count.
abbrev pub is_uncounted : LedgerEventType → Bool
is_uncounted charge_succeeded = false
is_uncounted charge_failed = false
is_uncounted case_recovered = false
is_uncounted holdout_assigned = false
is_uncounted _ = true

pub entered_uncounted :
    (due owed : ℕ) {es : List BillingLedgerEntry} {m : Dict CredentialRecord} {marked : List String}
    (e : BillingLedgerEntry)
    → is_uncounted e.type ≡ true
    → Agree due owed es m marked
    → Agree due owed (es ++ e ∷ []) m marked
entered_uncounted due owed e q b =
    entered due owed due owed e (ground arith) (ground arith) (ground arith) b

quiet-uncounted : (t : LedgerEventType) → is_quiet t ≡ true → is_uncounted t ≡ true
quiet-uncounted t q = ground arith

-- A counted attempt is due for its report.
pub counted :
    (key : String) (at : ℕ) {es : List BillingLedgerEntry} {m : Dict CredentialRecord}
    {marked : List String}
    → attempts_on key m < 15
    → Agree 0 0 es m marked
    → Agree 1 0 es (increment key at m) marked
counted key at {m} low b = record {
  reported = omega (
    arith,
    b.reported,
    all_attempts-insert key (record { count = attempts_on key m + 1; last_at = at }) m,
  );
  claimed = b.claimed;
  capped = insert-IsCapped key _ m (omega arith) b.capped;
  opened = b.opened;
}

module _ (h : Host) where
  abbrev pub Books : ℕ → ℕ → CaseState h → Type 0
  Books due owed s = Agree due owed s.ledger s.credential_attempts s.opened_invoices

  pub Books-Calm : (due owed : ℕ) → Calm h (Books due owed)
  Books-Calm due owed = record {
    clock = λ s c b. b;
    policy = λ s p b. b;
    notes = λ s e q b. entered_uncounted due owed e (quiet-uncounted e.type q) b;
  }
