-- ===== src/Reversals/Balance.antt =====
-- Nothing is taken back or given back that is not there (apps/api/src/recovery/
-- recovery-case.service.ts, `recordReversal` and `recordReversalReverted`).
use ax10m.Common.{
  ℕ, ◌≡◌, ◌≢◌, refl, inl, inr, String, Option, none, some, List, [], ◌∷◌, ◌++◌, arith, Bool-cases,
  sym, ap, ◌∙◌, subst, Bool, true, false, if◌then◌else◌,
}
use ax10m.Common.Int.{ℤ, pos, ◌+ℤ◌, ◌-ℤ◌, ◌≤ℤ◌, leb_ℤ, int_laws}
use ax10m.Common.Dict.{str_eq, lookup}
use text.Mathlib.TextEquality.{eq_iff}
use ax10m.Ledger.{LedgerEventType, case_reversed, case_reversal_reverted}
use ax10m.BillingRun.{BillingLedgerEntry, num}
use ax10m.Reversals.{
  ReversalPayload, recover_by, reverse_by, sum_step, sum_from, net_recovered_for_invoice,
  net_reversed_for_invoice, lesser, record_reversal, record_reversal_reverted, is_text,
  settlement_entry, record_capped,
}

pub sum_from-snoc :
    (by : LedgerEventType → ℤ → ℤ → ℤ) (invoice : String) (net : ℤ) (es : List BillingLedgerEntry)
    (e : BillingLedgerEntry)
    → sum_from by invoice net (es ++ e ∷ []) ≡ sum_step by invoice (sum_from by invoice net es) e
unfolding sum_from
sum_from-snoc by invoice net [] e = refl
sum_from-snoc by invoice net (x ∷ es) e = sum_from-snoc by invoice (sum_step by invoice net x) es e

-- No invoice has more reversed than recovered, or more given back than reversed.
abbrev pub Balanced : List BillingLedgerEntry → Type 0
Balanced es =
    (invoice : String)
    → (pos 0 ≤ℤ net_recovered_for_invoice invoice es)
      × (pos 0 ≤ℤ net_reversed_for_invoice invoice es)

-- An event that is neither a reversal nor a reinstatement, with an amount that is not negative.
abbrev pub IsPlain : BillingLedgerEntry → Type 0
IsPlain e =
    (e.type ≢ case_reversed)
    × (e.type ≢ case_reversal_reverted)
    × (pos 0 ≤ℤ num (lookup "amount" e.detail))

-- A ledger that the service writes: other events come as they come, reversals and reinstatements
-- by the two operations.
pub data Written : List BillingLedgerEntry → Type 0 where
  empty : Written []
  plain :
      {es : List BillingLedgerEntry} (e : BillingLedgerEntry)
      → IsPlain e
      → Written es
      → Written (es ++ e ∷ [])
  reverses :
      {es : List BillingLedgerEntry} (p : ReversalPayload) (merchant : String) (at : Option ℕ)
      (processor : Option String)
      → pos 0 ≤ℤ p.amount
      → Written es
      → Written (record_reversal es p merchant at processor)
  reinstates :
      {es : List BillingLedgerEntry} (p : ReversalPayload) (merchant : String) (at : Option ℕ)
      (processor : Option String)
      → pos 0 ≤ℤ p.amount
      → Written es
      → Written (record_reversal_reverted es p merchant at processor)

plus : (a b : ℤ) → pos 0 ≤ℤ a → pos 0 ≤ℤ b → pos 0 ≤ℤ a +ℤ b
plus a b h k = grind int_laws

minus_lesser : (a b : ℤ) → pos 0 ≤ℤ b → pos 0 ≤ℤ b -ℤ lesser a b
minus_lesser a b h = elim (Bool-cases (leb_ℤ a b)) [
  | inl e ↦ rw e (grind int_laws)
  | inr e ↦ rw e (grind int_laws)
]

lesser_pos : (a b : ℤ) → pos 0 ≤ℤ a → pos 0 ≤ℤ b → pos 0 ≤ℤ lesser a b
lesser_pos a b h k = ground arith

-- A plain event keeps both sums from falling below 0.
plain_recover :
    (t : LedgerEventType) (n a : ℤ)
    → t ≢ case_reversed
    → pos 0 ≤ℤ n
    → pos 0 ≤ℤ a
    → pos 0 ≤ℤ recover_by t n a
plain_recover t n a q h k = ground (arith, plus n a h k)

plain_reverse :
    (t : LedgerEventType) (n a : ℤ)
    → t ≢ case_reversed
    → t ≢ case_reversal_reverted
    → pos 0 ≤ℤ n
    → pos 0 ≤ℤ reverse_by t n a
plain_reverse t n a q r h = ground arith

same_if : (b : Bool) (x : ℤ) → (if b then x else x) ≡ x
same_if true x = refl
same_if false x = refl

plain-Balanced :
    (es : List BillingLedgerEntry) (e : BillingLedgerEntry)
    → IsPlain e
    → Balanced es
    → Balanced (es ++ e ∷ [])
plain-Balanced es e q b k =
    let amount = num (lookup "amount" e.detail) in
    (
      subst (λ n. pos 0 ≤ℤ n) (sym (sum_from-snoc recover_by k (pos 0) es e))
          (elim (Bool-cases (is_text k (lookup "invoiceId" e.detail))) [
            | inl h ↦
                rw h (plain_recover e.type (net_recovered_for_invoice k es) amount q.0 (b k).0 q.2)
            | inr h ↦ rw h (b k).0
          ]),
      subst (λ n. pos 0 ≤ℤ n) (sym (sum_from-snoc reverse_by k (pos 0) es e))
          (elim (Bool-cases (is_text k (lookup "invoiceId" e.detail))) [
            | inl h ↦
                rw h (plain_reverse e.type (net_reversed_for_invoice k es) amount q.0 q.1 (b k).1)
            | inr h ↦ rw h (b k).1
          ]),
    )

-- What a settlement adds to the sum of its own invoice, and to no other.
step-settlement :
    (by : LedgerEventType → ℤ → ℤ → ℤ) (k : String) (n : ℤ) (type : LedgerEventType)
    (p : ReversalPayload) (amount : ℤ) (merchant : String) (at : Option ℕ)
    (processor : Option String)
    → sum_step by k n (settlement_entry type p amount merchant at processor)
      ≡ (if str_eq p.invoice_id k then by type n amount else n)
step-settlement by k n type p amount merchant at none = refl
step-settlement by k n type p amount merchant at (some s) = refl

module _ (es : List BillingLedgerEntry) (p : ReversalPayload) (merchant : String) (at : Option ℕ)
    (processor : Option String) where
  -- What a capped entry does to either sum of an invoice.
  capped :
      (by : LedgerEventType → ℤ → ℤ → ℤ) (type : LedgerEventType) (held : ℤ) (k : String)
      → leb_ℤ held (pos 0) ≡ false
      → sum_from by k (pos 0) (record_capped type held es p merchant at processor) ≡ (
          if str_eq p.invoice_id k
          then by type (sum_from by k (pos 0) es) (lesser p.amount held)
          else sum_from by k (pos 0) es)
  capped by type held k h = rw h (
      sum_from-snoc by k (pos 0) es
        (settlement_entry type p (lesser p.amount held) merchant at processor)
      ∙ step-settlement by k (sum_from by k (pos 0) es) type p (lesser p.amount held) merchant at
          processor)

  -- Both sums stay at or above 0 under an entry whose effect on its own invoice does.
  capped-Balanced :
      (type : LedgerEventType) (held : ℤ)
      → Balanced es
      → pos 0 ≤ℤ recover_by type (net_recovered_for_invoice p.invoice_id es) (lesser p.amount held)
      → pos 0 ≤ℤ reverse_by type (net_reversed_for_invoice p.invoice_id es) (lesser p.amount held)
      → leb_ℤ held (pos 0) ≡ false
      → Balanced (record_capped type held es p merchant at processor)
  capped-Balanced type held b x y h k = elim (Bool-cases (str_eq p.invoice_id k)) [
    | inl e ↦
        let same = (eq_iff p.invoice_id k).0 e in
        (
          subst (λ n. pos 0 ≤ℤ n) (sym (capped recover_by type held k h))
              (rw e (
                subst
                  (λ j.
                    pos 0
                    ≤ℤ recover_by type (net_recovered_for_invoice j es) (lesser p.amount held))
                  same x)),
          subst (λ n. pos 0 ≤ℤ n) (sym (capped reverse_by type held k h))
              (rw e (
                subst
                  (λ j.
                    pos 0 ≤ℤ reverse_by type (net_reversed_for_invoice j es) (lesser p.amount held))
                  same y)),
        )
    | inr e ↦ (
      subst (λ n. pos 0 ≤ℤ n) (sym (capped recover_by type held k h)) (rw e (b k).0),
      subst (λ n. pos 0 ≤ℤ n) (sym (capped reverse_by type held k h)) (rw e (b k).1),
    )
  ]

  idle :
      (type : LedgerEventType) (held : ℤ)
      → leb_ℤ held (pos 0) ≡ true
      → record_capped type held es p merchant at processor ≡ es
  idle type held h = rw h refl

  record_reversal-Balanced :
      pos 0 ≤ℤ p.amount → Balanced es → Balanced (record_reversal es p merchant at processor)
  unfolding record_reversal
  record_reversal-Balanced a b =
      let held = net_recovered_for_invoice p.invoice_id es in
      elim (Bool-cases (leb_ℤ held (pos 0))) [
        | inl h ↦ subst Balanced (sym (idle case_reversed held h)) b
        | inr h ↦
            capped-Balanced case_reversed held b (minus_lesser p.amount held (b p.invoice_id).0)
              (plus (net_reversed_for_invoice p.invoice_id es) (lesser p.amount held)
                (b p.invoice_id).1 (lesser_pos p.amount held a (b p.invoice_id).0))
              h
      ]

  record_reversal_reverted-Balanced :
      Balanced es → Balanced (record_reversal_reverted es p merchant at processor)
  unfolding record_reversal_reverted
  record_reversal_reverted-Balanced b =
      let held = net_reversed_for_invoice p.invoice_id es in
      elim (Bool-cases (leb_ℤ held (pos 0))) [
        | inl h ↦ subst Balanced (sym (idle case_reversal_reverted held h)) b
        | inr h ↦
            capped-Balanced case_reversal_reverted held b (b p.invoice_id).0
              (minus_lesser p.amount held (b p.invoice_id).1) h
      ]

  -- A reinstatement leaves the net recovered amount of every invoice as it was, so that it raises no
  -- later reversal's cap.
  pub record_reversal_reverted-cap :
      (k : String)
      → net_recovered_for_invoice k (record_reversal_reverted es p merchant at processor)
        ≡ net_recovered_for_invoice k es
  unfolding record_reversal_reverted
  record_reversal_reverted-cap k =
      let held = net_reversed_for_invoice p.invoice_id es in
      elim (Bool-cases (leb_ℤ held (pos 0))) [
        | inl h ↦ ap (net_recovered_for_invoice k) (idle case_reversal_reverted held h)
        | inr h ↦
            capped recover_by case_reversal_reverted held k h
            ∙ same_if (str_eq p.invoice_id k) (net_recovered_for_invoice k es)
      ]

empty-Balanced : Balanced []
unfolding sum_from
empty-Balanced k = (omega arith, omega arith)

-- However refunds, chargebacks and won disputes of amounts that are not negative are mixed with the
-- other events, no invoice ever has more reversed than recovered, or more given back than reversed.
pub Written-Balanced : {es : List BillingLedgerEntry} → Written es → Balanced es
Written-Balanced empty = empty-Balanced
Written-Balanced (plain {es} e q w) = plain-Balanced es e q (Written-Balanced w)
Written-Balanced (reverses {es} p merchant at processor a w) =
    record_reversal-Balanced es p merchant at processor a (Written-Balanced w)
Written-Balanced (reinstates {es} p merchant at processor a w) =
    record_reversal_reverted-Balanced es p merchant at processor (Written-Balanced w)
