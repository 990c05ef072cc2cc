-- ===== src/BillingRun/Observations/Net.antt =====
-- The outcome of an observation is the net of its invoice's settlements (apps/api/src/billing/
-- observations.ts).
use ax10m.Common.{
  ◌&&◌, ◌≡◌, refl, ap, ◌∙◌, inl, inr, Bool, false, String, Option, none, some, List, [], ◌∷◌,
  if◌then◌else◌, or_else, arith, Bool-cases,
}
use ax10m.Common.Int.{ℤ, pos}
use ax10m.Common.Dict.{Dict, str_eq, lookup, lookup-insert}
use text.Mathlib.TextEquality.{eq_iff}
use ax10m.BillingRun.{BillingLedgerEntry, num, str, is_mine}
use ax10m.BillingRun.Observations.{settle, net_for, net_step, net_from}

-- Whether an entry of the merchant settles this invoice.
abbrev pub names : Option String → String → Bool
names none invoice = false
names (some i) invoice = str_eq i invoice

-- What the entries settle on an invoice: recovered less reversed, and what was given back.
abbrev pub net_amount : String → String → ℤ → List BillingLedgerEntry → ℤ
net_amount merchant invoice net [] = net
net_amount merchant invoice net (e ∷ es) =
    net_amount merchant invoice
      (if is_mine merchant e && names (str (lookup "invoiceId" e.detail)) invoice
        then settle e.type net (num (lookup "amount" e.detail))
        else net)
      es

abbrev net_at : String → Dict ℤ → ℤ
net_at k m = or_else (lookup k m) (pos 0)

net_for-at :
    (e : BillingLedgerEntry) (i : Option String) (k : String) (m : Dict ℤ)
    → net_at k (net_for e i m) ≡ (
        if names i k
        then settle e.type (net_at k m) (num (lookup "amount" e.detail))
        else net_at k m)
net_for-at e none k m = refl
net_for-at e (some i) k m = ground (
  arith,
  lookup-insert i k (settle e.type (net_at i m) (num (lookup "amount" e.detail))) m,
  eq_iff i k,
)

net_step-at :
    (merchant : String) (e : BillingLedgerEntry) (k : String) (m : Dict ℤ)
    → net_at k (net_step merchant m e) ≡ (
        if is_mine merchant e && names (str (lookup "invoiceId" e.detail)) k
        then settle e.type (net_at k m) (num (lookup "amount" e.detail))
        else net_at k m)
net_step-at merchant e k m = elim (Bool-cases (is_mine merchant e)) [
  | inl h ↦ rw h (net_for-at e (str (lookup "invoiceId" e.detail)) k m)
  | inr h ↦ rw h refl
]

-- The net amount under an invoice is what the merchant's own entries settle on it.
pub net_from-at :
    (merchant k : String) (m : Dict ℤ) (es : List BillingLedgerEntry)
    → or_else (lookup k (net_from merchant m es)) (pos 0)
      ≡ net_amount merchant k (or_else (lookup k m) (pos 0)) es
unfolding net_from
net_from-at merchant k m [] = refl
net_from-at merchant k m (e ∷ es) =
    net_from-at merchant k (net_step merchant m e) es
    ∙ ap (λ n. net_amount merchant k n es) (net_step-at merchant e k m)
