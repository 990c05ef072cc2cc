-- ===== src/Reconciliation/Keys.antt =====
-- Keyed totals: what a fold of `set(key, get(key) + amount)` leaves under each key
-- (packages/attribution/src/reconciliation.ts, `payoutByKey` and `oursByKey`).
use ax10m.Common.{
  ◌≡◌, refl, ap, ◌∙◌, inl, inr, String, Option, none, some, List, [], ◌∷◌, All, or_else, map_option,
  if◌then◌else◌, arith, Bool-cases, subst,
}
use ax10m.Common.Int.{ℤ, pos, ◌+ℤ◌}
use ax10m.Common.Dict.{Dict, str_eq, lookup, insert, lookup-insert}
use text.Mathlib.TextEquality.{eq_iff}
use ax10m.Reconciliation.{
  SettledOutcome, PayoutRow, Claim, payout_by_key, ours_by_key, match_key, add_claim, no_claim,
}

-- What the payout rows of one key come to, if there are any.
abbrev pub payout_total : String → Option ℤ → List PayoutRow → Option ℤ
payout_total k acc [] = acc
payout_total k acc (p ∷ ps) =
    payout_total k (if str_eq p.key k then some (or_else acc (pos 0) +ℤ p.settled_amount) else acc)
      ps

abbrev pub claimed_total : String → Option ℤ → List SettledOutcome → Option ℤ
claimed_total k acc [] = acc
claimed_total k acc (o ∷ os) =
    claimed_total k
      (if str_eq (match_key o) k then some (or_else acc (pos 0) +ℤ o.recovered_amount) else acc) os

payout_step :
    (k : String) (m : Dict ℤ) (p : PayoutRow)
    → lookup k (insert p.key (or_else (lookup p.key m) (pos 0) +ℤ p.settled_amount) m) ≡ (
        if str_eq p.key k
        then some (or_else (lookup k m) (pos 0) +ℤ p.settled_amount)
        else lookup k m)
payout_step k m p = ground (
  arith,
  lookup-insert p.key k (or_else (lookup p.key m) (pos 0) +ℤ p.settled_amount) m,
  eq_iff p.key k,
)

-- The payout's dictionary holds under each key what the rows of that key come to.
pub lookup-payout_by_key :
    (k : String) (m : Dict ℤ) (ps : List PayoutRow)
    → lookup k (payout_by_key m ps) ≡ payout_total k (lookup k m) ps
unfolding payout_by_key
lookup-payout_by_key k m [] = refl
lookup-payout_by_key k m (p ∷ ps) =
    lookup-payout_by_key k (insert p.key (or_else (lookup p.key m) (pos 0) +ℤ p.settled_amount) m)
      ps
    ∙ ap (λ o. payout_total k o ps) (payout_step k m p)

ours_of : Option Claim → Option ℤ
ours_of = map_option (λ a. a.ours)

ours_step :
    (k : String) (m : Dict Claim) (o : SettledOutcome)
    → ours_of (
        lookup k (insert (match_key o) (add_claim (or_else (lookup (match_key o) m) no_claim) o) m))
      ≡ (if str_eq (match_key o) k
          then some (or_else (ours_of (lookup k m)) (pos 0) +ℤ o.recovered_amount)
          else ours_of (lookup k m))
unfolding ours_of
ours_step k m o = ground (
  arith,
  lookup-insert (match_key o) k (add_claim (or_else (lookup (match_key o) m) no_claim) o) m,
  eq_iff (match_key o) k,
)

-- Our dictionary holds under each key what the claimed rows of that key come to.
pub lookup-ours_by_key :
    (k : String) (m : Dict Claim) (os : List SettledOutcome)
    → map_option (λ a. a.ours) (lookup k (ours_by_key m os))
      ≡ claimed_total k (map_option (λ a. a.ours) (lookup k m)) os
unfolding ours_by_key ours_of
lookup-ours_by_key k m [] = refl
lookup-ours_by_key k m (o ∷ os) =
    lookup-ours_by_key k
      (insert (match_key o) (add_claim (or_else (lookup (match_key o) m) no_claim) o) m) os
    ∙ ap (λ t. claimed_total k t os) (ours_step k m o)

-- The keys of a dictionary are distinct.
abbrev pub Distinct : {V : Type 0} → Dict V → Type 0
Distinct [] = Unit {0}
Distinct ((k, v) ∷ m) = (lookup k m ≡ none) × Distinct m

module _ {V : Type 0} where
  pub insert-Distinct : (k : String) (v : V) (m : Dict V) → Distinct m → Distinct (insert k v m)
  insert-Distinct k v [] d = (refl, tt)
  insert-Distinct k v ((j, w) ∷ m) d =
      ground (arith, insert-Distinct k v m d.1, lookup-insert k j v m, eq_iff j k, eq_iff k j)

  -- What holds of every entry holds of every look-up, and the other way round if keys are distinct.
  pub All-lookup :
      (P : String × V → Type 0) (m : Dict V) (k : String) {v : V}
      → All P m
      → lookup k m ≡ some v
      → P (k, v)
  All-lookup P [] k a e = absurd (cc)
  All-lookup P ((j, w) ∷ m) k {v} a e = elim (Bool-cases (str_eq j k)) [
    | inl hit ↦
        let q : w ≡ v = ground arith in
        subst (λ x. P (x, v)) ((eq_iff j k).0 hit) (subst (λ y. P (j, y)) q a.0)
    | inr miss ↦ All-lookup P m k a.1 (ground arith)
  ]

  pub All-of_lookup :
      (P : String × V → Type 0) (m : Dict V)
      → Distinct m
      → ((k : String) (v : V) → lookup k m ≡ some v → P (k, v))
      → All P m
  All-of_lookup P [] d h = tt
  All-of_lookup P ((j, w) ∷ m) d h = (
    h j w (ground (arith, eq_iff j j)),
    All-of_lookup P m d.1 λ k v e. h k v (ground (arith, eq_iff j k, d.0)),
  )

pub ours_by_key-Distinct :
    (m : Dict Claim) (os : List SettledOutcome) → Distinct m → Distinct (ours_by_key m os)
unfolding ours_by_key
ours_by_key-Distinct m [] d = d
ours_by_key-Distinct m (o ∷ os) d =
    let a = add_claim (or_else (lookup (match_key o) m) no_claim) o in
    ours_by_key-Distinct
      (insert (match_key o) (add_claim (or_else (lookup (match_key o) m) no_claim) o) m) os
      (insert-Distinct (match_key o) a m d)
