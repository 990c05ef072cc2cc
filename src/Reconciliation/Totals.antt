-- ===== src/Reconciliation/Totals.antt =====
-- The totals and counters of `reconcileAgainstPayout` (packages/attribution/src/reconciliation.ts).
use ax10m.Common.{
  ℕ, ◌+◌, ◌≡◌, refl, inl, inr, Bool, true, false, String, Option, none, some, List, [], ◌∷◌, length,
  length-append, keep, or_else, arith, Bool-cases,
}
use ax10m.Common.Int.{ℤ, pos, ◌+ℤ◌, int_laws}
use ax10m.Common.Dict.{Dict, str_eq, lookup, insert}
use ax10m.Reconciliation.{
  SettledOutcome, PayoutRow, Claim, ReconState, is_claimed, match_key, add_claim, no_claim,
  ours_by_key, payout_by_key, recon_line, add_line, recon_lines, recon_start, count_missing,
  count_matched, count_mismatched, reconcile_against_payout,
}

abbrev pub sum_claimed : List SettledOutcome → ℤ
sum_claimed [] = pos 0
sum_claimed (o ∷ os) = o.recovered_amount +ℤ sum_claimed os

abbrev pub sum_ours : Dict Claim → ℤ
sum_ours [] = pos 0
sum_ours ((k, a) ∷ m) = a.ours +ℤ sum_ours m

sum_ours-insert :
    (k : String) (a : Claim) (m : Dict Claim)
    → sum_ours (insert k a m) +ℤ (or_else (lookup k m) no_claim).ours ≡ sum_ours m +ℤ a.ours
sum_ours-insert k a [] = grind int_laws
sum_ours-insert k a ((j, b) ∷ m) = elim (Bool-cases (str_eq j k)) [
  | inl hit ↦ rw hit (grind int_laws)
  | inr miss ↦ rw miss (grind (int_laws, sum_ours-insert k a m))
]

sum_ours-add :
    (o : SettledOutcome) (m : Dict Claim)
    → sum_ours (insert (match_key o) (add_claim (or_else (lookup (match_key o) m) no_claim) o) m)
      ≡ sum_ours m +ℤ o.recovered_amount
sum_ours-add o m = grind (
  int_laws,
  sum_ours-insert (match_key o) (add_claim (or_else (lookup (match_key o) m) no_claim) o) m,
)

sum_ours-ours_by_key :
    (m : Dict Claim) (os : List SettledOutcome)
    → sum_ours (ours_by_key m os) ≡ sum_ours m +ℤ sum_claimed os
unfolding ours_by_key
sum_ours-ours_by_key m [] = grind int_laws
sum_ours-ours_by_key m (o ∷ os) = grind (
  int_laws,
  sum_ours-add o m,
  sum_ours-ours_by_key
      (insert (match_key o) (add_claim (or_else (lookup (match_key o) m) no_claim) o) m) os,
)

-- Each line counts once: as matched, mismatched or missing.
one_count :
    (t : Option ℤ) (b : Bool) → count_matched t b + count_mismatched t b + count_missing t ≡ 1
one_count none true = refl
one_count none false = refl
one_count (some t) true = refl
one_count (some t) false = refl

module _ (tolerance : ℕ) (payout : Dict ℤ) where
  recon_lines-ours :
      (s : ReconState) (m : Dict Claim)
      → (recon_lines tolerance payout s m).ours_total ≡ s.ours_total +ℤ sum_ours m
  unfolding recon_lines
  recon_lines-ours s [] = grind int_laws
  recon_lines-ours s ((k, a) ∷ m) =
      grind (int_laws, recon_lines-ours (add_line s (recon_line tolerance payout k a)) m)

  recon_lines-counts :
      (s : ReconState) (m : Dict Claim)
      → s.matched + s.mismatched + s.missing_in_payout ≡ length s.lines
      → let r = recon_lines tolerance payout s m in
        (r.matched + r.mismatched + r.missing_in_payout ≡ length r.lines)
        × (length r.lines ≡ length s.lines + length m)
  unfolding recon_lines
  recon_lines-counts s [] h = (h, omega arith)
  recon_lines-counts s ((k, a) ∷ m) h =
      let l = recon_line tolerance payout k a in
      let ih =
        recon_lines-counts (add_line s (recon_line tolerance payout k a)) m
          (omega (arith, length-append s.lines (l ∷ []), one_count l.theirs l.is_match)) in
      (ih.0, omega (arith, ih.1, length-append s.lines (l ∷ [])))

-- Our total is the sum of all that we claim to have recovered, no row lost or counted twice, and
-- each key that we claim is one line, counted once as matched, mismatched or missing.
pub reconcile_totals :
    (rows : List SettledOutcome) (payout : List PayoutRow) (tolerance : ℕ)
    → let r = reconcile_against_payout rows payout tolerance in
      (r.ours_total ≡ sum_claimed (keep is_claimed rows))
      × (r.matched + r.mismatched + r.missing_in_payout ≡ length r.lines)
      × (length r.lines ≡ length (ours_by_key [] (keep is_claimed rows)))
unfolding reconcile_against_payout
reconcile_totals rows payout tolerance =
    let claims = keep is_claimed rows in
    let theirs = payout_by_key [] payout in
    let counts = recon_lines-counts tolerance theirs recon_start (ours_by_key [] claims) refl in
    (
      grind (
        int_laws,
        recon_lines-ours tolerance theirs recon_start (ours_by_key [] claims),
        sum_ours-ours_by_key [] claims,
      ),
      counts.0,
      omega (arith, counts.1),
    )
