-- ===== src/Reconciliation/TieOut.antt =====
-- When `reconcileAgainstPayout` ties out (packages/attribution/src/reconciliation.ts).
use ax10m.Common.{
  ◌≡◌, ◌↔◌, refl, sym, ap, ap₂, subst, ◌∙◌, inl, inr, true, String, Option, none, some, List, [],
  ◌∷◌, All, keep, or_else, map_option, arith, leb, Option-cases,
}
use ax10m.Common.Int.{ℤ, pos, ◌+ℤ◌, ◌-ℤ◌, abs, int_laws}
use ax10m.Common.Dict.{Dict, lookup}
use ax10m.Reconciliation.{
  SettledOutcome, PayoutRow, Claim, ReconState, is_claimed, ours_by_key, payout_by_key, recon_line,
  add_line, recon_lines, recon_start, within, count_missing, count_mismatched,
  reconcile_against_payout,
}
use ax10m.Reconciliation.Keys.{
  payout_total, claimed_total, lookup-payout_by_key, lookup-ours_by_key, ours_by_key-Distinct,
  All-lookup, All-of_lookup,
}

-- A claim agrees with the payout when the payout pays out just that for the key.
abbrev pub Agrees : Option ℤ → Option ℤ → Type 0
Agrees none theirs = Unit {0}
Agrees (some ours) theirs = theirs ≡ some ours

delta_zero : (a b : ℤ) → leb (abs (a -ℤ b)) 0 ≡ true → b ≡ a
delta_zero a b h = grind int_laws

zero_delta : (a : ℤ) → leb (abs (a -ℤ a)) 0 ≡ true
zero_delta a = grind int_laws

line_exact :
    (a : ℤ) (t : Option ℤ)
    → count_mismatched t (within t (a -ℤ or_else t (pos 0)) 0) ≡ 0
    → count_missing t ≡ 0
    → t ≡ some a
line_exact a none e f = absurd (ground arith)
line_exact a (some b) e f = ap some (delta_zero a b (ground arith))

exact_line :
    (a : ℤ) (t : Option ℤ)
    → t ≡ some a
    → (count_mismatched t (within t (a -ℤ or_else t (pos 0)) 0) ≡ 0) × (count_missing t ≡ 0)
exact_line a none e = absurd (cc)
exact_line a (some b) e = ground (arith, zero_delta a, ap (λ t. or_else t (pos 0)) e)

module _ (payout : Dict ℤ) where
  abbrev Paid : String × Claim → Type 0
  Paid e = lookup e.0 payout ≡ some e.1.ours

  counts-All :
      (s : ReconState) (m : Dict Claim)
      → (recon_lines 0 payout s m).mismatched ≡ 0
      → (recon_lines 0 payout s m).missing_in_payout ≡ 0
      → (s.mismatched ≡ 0) × (s.missing_in_payout ≡ 0) × All Paid m
  unfolding recon_lines
  counts-All s [] e f = (e, f, tt)
  counts-All s ((k, a) ∷ m) e f =
      let ih = counts-All (add_line s (recon_line 0 payout k a)) m e f in
      (
        omega (arith, ih.0),
        omega (arith, ih.1),
        (line_exact a.ours (lookup k payout) (omega (arith, ih.0)) (omega (arith, ih.1)), ih.2),
      )

  All-counts :
      (s : ReconState) (m : Dict Claim)
      → s.mismatched ≡ 0
      → s.missing_in_payout ≡ 0
      → s.theirs_total ≡ s.ours_total
      → All Paid m
      → let r = recon_lines 0 payout s m in
        (r.mismatched ≡ 0) × (r.missing_in_payout ≡ 0) × (r.theirs_total ≡ r.ours_total)
  unfolding recon_lines
  All-counts s [] e f g a = (e, f, g)
  All-counts s ((k, c) ∷ m) e f g a =
      let x = exact_line c.ours (lookup k payout) a.0 in
      All-counts (add_line s (recon_line 0 payout k c)) m (omega (arith, x.0)) (omega (arith, x.1))
        (ap₂ (λ u v. u +ℤ v) g (ap (λ t. or_else t (pos 0)) a.0)) a.1

Agrees-some : (o t : Option ℤ) (a : ℤ) → o ≡ some a → Agrees o t → t ≡ some a
Agrees-some o t a e h = subst (λ x. Agrees x t) e h

Paid-at :
    (theirs : Dict ℤ) (ours : Dict Claim) (k : String)
    → All (Paid theirs) ours
    → Agrees (map_option (λ a. a.ours) (lookup k ours)) (lookup k theirs)
Paid-at theirs ours k paid = elim (Option-cases (lookup k ours)) [
  | inl e ↦ rw e tt
  | inr (a, e) ↦ rw e (All-lookup (Paid theirs) ours k paid e)
]

-- The verdict is a conjunction of three tests.
verdict :
    (rows : List SettledOutcome) (payout : List PayoutRow)
    → let s =
        recon_lines 0
          (payout_by_key [] payout)
          recon_start
          (ours_by_key [] (keep is_claimed rows)) in
      ((reconcile_against_payout rows payout 0).ties_out ≡ true
        ↔ ((s.mismatched ≡ 0) × (s.missing_in_payout ≡ 0))
          × (leb (abs (s.ours_total -ℤ s.theirs_total)) 0 ≡ true))
unfolding reconcile_against_payout
verdict rows payout = (λ h. ground arith, λ h. ground arith)

-- With no tolerance, the tie-out succeeds exactly when every key that we claim is paid out in just
-- the amount that our recovered rows of that key add up to.
pub ties_out_iff :
    (rows : List SettledOutcome) (payout : List PayoutRow)
    → (reconcile_against_payout rows payout 0).ties_out ≡ true ↔ (
        (k : String)
        → Agrees (claimed_total k none (keep is_claimed rows)) (payout_total k none payout))
ties_out_iff rows payout =
    let claims = keep is_claimed rows in
    let ours = ours_by_key [] claims in
    let theirs = payout_by_key [] payout in
    (
      λ h k.
          let v = (verdict rows payout).0 h in
          let paid = (counts-All theirs recon_start ours v.0.0 v.0.1).2 in
          subst (λ t. Agrees t (payout_total k none payout)) (lookup-ours_by_key k [] claims)
            (subst (λ t. Agrees (map_option (λ a. a.ours) (lookup k ours)) t)
              (lookup-payout_by_key k [] payout) (Paid-at theirs ours k paid)),
      λ h.
          let paid = All-of_lookup (Paid theirs) ours (ours_by_key-Distinct [] claims tt) (λ k a e.
            lookup-payout_by_key k [] payout
            ∙ Agrees-some (claimed_total k none claims) (payout_total k none payout) a.ours
                (sym (lookup-ours_by_key k [] claims) ∙ ap (map_option (λ a. a.ours)) e) (h k)) in
          let r = All-counts theirs recon_start ours refl refl refl paid in
          (verdict rows payout).1 (
            (r.0, r.1),
            subst
                (λ t. leb (abs ((recon_lines 0 theirs recon_start ours).ours_total -ℤ t)) 0 ≡ true)
                (sym r.2) (zero_delta (recon_lines 0 theirs recon_start ours).ours_total),
          ),
    )
