-- ===== src/Ledger/Break.antt =====
-- Where `verifyChain` of packages/attribution/src/ledger.ts reports a break: `brokenAt`.
use ax10m.Common.{
  ℕ, suc, ◌+◌, ◌<◌, ◌≡◌, refl, ◌∙◌, subst, ◌⊎◌, inl, inr, List, [], ◌∷◌, length, take, arith,
}
use ax10m.Ledger.{
  Hashing, LedgerEntry, BreakReason, valid, broken_at, hash_entry, verify_from, verify_chain,
}

module _ (h : Hashing) where
  -- A break is at the first entry, or the first entry links and the break is behind it.
  break_cases :
      (i j : ℕ) (r : BreakReason) (prev : h.Digest) (e : LedgerEntry h) (es : List (LedgerEntry h))
      → verify_from h i prev (e ∷ es) ≡ broken_at j r
      → ((j ≡ i) × (verify_from h i prev (e ∷ []) ≡ broken_at j r))
        ⊎ ((e.seq ≡ i)
            × (e.prev_hash ≡ prev)
            × (hash_entry h e.data_of e.prev_hash ≡ e.hash)
            × (verify_from h (i + 1) e.hash es ≡ broken_at j r))
  unfolding verify_from
  break_cases i j r prev e es v = ground arith

  -- An entry that links leaves the verdict to the entries behind it.
  verify_linked :
      (i : ℕ) (prev : h.Digest) (e : LedgerEntry h) (es : List (LedgerEntry h))
      → e.seq ≡ i
      → e.prev_hash ≡ prev
      → hash_entry h e.data_of e.prev_hash ≡ e.hash
      → verify_from h i prev (e ∷ es) ≡ verify_from h (i + 1) e.hash es
  unfolding verify_from
  verify_linked i prev e es s p k = ground arith

  -- Entry `k` of `es`, at index `j`, is the first that fails.
  abbrev FirstBreak : ℕ → h.Digest → List (LedgerEntry h) → ℕ → BreakReason → ℕ → Type 0
  FirstBreak i prev es j r k =
      (j ≡ i + k)
      × (k < length es)
      × (verify_from h i prev (take k es) ≡ valid)
      × (verify_from h i prev (take (suc k) es) ≡ broken_at j r)

  break_here :
      (i j : ℕ) (r : BreakReason) (prev : h.Digest) (e : LedgerEntry h) (es : List (LedgerEntry h))
      → j ≡ i
      → verify_from h i prev (e ∷ []) ≡ broken_at j r
      → FirstBreak i prev (e ∷ es) j r 0
  unfolding verify_from
  break_here i j r prev e es q v = (omega arith, omega arith, refl, v)

  break_behind :
      (i j k : ℕ) (r : BreakReason) (prev : h.Digest) (e : LedgerEntry h)
      (es : List (LedgerEntry h))
      → (e.seq ≡ i) × (e.prev_hash ≡ prev) × (hash_entry h e.data_of e.prev_hash ≡ e.hash)
      → FirstBreak (i + 1) e.hash es j r k
      → FirstBreak i prev (e ∷ es) j r (suc k)
  break_behind i j k r prev e es l b = (
    omega arith,
    omega arith,
    verify_linked i prev e (take k es) l.0 l.1 l.2 ∙ b.2,
    verify_linked i prev e (take (suc k) es) l.0 l.1 l.2 ∙ b.3,
  )

  broken_from :
      (i j : ℕ) (r : BreakReason) (prev : h.Digest) (es : List (LedgerEntry h))
      → verify_from h i prev es ≡ broken_at j r
      → (k : ℕ) × FirstBreak i prev es j r k
  unfolding verify_from
  broken_from i j r prev [] v = absurd (cc)
  broken_from i j r prev (e ∷ es) v = elim (break_cases i j r prev e es v) [
    | inl (q, here) ↦ (0, break_here i j r prev e es q here)
    | inr (s, p, d, rest) ↦
        let (k, b) = broken_from (i + 1) j r e.hash es rest in
        (suc k, break_behind i j k r prev e es (s, p, d) b)
  ]

  -- The index that `verifyChain` reports is the first bad entry: it lies in the ledger, the entries
  -- before it verify by themselves, and with it they fail at that index for the same reason.
  pub broken_at-first :
      (es : List (LedgerEntry h)) (j : ℕ) (r : BreakReason)
      → verify_chain h es ≡ broken_at j r
      → (j < length es)
        × (verify_chain h (take j es) ≡ valid)
        × (verify_chain h (take (suc j) es) ≡ broken_at j r)
  unfolding verify_chain
  broken_at-first es j r v =
      let (k, b) = broken_from 0 j r h.genesis_hash es v in
      let e : k ≡ j = omega arith in
      (
        subst (λ n. n < length es) e b.1,
        subst (λ n. verify_from h 0 h.genesis_hash (take n es) ≡ valid) e b.2,
        subst (λ n. verify_from h 0 h.genesis_hash (take (suc n) es) ≡ broken_at j r) e b.3,
      )
