-- ===== src/Ledger/Tamper.antt =====
-- Why the head of the ledger notarises all of it (packages/attribution/src/ledger.ts).
use ax10m.Common.{ℕ, ◌+◌, ◌≡◌, refl, sym, ap₂, ◌∙◌, List, [], ◌∷◌, map, length, arith}
use ax10m.Ledger.{Hashing, LedgerEntry, valid, hash_entry, canonicalize, head, verify_chain}
use ax10m.Ledger.Chain.{Linked, head_from, head-eq-head_from, Linked-of_valid}

module _ (h : Hashing)
    (no_collision : (p q : h.Digest) (s t : h.Text)
      → h.digest p s ≡ h.digest q t
      → (p ≡ q) × (s ≡ t)) where
  -- The entries as they are printed for hashing, and their hashes.
  abbrev pub printed : List (LedgerEntry h) → List h.Text
  printed = map (λ e. canonicalize h e.data_of)

  abbrev pub hashes : List (LedgerEntry h) → List h.Digest
  hashes = map (λ e. e.hash)

  same_from :
      (i j : ℕ) (p q : h.Digest) (es fs : List (LedgerEntry h))
      → length es ≡ length fs
      → Linked h i p es
      → Linked h j q fs
      → head_from h p es ≡ head_from h q fs
      → (p ≡ q) × (printed es ≡ printed fs) × (hashes es ≡ hashes fs)
  unfolding hash_entry
  same_from i j p q [] [] n l m e = (e, refl, refl)
  same_from i j p q [] (f ∷ fs) n l m e = absurd (omega arith)
  same_from i j p q (e ∷ es) [] n l m eq = absurd (omega arith)
  same_from i j p q (e ∷ es) (f ∷ fs) n l m eq =
      let (hash_eq, texts, digests) =
        same_from (i + 1) (j + 1) e.hash f.hash es fs (omega arith) l.3 m.3 eq in
      let (prev_eq, text_eq) =
        no_collision e.prev_hash f.prev_hash (canonicalize h e.data_of) (canonicalize h f.data_of)
          (l.2 ∙ hash_eq ∙ sym m.2) in
      (
        sym l.1 ∙ prev_eq ∙ m.1,
        ap₂ (λ x xs. x ∷ xs) text_eq texts,
        ap₂ (λ x xs. x ∷ xs) hash_eq digests,
      )

  -- If the digest has no collisions, two ledgers of one length that both verify and have the same
  -- head hold the same entries: the same text was hashed at every place, and every hash agrees. So
  -- a signed head and length fix the whole history.
  pub head_fixes_history :
      (es fs : List (LedgerEntry h))
      → length es ≡ length fs
      → verify_chain h es ≡ valid
      → verify_chain h fs ≡ valid
      → head h es ≡ head h fs
      → (printed es ≡ printed fs) × (hashes es ≡ hashes fs)
  head_fixes_history es fs n v w e =
      let r =
        same_from 0 0 h.genesis_hash h.genesis_hash es fs n (Linked-of_valid h es v)
          (Linked-of_valid h fs w) (sym (head-eq-head_from h es) ∙ e ∙ head-eq-head_from h fs) in
      (r.1, r.2)
