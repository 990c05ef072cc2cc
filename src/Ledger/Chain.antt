-- ===== src/Ledger/Chain.antt =====
-- `append` and `verifyChain` of packages/attribution/src/ledger.ts against the chain that they
-- mean: what verifies is exactly what was built by appending.

use mathlib.Core.List.{append_assoc, append-nil}
use ax10m.Common.{
  ℕ, ◌+◌, ◌≡◌, refl, sym, ap, ◌∙◌, subst, ◌↔◌, List, [], ◌∷◌, ◌++◌, map, length, length-append,
  arith,
}
use ax10m.Ledger.{
  Hashing, LedgerEntry, EntryInput, valid, hash_entry, head, next_entry, append, verify_from,
  verify_chain,
}

module _ (h : Hashing) where
  -- Every entry carries its index, the hash before it, and the hash of its own content.
  abbrev pub Linked : ℕ → h.Digest → List (LedgerEntry h) → Type 0
  Linked i prev [] = Unit {0}
  Linked i prev (e ∷ es) =
      (e.seq ≡ i)
      × (e.prev_hash ≡ prev)
      × (hash_entry h e.data_of e.prev_hash ≡ e.hash)
      × Linked (i + 1) e.hash es

  abbrev pub head_from : h.Digest → List (LedgerEntry h) → h.Digest
  head_from prev [] = prev
  head_from prev (e ∷ es) = head_from e.hash es

  -- Appending the events one by one.
  pub commit_all : List EntryInput → List (LedgerEntry h) → List (LedgerEntry h)
  commit_all [] es = es
  commit_all (x ∷ xs) es = commit_all xs (append h es x)

  abbrev pub inputs : List (LedgerEntry h) → List EntryInput
  inputs = map (λ e. e.input)

  verify_from_sound :
      (i : ℕ) (prev : h.Digest) (es : List (LedgerEntry h))
      → verify_from h i prev es ≡ valid
      → Linked i prev es
  unfolding verify_from
  verify_from_sound i prev [] v = tt
  verify_from_sound i prev (e ∷ es) v = ground (arith, verify_from_sound (i + 1) e.hash es)

  verify_from_complete :
      (i : ℕ) (prev : h.Digest) (es : List (LedgerEntry h))
      → Linked i prev es
      → verify_from h i prev es ≡ valid
  unfolding verify_from
  verify_from_complete i prev [] v = refl
  verify_from_complete i prev (e ∷ es) v =
      ground (arith, verify_from_complete (i + 1) e.hash es v.3)

  head_cons :
      (e : LedgerEntry h) (es : List (LedgerEntry h)) → head h (e ∷ es) ≡ head_from e.hash es
  unfolding head
  head_cons e [] = refl
  head_cons e (e' ∷ es) = head_cons e' es

  pub head-eq-head_from : (es : List (LedgerEntry h)) → head h es ≡ head_from h.genesis_hash es
  unfolding head
  head-eq-head_from [] = refl
  head-eq-head_from (e ∷ es) = head_cons e es

  head_from-append :
      (prev : h.Digest) (es : List (LedgerEntry h)) (e : LedgerEntry h)
      → head_from prev (es ++ e ∷ []) ≡ e.hash
  head_from-append prev [] e = refl
  head_from-append prev (x ∷ es) e = head_from-append x.hash es e

  Linked-append :
      (i : ℕ) (prev : h.Digest) (es fs : List (LedgerEntry h))
      → Linked i prev es
      → Linked (i + length es) (head_from prev es) fs
      → Linked i prev (es ++ fs)
  Linked-append i prev [] fs l m = subst (λ k. Linked k prev fs) (omega arith) m
  Linked-append i prev (e ∷ es) fs l m = (
    l.0,
    l.1,
    l.2,
    Linked-append (i + 1) e.hash es fs l.3
        (subst (λ k. Linked k (head_from e.hash es) fs) (omega arith) m),
  )

  append-Linked :
      (es : List (LedgerEntry h)) (x : EntryInput)
      → Linked 0 h.genesis_hash es
      → Linked 0 h.genesis_hash (append h es x)
  unfolding append
  append-Linked es x l =
      Linked-append 0 h.genesis_hash es (next_entry h es x ∷ []) l
        (omega arith, head-eq-head_from es, refl, tt)

  commit_all-Linked :
      (xs : List EntryInput) (es : List (LedgerEntry h))
      → Linked 0 h.genesis_hash es
      → Linked 0 h.genesis_hash (commit_all xs es)
  unfolding commit_all
  commit_all-Linked [] es l = l
  commit_all-Linked (x ∷ xs) es l = commit_all-Linked xs (append h es x) (append-Linked es x l)

  next_of_linked :
      (es : List (LedgerEntry h)) (e : LedgerEntry h)
      → e.seq ≡ length es
      → e.prev_hash ≡ head h es
      → hash_entry h e.data_of e.prev_hash ≡ e.hash
      → next_entry h es e.input ≡ e
  unfolding next_entry
  next_of_linked es e s p k = ground arith

  append_of_linked :
      (es : List (LedgerEntry h)) (e : LedgerEntry h)
      → e.seq ≡ length es
      → e.prev_hash ≡ head h es
      → hash_entry h e.data_of e.prev_hash ≡ e.hash
      → append h es e.input ≡ es ++ e ∷ []
  unfolding append
  append_of_linked es e s p k = ap (λ x. es ++ x ∷ []) (next_of_linked es e s p k)

  commit_all_of_Linked :
      (es fs : List (LedgerEntry h))
      → Linked (length es) (head_from h.genesis_hash es) fs
      → commit_all (inputs fs) es ≡ es ++ fs
  unfolding commit_all
  commit_all_of_Linked es [] l = sym (append-nil es)
  commit_all_of_Linked es (e ∷ fs) l =
      ap (commit_all (inputs fs)) (append_of_linked es e l.0 (l.1 ∙ sym (head-eq-head_from es)) l.2)
      ∙ (commit_all_of_Linked (es ++ e ∷ []) fs (
            subst (λ k. Linked k (head_from h.genesis_hash (es ++ e ∷ [])) fs)
              (omega (arith, length-append es (e ∷ [])))
              (subst (λ d. Linked (length es + 1) d fs) (sym (head_from-append h.genesis_hash es e))
                l.3))
          ∙ append_assoc es (e ∷ []) fs)

  -- A list of entries verifies exactly when it is what the ledger builds by appending their events
  -- one after another from the empty ledger: no entry can be altered, dropped, added or moved
  -- without its hashes being computed anew.
  pub verify_chain_iff :
      (es : List (LedgerEntry h)) → (verify_chain h es ≡ valid) ↔ (es ≡ commit_all (inputs es) [])
  unfolding verify_chain
  verify_chain_iff es = (
    λ v. sym (commit_all_of_Linked [] es (verify_from_sound 0 h.genesis_hash es v)),
    λ e.
        verify_from_complete 0 h.genesis_hash es
          (subst (Linked 0 h.genesis_hash) (sym e) (commit_all-Linked (inputs es) [] tt)),
  )

  pub Linked-of_valid :
      (es : List (LedgerEntry h)) → verify_chain h es ≡ valid → Linked 0 h.genesis_hash es
  unfolding verify_chain
  Linked-of_valid es v = verify_from_sound 0 h.genesis_hash es v

  -- Appending to a ledger that verifies gives one that verifies, one entry longer, whose head is
  -- the hash of the new entry.
  pub append-verify :
      (es : List (LedgerEntry h)) (x : EntryInput)
      → verify_chain h es ≡ valid
      → (verify_chain h (append h es x) ≡ valid)
        × (length (append h es x) ≡ length es + 1)
        × (head h (append h es x) ≡ (next_entry h es x).hash)
  unfolding verify_chain
  append-verify es x v = (
    verify_from_complete 0 h.genesis_hash (append h es x)
        (append-Linked es x (verify_from_sound 0 h.genesis_hash es v)),
    unfold append in length-append es (next_entry h es x ∷ []),
    head-eq-head_from (append h es x)
        ∙ (unfold append in head_from-append h.genesis_hash es (next_entry h es x)),
  )
