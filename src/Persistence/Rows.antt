-- ===== src/Persistence/Rows.antt =====
-- Rows that link, and a row that is inserted behind a head that was read (packages/persistence/src/
-- ledger-repo.ts).

use ax10m.Common.{
  ℕ, ◌+◌, ◌≡◌, ◌≤◌, refl, ap, ◌∙◌, inl, inr, true, false, Option, List, [], ◌∷◌, ◌++◌, length, Any,
  ltb, arith, Bool-cases,
}
use ax10m.Ledger.{Hashing, LedgerEntry, EntryInput, valid, head, next_entry, append, verify_chain}
use ax10m.Ledger.Chain.{Linked, Linked-of_valid, append-verify}
use ax10m.Persistence.{last_row, is_taken, place, hash_of, next_seq, row_at, row_behind}

module _ (h : Hashing) where
  abbrev pub Rows : Type 0
  Rows = List (LedgerEntry h)

  is_taken-Linked :
      (s i : ℕ) (prev : h.Digest) (es : Rows)
      → Linked h i prev es
      → (is_taken h s es ≡ true → s + 1 ≤ i + length es)
        × (is_taken h s es ≡ false → i ≤ s → i + length es ≤ s)
  is_taken-Linked s i prev [] l = ((λ e. absurd (cc)), λ e k. omega arith)
  is_taken-Linked s i prev (e ∷ es) l = ground (arith, is_taken-Linked s (i + 1) e.hash es l.3)

  place-Linked :
      (r : LedgerEntry h) (i : ℕ) (prev : h.Digest) (es : Rows)
      → Linked h i prev es
      → i + length es ≤ r.seq
      → place h r es ≡ es ++ r ∷ []
  place-Linked r i prev [] l k = refl
  place-Linked r i prev (e ∷ es) l k =
      let below : ltb e.seq r.seq ≡ true = ground (arith, l.0, k) in
      rw below (ap (λ (x : Rows). e ∷ x) (place-Linked r (i + 1) e.hash es l.3 (omega arith)))

  -- The last row, of a list that links, is its head.
  last_row-Linked :
      (e : LedgerEntry h) (i : ℕ) (prev : h.Digest) (es : Rows)
      → Linked h i prev (e ∷ es)
      → (next_seq h (last_row h (e ∷ es)) ≡ i + length (e ∷ es))
        × (hash_of h (last_row h (e ∷ es)) ≡ head h (e ∷ es))
  unfolding head
  last_row-Linked e i prev [] l = (omega (arith, l.0), refl)
  last_row-Linked e i prev (e' ∷ es) l =
      let t = last_row-Linked e' (i + 1) e.hash es l.3 in (omega (arith, t.0), t.1)

  pub last_row-valid :
      (es : Rows)
      → verify_chain h es ≡ valid
      → (next_seq h (last_row h es) ≡ length es) × (hash_of h (last_row h es) ≡ head h es)
  unfolding head
  last_row-valid [] v = (refl, refl)
  last_row-valid (e ∷ es) v = (
    omega (arith, (last_row-Linked e 0 h.genesis_hash es (Linked-of_valid h (e ∷ es) v)).0),
    (last_row-Linked e 0 h.genesis_hash es (Linked-of_valid h (e ∷ es) v)).1,
  )

  pub taken-below :
      (s : ℕ) (es : Rows) → verify_chain h es ≡ valid → is_taken h s es ≡ true → s + 1 ≤ length es
  taken-below s es v t =
      omega (arith, (is_taken-Linked s 0 h.genesis_hash es (Linked-of_valid h es v)).0 t)

  -- A head that was read: the rows have reached it, and if there are no more, it is still their head.
  abbrev pub Seen : Option (LedgerEntry h) → Rows → Type 0
  Seen x es = (next_seq h x ≤ length es) × (next_seq h x ≡ length es → hash_of h x ≡ head h es)

  row_at-append :
      (input : EntryInput) (s : ℕ) (prev : h.Digest) (es : Rows)
      → s ≡ length es
      → prev ≡ head h es
      → es ++ row_at h input s prev ∷ [] ≡ append h es input
  unfolding append next_entry
  row_at-append input s prev es e p = rw (e, p) refl

  -- A row that could be inserted behind a head that was read is the next entry of the ledger.
  pub inserted-append :
      (x : Option (LedgerEntry h)) (input : EntryInput) (es : Rows)
      → verify_chain h es ≡ valid
      → Seen x es
      → is_taken h (next_seq h x) es ≡ false
      → place h (row_behind h x input) es ≡ append h es input
  inserted-append x input es v seen free =
      let l = Linked-of_valid h es v in
      let past : length es ≤ next_seq h x =
        omega (arith, (is_taken-Linked (next_seq h x) 0 h.genesis_hash es l).1 free) in
      let at : next_seq h x ≡ length es = omega (arith, seen.0) in
      place-Linked (row_behind h x input) 0 h.genesis_hash es l (omega arith)
      ∙ row_at-append input (next_seq h x) (hash_of h x) es at (seen.1 at)

  pub Seen-grows :
      (x : Option (LedgerEntry h)) (input : EntryInput) (es : Rows)
      → verify_chain h es ≡ valid
      → Seen x es
      → Seen x (append h es input)
  Seen-grows x input es v seen =
      let longer = (append-verify h es input v).1 in
      (omega (arith, seen.0, longer), λ e. absurd (omega (arith, seen.0, longer, e)))

  Any-left : (P : LedgerEntry h → Type 0) (es fs : Rows) → Any P es → Any P (es ++ fs)
  Any-left P [] fs a = absurd a
  Any-left P (e ∷ es) fs (inl p) = inl p
  Any-left P (e ∷ es) fs (inr a) = inr (Any-left P es fs a)

  pub Any-place :
      (P : LedgerEntry h → Type 0) (r : LedgerEntry h) (es : Rows) → P r → Any P (place h r es)
  Any-place P r [] p = inl p
  Any-place P r (e ∷ es) p = elim (Bool-cases (ltb e.seq r.seq)) [
    | inl b ↦ rw b (inr (Any-place P r es p))
    | inr b ↦ rw b (inl p)
  ]

  pub Any-grows :
      (P : LedgerEntry h → Type 0) (es : Rows) (input : EntryInput)
      → Any P es
      → Any P (append h es input)
  unfolding append
  Any-grows P es input a = Any-left P es (next_entry h es input ∷ []) a
