-- ===== src/Persistence/Chain.antt =====
-- The rows of the persisted ledger are what the in-memory ledger builds (packages/persistence/src/
-- ledger-repo.ts).
use mathlib.Core.List.{append_assoc, append-nil}
use ax10m.Common.{
  ℕ, zero, suc, ◌≡◌, refl, sym, ◌∙◌, subst, inl, inr, Option, List, [], ◌∷◌, ◌++◌, Any, arith,
  Bool-cases, ◌==◌,
}
use ax10m.Ledger.{Hashing, LedgerEntry, EntryInput, valid, next_entry, append, verify_chain}
use ax10m.Ledger.Chain.{append-verify}
use ax10m.Persistence.{
  Inserted, inserted, collided, database_error, Database, IsKeyed, row_behind, Writer, ready,
  looked, committed, lost_the_race, threw, after_insert, advance, System, take_step, run, verify,
}
use ax10m.Persistence.Rows.{
  Rows, Seen, inserted-append, Seen-grows, Any-place, Any-grows, last_row-valid,
}

module _ (h : Hashing) where
  -- What the rows owe a writer: the head that it read, or the entry that it committed.
  abbrev Stands : Writer h → Rows h → Type 0
  Stands (looked input k x) es = Seen h x es
  Stands (committed e) es = Any (λ x. x ≡ e) es
  Stands w es = Unit {0}

  -- The first rows, in their order, and some behind them.
  abbrev pub Extends : Rows h → Rows h → Type 0
  Extends es fs = (added : Rows h) × (fs ≡ es ++ added)

  -- A writer that is not in the middle of a transaction and has committed nothing.
  abbrev pub IsFresh : Writer h → Type 0
  IsFresh (looked input k x) = ⊥
  IsFresh (committed e) = ⊥
  IsFresh w = Unit {0}

  Stands-grows :
      (w : Writer h) (input : EntryInput) (es : Rows h)
      → verify_chain h es ≡ valid
      → Stands w es
      → Stands w (append h es input)
  Stands-grows (ready i k) input es v q = tt
  Stands-grows (looked i k x) input es v q = Seen-grows h x input es v q
  Stands-grows (committed e) input es v q = Any-grows h (λ x. x ≡ e) es input q
  Stands-grows lost_the_race input es v q = tt
  Stands-grows threw input es v q = tt

  -- The rows stay, or are those with one event appended; they link as they did before.
  pub data Grows (es : Rows h) : Rows h → Type 0 where
    same_rows : Grows es es
    appended : (input : EntryInput) → Grows es (append h es input)

  module _ (d : Database h) (keyed : IsKeyed h d) where
    -- A step of a writer: what it does to the rows, and what they owe the writer afterwards.
    Moves : Rows h → Writer h × d.Table → Type 0
    Moves es x = Grows es (d.rows x.1) × Stands x.0 (d.rows x.1)

    inserted-Moves :
        (input : EntryInput) (k : ℕ) (x : Option (LedgerEntry h)) (t : d.Table)
        (a : Inserted d.Table)
        → d.insert (row_behind h x input) t ≡ a
        → verify_chain h (d.rows t) ≡ valid
        → Seen h x (d.rows t)
        → Moves (d.rows t) (after_insert h d a (row_behind h x input) input k t)
    unfolding Moves
    inserted-Moves input k x t collided e v q = (same_rows, tt)
    inserted-Moves input k x t database_error e v q = (same_rows, tt)
    inserted-Moves input k x t (inserted t') e v q =
        let r = row_behind h x input in
        let l = keyed.inserts r t t' e in
        let grown = inserted-append h x input (d.rows t) v q l.0 in
        (
          subst (Grows (d.rows t)) (sym (l.1 ∙ grown)) (appended input),
          subst (λ (x : Rows h). Any (λ y. y ≡ r) x) (sym l.1)
              (Any-place h (λ y. y ≡ r) r (d.rows t) refl),
        )

    advance-Moves :
        (w : Writer h) (t : d.Table)
        → verify_chain h (d.rows t) ≡ valid
        → Stands w (d.rows t)
        → Moves (d.rows t) (advance h d w t)
    unfolding Moves advance
    advance-Moves (ready input zero) t v q = (same_rows, tt)
    advance-Moves (ready input (suc k)) t v q = (
      same_rows,
      subst (λ x. Seen h x (d.rows t)) (sym (keyed.lasts t))
          (
            (omega (arith, (last_row-valid h (d.rows t) v).0)),
            λ e. (last_row-valid h (d.rows t) v).1,
          ),
    )
    advance-Moves (looked input k x) t v q =
        inserted-Moves input k x t (d.insert (row_behind h x input) t) refl v q
    advance-Moves (committed e) t v q = (same_rows, q)
    advance-Moves lost_the_race t v q = (same_rows, tt)
    advance-Moves threw t v q = (same_rows, tt)

    -- The rows link, and they stand for what every writer knows of them.
    pub record IsSound (s : System h d) : Type 0 where
      pub links : verify_chain h (d.rows s.table) ≡ valid
      pub stands : (j : ℕ) → Stands (s.writers j) (d.rows s.table)

    Grows-valid :
        {es fs : Rows h} → verify_chain h es ≡ valid → Grows es fs → verify_chain h fs ≡ valid
    Grows-valid v same_rows = v
    Grows-valid {es} v (appended input) = (append-verify h es input v).0

    Grows-Stands :
        {es fs : Rows h} (w : Writer h)
        → verify_chain h es ≡ valid
        → Grows es fs
        → Stands w es
        → Stands w fs
    Grows-Stands w v same_rows q = q
    Grows-Stands {es} w v (appended input) q = Stands-grows w input es v q

    pub take_step-IsSound :
        (i : ℕ) (s : System h d)
        → IsSound s
        → IsSound (take_step h d i s) × Grows (d.rows s.table) (d.rows (take_step h d i s).table)
    unfolding Moves
    take_step-IsSound i s q =
        let m = advance-Moves (s.writers i) s.table q.links (q.stands i) in
        (
          record {
            links = Grows-valid q.links m.0;
            stands = λ j. elim (Bool-cases (j == i)) [
              | inl e ↦ rw e m.1
              | inr e ↦ rw e (Grows-Stands (s.writers j) q.links m.0 (q.stands j))
            ];
          },
          m.0,
        )

    grown-prefix : {es fs gs : Rows h} → Grows es fs → Extends fs gs → Extends es gs
    unfolding append
    grown-prefix same_rows q = q
    grown-prefix {es} (appended input) (added, e) =
        (next_entry h es input ∷ added, e ∙ append_assoc es (next_entry h es input ∷ []) added)

    run-IsSound :
        (is : List ℕ) (s : System h d)
        → IsSound s
        → IsSound (run h d is s) × Extends (d.rows s.table) (d.rows (run h d is s).table)
    unfolding run
    run-IsSound [] s q = (q, ([], sym (append-nil (d.rows s.table))))
    run-IsSound (i ∷ is) s q =
        let m = take_step-IsSound i s q in
        let r = run-IsSound is (take_step h d i s) m.0 in (r.0, grown-prefix m.1 r.1)

    fresh-Stands : (w : Writer h) (es : Rows h) → IsFresh w → Stands w es
    fresh-Stands (ready input k) es f = tt
    fresh-Stands (looked input k x) es f = absurd f
    fresh-Stands (committed e) es f = absurd f
    fresh-Stands lost_the_race es f = tt
    fresh-Stands threw es f = tt

    pub fresh-IsSound :
        (s : System h d)
        → ((j : ℕ) → IsFresh (s.writers j))
        → verify h d s.table ≡ valid
        → IsSound s
    fresh-IsSound s f v = record {
      links = v;
      stands = λ j. fresh-Stands (s.writers j) (d.rows s.table) (f j);
    }

    -- However the transactions of any number of writers interleave, without any lock: the rows verify
    -- if they did before, no row that was there is changed, moved or removed, and every entry that a
    -- writer has committed is among the rows.
    pub run-appends :
        (is : List ℕ) (s : System h d)
        → ((j : ℕ) → IsFresh (s.writers j))
        → verify h d s.table ≡ valid
        → let t = run h d is s in
          (verify h d t.table ≡ valid)
          × Extends (d.rows s.table) (d.rows t.table)
          × ((j : ℕ) (e : LedgerEntry h)
              → t.writers j ≡ committed e
              → Any (λ x. x ≡ e) (d.rows t.table))
    run-appends is s f v =
        let r = run-IsSound is s (fresh-IsSound s f v) in
        (
          r.0.links,
          r.1,
          λ j e k.
              subst (λ (w : Writer h). Stands w (d.rows (run h d is s).table)) k (r.0.stands j),
        )
