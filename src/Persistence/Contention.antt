-- ===== src/Persistence/Contention.antt =====
-- A writer of the persisted ledger does not wait for ever (packages/persistence/src/ledger-repo.ts,
-- `append`): each transaction that it loses was won by another.
use ax10m.Common.{
  if◌then◌else◌, ℕ, zero, suc, ◌+◌, ◌*◌, ◌≡◌, ◌≢◌, ◌≤◌, ◌<◌, refl, sym, ap, ◌∙◌, subst, inl, inr,
  Option, List, [], ◌∷◌, length, Any, arith, Bool-cases, ◌==◌, count_if,
}
use ax10m.Ledger.{Hashing, LedgerEntry, EntryInput, valid, verify_chain}
use ax10m.Ledger.Chain.{append-verify}
use ax10m.Persistence.{
  Inserted, inserted, collided, database_error, Database, IsKeyed, next_seq, row_behind, Writer,
  ready, looked, committed, lost_the_race, threw, begin_append, after_insert, advance, System,
  take_step, run, verify,
}
use ax10m.Persistence.Chain.{
  Grows, same_rows, appended, IsSound, IsFresh, take_step-IsSound, fresh-IsSound, run-appends,
}
use ax10m.Persistence.Rows.{Rows, last_row-valid, taken-below}

-- How often it is a writer's turn.
abbrev pub turns : ℕ → List ℕ → ℕ
turns i is = count_if (λ j. i == j) is

module _ (h : Hashing) (d : Database h) (keyed : IsKeyed h d)
    (no_errors : (r : LedgerEntry h) (t : d.Table) → d.insert r t ≢ database_error)
    (input : EntryInput) (before : ℕ) where
  -- After `c` steps of the writer, among `n` rows: it appends what it was asked to, each transaction
  -- behind it has seen another row come, and it has taken two steps for each.
  abbrev Owed : Writer h → ℕ → ℕ → Type 0
  Owed (ready x k) n c = (x ≡ input) × (before + 8 ≤ n + k) × (c + 2 * k ≡ 16)
  Owed (looked x k y) n c =
      (x ≡ input) × (next_seq h y ≤ n) × (before + 8 ≤ next_seq h y + k + 1) × (c + 2 * k + 1 ≡ 16)
  Owed (committed e) n c = e.input ≡ input
  Owed lost_the_race n c = before + 8 ≤ n
  Owed threw n c = ⊥

  Owed-more : (w : Writer h) (n m c : ℕ) → n ≤ m → Owed w n c → Owed w m c
  Owed-more (ready x k) n m c l q = (q.0, omega (arith, l, q.1), q.2)
  Owed-more (looked x k y) n m c l q = (q.0, omega (arith, l, q.1), q.2, q.3)
  Owed-more (committed e) n m c l q = q
  Owed-more lost_the_race n m c l q = omega (arith, l, q)
  Owed-more threw n m c l q = q

  inserted-Owed :
      (k c : ℕ) (y : Option (LedgerEntry h)) (x : EntryInput) (t : d.Table) (a : Inserted d.Table)
      → d.insert (row_behind h y x) t ≡ a
      → verify_chain h (d.rows t) ≡ valid
      → Owed (looked x k y) (length (d.rows t)) c
      → Owed (after_insert h d a (row_behind h y x) x k t).0 (length (d.rows t)) (c + 1)
  inserted-Owed k c y x t (inserted t') e v q = q.0
  inserted-Owed k c y x t collided e v q =
      let met = taken-below h (next_seq h y) (d.rows t) v (keyed.collides (row_behind h y x) t e) in
      (q.0, omega (arith, met, q.2), omega (arith, q.3))
  inserted-Owed k c y x t database_error e v q = no_errors (row_behind h y x) t e

  advance-Owed :
      (w : Writer h) (c : ℕ) (t : d.Table)
      → verify_chain h (d.rows t) ≡ valid
      → Owed w (length (d.rows t)) c
      → Owed (advance h d w t).0 (length (d.rows t)) (c + 1)
  unfolding advance
  advance-Owed (ready x zero) c t v q = omega (arith, q.1)
  advance-Owed (ready x (suc k)) c t v q =
      let at : next_seq h (d.last t) ≡ length (d.rows t) =
        ap (λ y. next_seq h y) (keyed.lasts t) ∙ (last_row-valid h (d.rows t) v).0 in
      (q.0, omega (arith, at), omega (arith, at, q.1), omega (arith, q.2))
  advance-Owed (looked x k y) c t v q =
      inserted-Owed k c y x t (d.insert (row_behind h y x) t) refl v q
  advance-Owed (committed e) c t v q = q
  advance-Owed lost_the_race c t v q = q
  advance-Owed threw c t v q = q

  grown-longer :
      {es fs : Rows h} → verify_chain h es ≡ valid → Grows h es fs → length es ≤ length fs
  grown-longer v same_rows = omega arith
  grown-longer {es} v (appended x) = omega (arith, (append-verify h es x v).1)

  module _ (i : ℕ) where
    -- A step of this writer, and one of another.
    mine-Owed :
        (c : ℕ) (s : System h d)
        → IsSound h d keyed s
        → Owed (s.writers i) (length (d.rows s.table)) c
        → let (w, t) = advance h d (s.writers i) s.table in Owed w (length (d.rows t)) (c + 1)
    mine-Owed c s sound q =
        let (w, t) = advance h d (s.writers i) s.table in
        Owed-more w (length (d.rows s.table)) (length (d.rows t)) (c + 1)
          (grown-longer sound.links (take_step-IsSound h d keyed i s sound).1)
          (advance-Owed (s.writers i) c s.table sound.links q)

    step-Owed :
        (j c : ℕ) (s : System h d)
        → IsSound h d keyed s
        → Owed (s.writers i) (length (d.rows s.table)) c
        → let t = take_step h d j s in
          Owed (t.writers i) (length (d.rows t.table)) (c + (if i == j then 1 else 0))
    step-Owed j c s sound q = elim (Bool-cases (i == j)) [
      | inl e ↦
          let same : i ≡ j = ground (arith, e) in
          rw e (
            subst
              (λ x.
                let (w, t) = advance h d (s.writers x) s.table in
                Owed w (length (d.rows t)) (c + 1))
              same (mine-Owed c s sound q))
      | inr e ↦ rw e (
          Owed-more (s.writers i) (length (d.rows s.table)) _ (c + 0)
            (grown-longer sound.links (take_step-IsSound h d keyed j s sound).1) (rest q))
    ]
      where
        rest :
            Owed (s.writers i) (length (d.rows s.table)) c
            → Owed (s.writers i) (length (d.rows s.table)) (c + 0)
        rest q' = subst (λ x. Owed (s.writers i) (length (d.rows s.table)) x) (omega arith) q'

    run-Owed :
        (is : List ℕ) (c : ℕ) (s : System h d)
        → IsSound h d keyed s
        → Owed (s.writers i) (length (d.rows s.table)) c
        → let t = run h d is s in Owed (t.writers i) (length (d.rows t.table)) (c + turns i is)
    unfolding run
    run-Owed [] c s sound q =
        subst (λ x. Owed (s.writers i) (length (d.rows s.table)) x) (omega arith) q
    run-Owed (j ∷ is) c s sound q =
        let t = run h d (j ∷ is) s in
        subst (λ x. Owed (t.writers i) (length (d.rows t.table)) x) (omega arith)
          (run-Owed is (c + (if i == j then 1 else 0)) (take_step h d j s)
            (take_step-IsSound h d keyed j s sound).0 (step-Owed j c s sound q))

  ends-committed :
      (w : Writer h) (n c : ℕ)
      → Owed w n c
      → n < before + 8
      → 17 ≤ c
      → (e : LedgerEntry h) × (w ≡ committed e) × (e.input ≡ input)
  ends-committed (ready x k) n c q few late = absurd (omega (arith, q.2, late))
  ends-committed (looked x k y) n c q few late = absurd (omega (arith, q.3, late))
  ends-committed (committed e) n c q few late = (e, refl, q)
  ends-committed lost_the_race n c q few late = absurd (omega (arith, q, few))
  ends-committed threw n c q few late = absurd q

module _ (h : Hashing) (d : Database h) (keyed : IsKeyed h d)
    (no_errors : (r : LedgerEntry h) (t : d.Table) → d.insert r t ≢ database_error) where
  -- If the database has no other error than a taken key: a writer that begins an append on rows that
  -- verify, and has had 17 turns while fewer than 8 rows came to the table, has returned an entry of
  -- what it was asked to append, and the entry is among the rows.
  pub append-commits :
      (i : ℕ) (input : EntryInput) (is : List ℕ) (s : System h d)
      → ((j : ℕ) → IsFresh h (s.writers j))
      → verify h d s.table ≡ valid
      → s.writers i ≡ begin_append h input
      → 17 ≤ turns i is
      → length (d.rows (run h d is s).table) < length (d.rows s.table) + 8
      → (e : LedgerEntry h) × ((run h d is s).writers i ≡ committed e)
        × (e.input ≡ input)
        × Any (λ x. x ≡ e) (d.rows (run h d is s).table)
  append-commits i input is s fresh v begins late few =
      let before = length (d.rows s.table) in
      let sound = fresh-IsSound h d keyed s fresh v in
      let owed = run-Owed h d keyed no_errors input before i is 0 s sound (
        subst (λ w. Owed h d keyed no_errors input before w before 0) (sym begins)
          (refl, omega arith, omega arith)) in
      let end =
        ends-committed h d keyed no_errors input before _ _ _ owed few (omega (arith, late)) in
      (end.0, end.1, end.2, (run-appends h d keyed is s fresh v).2 i end.0 end.1)
