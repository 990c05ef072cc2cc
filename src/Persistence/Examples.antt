-- ===== src/Persistence/Examples.antt =====
-- Instances of the theorems on the persisted ledger, with a table that is a list of rows and a digest
-- that keeps all that it was given.
use native.Mathlib.Decide.{ℕ_discrete}
use ax10m.Common.{
  ℕ, ◌+◌, ◌≡◌, ◌≢◌, ◌<◌, refl, sym, ap, ◌∙◌, inl, inr, true, false, List, [], ◌∷◌, length, Any,
  Bool-cases, if◌then◌else◌, arith,
}
use ax10m.Ledger.{Hashing, LedgerEntry, EntryInput, holdout_assigned, valid, verify_chain}
use ax10m.Ledger.JsonValue.{null}
use ax10m.Persistence.{
  advance, Inserted, inserted, collided, database_error, Database, last_row, is_taken, place,
  IsKeyed, System, begin_append, run, committed, verify,
}
use ax10m.Persistence.Chain.{Extends, IsFresh, run-appends}
use ax10m.Persistence.Contention.{append-commits}

data Chained : Type 0 where
  first : Chained
  then_one : Chained → ℕ → Chained

Chained-discrete : Discrete Chained
unfolding ℕ_discrete
Chained-discrete = hlevel ℕ_discrete

abbrev chaining : Hashing
chaining = record {
  Text = ℕ;
  Digest = Chained;
  decimal = λ n. "0";
  stringify = λ j. 1;
  digest = then_one;
  genesis_hash = first;
  same = Chained-discrete;
}

abbrev insert_row :
    LedgerEntry chaining → List (LedgerEntry chaining) → Inserted (List (LedgerEntry chaining))
insert_row r t = if is_taken chaining r.seq t then collided else inserted (place chaining r t)

abbrev listed : Database chaining
listed = record {
  Table = List (LedgerEntry chaining);
  rows = λ t. t;
  last = λ t. last_row chaining t;
  insert = insert_row;
}

abbrev table_of :
    List (LedgerEntry chaining)
    → Inserted (List (LedgerEntry chaining))
    → List (LedgerEntry chaining)
table_of other (inserted t) = t
table_of other _ = other

listed-IsKeyed : IsKeyed chaining listed
listed-IsKeyed = record {
  lasts = λ t. refl;
  inserts = λ r t t' e. elim (Bool-cases (is_taken chaining r.seq t)) [
    | inl b ↦ absurd (taken r t t' b e)
    | inr b ↦ (b, sym (ap (λ x. table_of [] x) (kept r t b ∙ e)))
  ];
  collides = λ r t e. elim (Bool-cases (is_taken chaining r.seq t)) [
    | inl b ↦ b
    | inr b ↦ absurd (free r t b e)
  ];
}
  where
    taken :
        (r : LedgerEntry chaining) (t t' : List (LedgerEntry chaining))
        → is_taken chaining r.seq t ≡ true
        → insert_row r t ≢ inserted t'
    taken r t t' b e = absurd (cc)

    kept :
        (r : LedgerEntry chaining) (t : List (LedgerEntry chaining))
        → is_taken chaining r.seq t ≡ false
        → inserted (place chaining r t) ≡ insert_row r t
    kept r t b = rw b refl

    free :
        (r : LedgerEntry chaining) (t : List (LedgerEntry chaining))
        → is_taken chaining r.seq t ≡ false
        → insert_row r t ≢ collided
    free r t b e = absurd (cc)

abbrev assigned_input : EntryInput
assigned_input = record {
  merchant_id = "m1";
  type = holdout_assigned;
  occurred_at = "2026-08-01T00:00:00.000Z";
  detail = null;
}

-- Every writer has the same to append, and writer 0 is overtaken by writer 1 once.
abbrev begun : System chaining listed
begun = record { table = []; writers = λ j. begin_append chaining assigned_input }

abbrev schedule : List ℕ
schedule = 0 ∷ 1 ∷ 1 ∷ 0 ∷ 0 ∷ 0 ∷ 0 ∷ 0 ∷ 0 ∷ 0 ∷ 0 ∷ 0 ∷ 0 ∷ 0 ∷ 0 ∷ 0 ∷ 0 ∷ 0 ∷ 0 ∷ []

begun-IsFresh : (j : ℕ) → IsFresh chaining (begun.writers j)
begun-IsFresh j = tt

begun-verifies : verify chaining listed begun.table ≡ valid
unfolding verify_chain
begun-verifies = refl

run-appends_example :
    let t = run chaining listed schedule begun in
    (verify chaining listed t.table ≡ valid)
    × Extends chaining [] t.table
    × ((j : ℕ) (e : LedgerEntry chaining) → t.writers j ≡ committed e → Any (λ x. x ≡ e) t.table)
run-appends_example =
    run-appends chaining listed listed-IsKeyed schedule begun begun-IsFresh begun-verifies

no_errors :
    (r : LedgerEntry chaining) (t : List (LedgerEntry chaining)) → insert_row r t ≢ database_error
no_errors r t e = elim (Bool-cases (is_taken chaining r.seq t)) [
  | inl b ↦ absurd (cc)
  | inr b ↦ absurd (cc)
]

two_rows : length (run chaining listed schedule begun).table ≡ 2
unfolding run advance
two_rows = refl

few_rows : length (run chaining listed schedule begun).table < length begun.table + 8
few_rows = omega (arith, two_rows)

append-commits_example :
    (e : LedgerEntry chaining) × ((run chaining listed schedule begun).writers 0 ≡ committed e)
    × (e.input ≡ assigned_input)
    × Any (λ x. x ≡ e) (run chaining listed schedule begun).table
append-commits_example =
    append-commits chaining listed listed-IsKeyed no_errors 0 assigned_input schedule begun
      begun-IsFresh begun-verifies refl (omega arith) few_rows
