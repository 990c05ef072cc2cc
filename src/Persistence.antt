-- ===== src/Persistence.antt =====
-- The persisted ledger of packages/persistence/src/ledger-repo.ts, with many writers on one table. The
-- database is given (`Database`): what the two queries and the insert do is stated by `IsKeyed`. The
-- transactions of several writers interleave in any order: the advisory lock, which keeps them apart
-- where the database has it, is not relied on.
pub mod Rows
pub mod Chain
pub mod Contention
mod Examples
use ax10m.Common.{
  ℕ, zero, suc, ◌+◌, ◌≡◌, Bool, true, false, Option, none, some, List, [], ◌∷◌, ◌==◌, ltb,
  if◌then◌else◌,
}
use ax10m.Ledger.{
  Hashing, LedgerEntry, LedgerEntryData, EntryInput, hash_entry, ChainVerification, verify_chain,
}

-- How an insert ends: a second row under a key collides, and anything else that fails is an error.
pub data Inserted (Table : Type 0) : Type 0 where
  inserted : Table → Inserted Table
  collided database_error : Inserted Table

module _ (h : Hashing) where
  -- The table `ledger_entries`: `rows` is in the order of `seq`, `last` is the row of the greatest.
  pub record Database : Type 1 where
    pub Table : Type 0
    pub rows : Table → List (LedgerEntry h)
    pub last : Table → Option (LedgerEntry h)
    pub insert : LedgerEntry h → Table → Inserted Table

  abbrev pub last_row : List (LedgerEntry h) → Option (LedgerEntry h)
  last_row [] = none
  last_row (e ∷ []) = some e
  last_row (e ∷ e' ∷ es) = last_row (e' ∷ es)

  abbrev pub is_taken : ℕ → List (LedgerEntry h) → Bool
  is_taken seq [] = false
  is_taken seq (e ∷ es) = if e.seq == seq then true else is_taken seq es

  -- A row among those of smaller and greater keys.
  abbrev pub place : LedgerEntry h → List (LedgerEntry h) → List (LedgerEntry h)
  place r [] = r ∷ []
  place r (e ∷ es) = if ltb e.seq r.seq then e ∷ place r es else r ∷ e ∷ es

  -- `seq` is the primary key.
  pub record IsKeyed (d : Database) : Type 0 where
    pub lasts : (t : d.Table) → d.last t ≡ last_row (d.rows t)
    pub inserts :
        (r : LedgerEntry h) (t t' : d.Table)
        → d.insert r t ≡ inserted t'
        → (is_taken r.seq (d.rows t) ≡ false) × (d.rows t' ≡ place r (d.rows t))
    pub collides :
        (r : LedgerEntry h) (t : d.Table)
        → d.insert r t ≡ collided
        → is_taken r.seq (d.rows t) ≡ true

  -- `head[0]?.hash ?? GENESIS_HASH`
  abbrev pub hash_of : Option (LedgerEntry h) → h.Digest
  hash_of none = h.genesis_hash
  hash_of (some e) = e.hash

  abbrev pub next_seq : Option (LedgerEntry h) → ℕ
  next_seq none = 0
  next_seq (some e) = e.seq + 1

  abbrev pub row_at : EntryInput → ℕ → h.Digest → LedgerEntry h
  row_at input seq prev =
      let content : LedgerEntryData = record { seq = seq; input = input } in
      record { data_of = content; prev_hash = prev; hash = hash_entry h content prev }

  -- The row that is inserted behind the head that was read.
  abbrev pub row_behind : Option (LedgerEntry h) → EntryInput → LedgerEntry h
  row_behind head input = row_at input (next_seq head) (hash_of head)

  -- Where a writer is in `append`: before a transaction, with so many left; between its query and its
  -- insert; or at an end.
  pub data Writer : Type 0 where
    ready : EntryInput → ℕ → Writer
    looked : EntryInput → ℕ → Option (LedgerEntry h) → Writer
    committed : LedgerEntry h → Writer
    lost_the_race threw : Writer

  -- `MAX_APPEND_RETRIES`
  abbrev pub max_append_retries : ℕ
  max_append_retries = 8

  abbrev pub begin_append : EntryInput → Writer
  begin_append input = ready input max_append_retries

  module _ (d : Database) where
    abbrev pub after_insert :
        Inserted d.Table → LedgerEntry h → EntryInput → ℕ → d.Table → Writer × d.Table
    after_insert (inserted t') r input k t = (committed r, t')
    after_insert collided r input k t = (ready input k, t)
    after_insert database_error r input k t = (threw, t)

    -- The next step of a writer.
    unfoldable pub advance : Writer → d.Table → Writer × d.Table
    advance (ready input zero) t = (lost_the_race, t)
    advance (ready input (suc k)) t = (looked input k (d.last t), t)
    advance (looked input k head) t =
        let r = row_behind head input in after_insert (d.insert r t) r input k t
    advance w t = (w, t)

    pub record System : Type 0 where
      pub table : d.Table
      pub writers : ℕ → Writer

    abbrev pub set_writer : ℕ → Writer → (ℕ → Writer) → ℕ → Writer
    set_writer i w writers j = if j == i then w else writers j

    abbrev pub take_step : ℕ → System → System
    take_step i s =
        let (w, t) = advance (s.writers i) s.table in
        record { table = t; writers = set_writer i w s.writers }

    -- The writers whose turn it is, one after another.
    unfoldable pub run : List ℕ → System → System
    run [] s = s
    run (i ∷ is) s = run is (take_step i s)

    -- `verify`
    abbrev pub verify : d.Table → ChainVerification
    verify t = verify_chain h (d.rows t)
