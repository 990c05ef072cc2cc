-- ===== src/Ledger.antt =====
-- The append-only, hash-chained ledger of packages/attribution/src/ledger.ts. SHA-256 and
-- `JSON.stringify` are parameters (`Hashing`): the digest takes the previous hash and the printed
-- entry, as the two `update` calls do.
pub mod JsonValue
pub mod Chain
pub mod Break
pub mod Views
pub mod Tamper
mod Examples
use mathlib.Core.Logic.{ite}
use ax10m.Common.{ℕ, ◌+◌, ◌≡◌, Bool, String, List, [], ◌∷◌, ◌++◌, length, ◌==◌, if◌then◌else◌, keep}
use ax10m.Common.Dict.{str_eq}
use JsonValue.{Json, Fields, text, num, obj, end, field, sort_keys}

pub data LedgerEventType : Type 0 where
  holdout_assigned recovery_planned charge_attempted charge_succeeded : LedgerEventType
  charge_failed comms_sent action_suppressed case_recovered case_reversed : LedgerEventType
  case_reversal_reverted case_abandoned model_promoted uplift_statement : LedgerEventType

-- The names of the event types, as they are hashed.
abbrev pub event_name : LedgerEventType → String
event_name holdout_assigned = "holdout.assigned"
event_name recovery_planned = "recovery.planned"
event_name charge_attempted = "charge.attempted"
event_name charge_succeeded = "charge.succeeded"
event_name charge_failed = "charge.failed"
event_name comms_sent = "comms.sent"
event_name action_suppressed = "action.suppressed"
event_name case_recovered = "case.recovered"
event_name case_reversed = "case.reversed"
event_name case_reversal_reverted = "case.reversal_reverted"
event_name case_abandoned = "case.abandoned"
event_name model_promoted = "model.promoted"
event_name uplift_statement = "uplift.statement"

-- What `append` is given: the data of an entry without its sequence number.
pub record EntryInput : Type 0 where
  pub merchant_id : String
  pub type : LedgerEventType
  pub occurred_at : String
  pub detail : Json

pub record LedgerEntryData : Type 0 where
  pub seq : ℕ
  pub input : EntryInput
  pub open input use *

-- SHA-256 over two updates and `JSON.stringify`. `decimal` is how a number prints.
pub record Hashing : Type 1 where
  pub Text : Type 0
  pub Digest : Type 0
  pub decimal : ℕ → String
  pub stringify : Json → Text
  pub digest : Digest → Text → Digest
  pub genesis_hash : Digest
  pub same : Discrete Digest

pub data BreakReason : Type 0 where
  seq_mismatch prev_hash_mismatch hash_mismatch : BreakReason

pub data ChainVerification : Type 0 where
  valid : ChainVerification
  broken_at : ℕ → BreakReason → ChainVerification

module _ (h : Hashing) where
  -- A committed entry.
  pub record LedgerEntry : Type 0 where
    pub data_of : LedgerEntryData
    pub open data_of use *
    pub prev_hash : h.Digest
    pub hash : h.Digest

  unfoldable pub canonicalize : LedgerEntryData → h.Text
  unfolding sort_keys
  canonicalize d = h.stringify (
      obj (
        field "seq" (num (h.decimal d.seq)) (
          field "merchantId" (text d.merchant_id) (
            field "type" (text (event_name d.type)) (
              field "occurredAt" (text d.occurred_at) (field "detail" (sort_keys d.detail) end))))))

  unfoldable pub hash_entry : LedgerEntryData → h.Digest → h.Digest
  unfolding canonicalize
  hash_entry d prev = h.digest prev (canonicalize d)

  -- The hash of the last entry; of no entry, the genesis hash.
  unfoldable pub head : List LedgerEntry → h.Digest
  head [] = h.genesis_hash
  head (e ∷ []) = e.hash
  head (e ∷ e' ∷ es) = head (e' ∷ es)

  -- The entry that `append` commits behind `entries`.
  unfoldable pub next_entry : List LedgerEntry → EntryInput → LedgerEntry
  unfolding hash_entry head
  next_entry entries input =
      let d : LedgerEntryData = record { seq = length entries; input = input } in
      record { data_of = d; prev_hash = head entries; hash = hash_entry d (head entries) }

  unfoldable pub append : List LedgerEntry → EntryInput → List LedgerEntry
  unfolding next_entry
  append entries input = entries ++ next_entry entries input ∷ []

  pub for_merchant : String → List LedgerEntry → List LedgerEntry
  for_merchant m entries = keep (λ e. str_eq e.merchant_id m) entries

  -- The loop of `verifyChain` from index `i`, with `prev` the hash before it.
  unfoldable pub verify_from : ℕ → h.Digest → List LedgerEntry → ChainVerification
  unfolding hash_entry
  verify_from i prev [] = valid
  verify_from i prev (e ∷ es) =
      let rest = verify_from (i + 1) e.hash es in
      if e.seq == i
      then ite (h.same e.prev_hash prev)
          (ite (h.same (hash_entry e.data_of e.prev_hash) e.hash) rest (broken_at i hash_mismatch))
          (broken_at i prev_hash_mismatch)
      else broken_at i seq_mismatch

  unfoldable pub verify_chain : List LedgerEntry → ChainVerification
  unfolding verify_from
  verify_chain entries = verify_from 0 h.genesis_hash entries
