-- ===== src/Ledger/Examples.antt =====
-- A concrete hashing and a short ledger (packages/attribution/src/ledger.ts).
use native.Mathlib.Decide.{ℕ_discrete}
use ax10m.Common.{ℕ, ◌+◌, ◌<◌, ◌≡◌, ◌↔◌, refl, List, [], ◌∷◌, length, take}
use ax10m.Ledger.{
  Hashing, LedgerEntry, EntryInput, holdout_assigned, case_recovered, valid, broken_at,
  hash_mismatch, append, next_entry, verify_chain,
}
use ax10m.Ledger.JsonValue.{
  Json, Items, Fields, null, bool, num, text, arr, obj, nil, cons, end, field,
}
use ax10m.Ledger.Chain.{commit_all, inputs, verify_chain_iff, append-verify}
use ax10m.Ledger.Break.{broken_at-first}
use ax10m.Ledger.Tamper.{printed, hashes, head_fixes_history}

-- A digest that keeps all that it was given, so that it has no collisions.
data Link : Type 0 where
  genesis : Link
  link : Link → ℕ → Link

Link-discrete : Discrete Link
unfolding ℕ_discrete
Link-discrete = hlevel ℕ_discrete

-- A printer that counts the fields and items of a value.
mutual
  weight : Json → ℕ
  weight null = 1
  weight (bool b) = 1
  weight (num n) = 1
  weight (text s) = 1
  weight (arr xs) = weight_items xs
  weight (obj fs) = weight_fields fs

  weight_items : Items → ℕ
  weight_items nil = 1
  weight_items (cons x xs) = weight x + weight_items xs

  weight_fields : Fields → ℕ
  weight_fields end = 1
  weight_fields (field k v fs) = weight v + weight_fields fs

abbrev linking : Hashing
linking = record {
  Text = ℕ;
  Digest = Link;
  decimal = λ n. "0";
  stringify = weight;
  digest = link;
  genesis_hash = genesis;
  same = Link-discrete;
}

abbrev assigned : EntryInput
assigned = record {
  merchant_id = "m1";
  type = holdout_assigned;
  occurred_at = "2026-08-01T00:00:00.000Z";
  detail = obj (field "bucket" (text "treatment") end);
}

abbrev recovered_case : EntryInput
recovered_case = record assigned {
  type = case_recovered;
  detail = obj (field "amount" (num "900") end);
}

abbrev ledger : List (LedgerEntry linking)
ledger = append linking (append linking [] assigned) recovered_case

link_injective : (p q : Link) (s t : ℕ) → link p s ≡ link q t → (p ≡ q) × (s ≡ t)
link_injective p q s t e = (cc, cc)

verify_chain_iff_example :
    (verify_chain linking ledger ≡ valid) ↔ (ledger ≡ commit_all linking (inputs linking ledger) [])
verify_chain_iff_example = verify_chain_iff linking ledger

empty-valid : verify_chain linking [] ≡ valid
unfolding verify_chain
empty-valid = refl

ledger-valid : verify_chain linking ledger ≡ valid
ledger-valid =
    (append-verify linking (append linking [] assigned) recovered_case
      (append-verify linking [] assigned empty-valid).0).0

head_fixes_history_example :
    (printed linking link_injective ledger ≡ printed linking link_injective ledger)
    × (hashes linking link_injective ledger ≡ hashes linking link_injective ledger)
head_fixes_history_example =
    head_fixes_history linking link_injective ledger ledger refl ledger-valid ledger-valid refl

-- An entry whose stored hash is not that of its content.
abbrev forged : List (LedgerEntry linking)
forged = record (next_entry linking [] assigned) { hash = genesis } ∷ []

forged-broken : verify_chain linking forged ≡ broken_at 0 hash_mismatch
unfolding verify_chain next_entry Link-discrete
forged-broken = refl

broken_at-first_example :
    (0 < length forged)
    × (verify_chain linking (take 0 forged) ≡ valid)
    × (verify_chain linking (take 1 forged) ≡ broken_at 0 hash_mismatch)
broken_at-first_example = broken_at-first linking forged 0 hash_mismatch forged-broken
