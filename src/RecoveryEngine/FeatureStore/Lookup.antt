-- ===== src/RecoveryEngine/FeatureStore/Lookup.antt =====
-- The lookup of a card number finds the most specific range (feature-store.ts, `BinRegionIndex`).
use Prim.Native.String.{count}
use text.Mathlib.Text.{starts_with}
use ax10m.Common.{
  ◌≡◌, ◌≤◌, ◌⊎◌, refl, inl, inr, true, false, String, List, [], ◌∷◌, All, Any, All-map, some,
  leb→le, arith, leb, Bool-cases,
}
use ax10m.Common.Dict.{str_eq}
use ax10m.RecoveryEngine.FeatureStore.{
  BinRange, BinInfo, unknown_bin, insert_range, bin_region_index, first_match, bin_lookup,
  digits_of,
}

-- `info` comes from a range of the table that fits and is at least as long as any that fits, or no
-- range fits and it is unknown.
pub data IsMostSpecific (digits : String) (table : List BinRange) (info : BinInfo) : Type 0 where
  found :
      (r : BinRange)
      → Any (λ q. q ≡ r) table
      → starts_with digits r.prefix ≡ true
      → info ≡ r.info
      → All (λ q. starts_with digits q.prefix ≡ true → count q.prefix ≤ count r.prefix) table
      → IsMostSpecific digits table info
  unmatched :
      info ≡ unknown_bin
      → All (λ q. starts_with digits q.prefix ≡ false) table
      → IsMostSpecific digits table info

LongestFirst : List BinRange → Type 0
LongestFirst [] = Unit {0}
LongestFirst (r ∷ rs) = All (λ q. count q.prefix ≤ count r.prefix) rs × LongestFirst rs

module _ (P : BinRange → Type 0) where
  All-insert : (r : BinRange) (qs : List BinRange) → P r → All P qs → All P (insert_range r qs)
  All-insert r [] p a = (p, tt)
  All-insert r (q ∷ qs) p a = elim (Bool-cases (leb (count q.prefix) (count r.prefix))) [
    | inl e ↦ rw e (p, a)
    | inr e ↦ rw e (a.0, All-insert r qs p a.1)
  ]

  All-uninsert : (r : BinRange) (qs : List BinRange) → All P (insert_range r qs) → All P (r ∷ qs)
  All-uninsert r [] a = a
  All-uninsert r (q ∷ qs) a = elim (Bool-cases (leb (count q.prefix) (count r.prefix))) [
    | inl e ↦ rw e at a
    | inr e ↦
        let b : P q × All P (insert_range r qs) = rw e at a in
        let c = All-uninsert r qs b.1 in (c.0, (b.0, c.1))
  ]

  Any-uninsert : (r : BinRange) (qs : List BinRange) → Any P (insert_range r qs) → Any P (r ∷ qs)
  Any-uninsert r [] a = a
  Any-uninsert r (q ∷ qs) a = elim (Bool-cases (leb (count q.prefix) (count r.prefix))) [
    | inl e ↦ rw e at a
    | inr e ↦
        let b : P q ⊎ Any P (insert_range r qs) = rw e at a in
        elim b [
          | inl p ↦ inr (inl p)
          | inr s ↦ elim (Any-uninsert r qs s) [ inl p ↦ inl p | inr t ↦ inr (inr t) ]
        ]
  ]

  All-unsorted : (rs : List BinRange) → All P (bin_region_index rs) → All P rs
  unfolding bin_region_index
  All-unsorted [] a = tt
  All-unsorted (r ∷ rs) a =
      let b = All-uninsert r (bin_region_index rs) a in (b.0, All-unsorted rs b.1)

  Any-unsorted : (rs : List BinRange) → Any P (bin_region_index rs) → Any P rs
  unfolding bin_region_index
  Any-unsorted [] a = a
  Any-unsorted (r ∷ rs) a = elim (Any-uninsert r (bin_region_index rs) a) [
    | inl p ↦ inl p
    | inr s ↦ inr (Any-unsorted rs s)
  ]

longer :
    (q r : BinRange) (rs : List BinRange)
    → count q.prefix ≤ count r.prefix
    → All (λ x. count x.prefix ≤ count q.prefix) rs
    → All (λ x. count x.prefix ≤ count r.prefix) rs
longer q r rs h a = All-map rs (λ x k. omega (arith, h, k)) a

insert_range-LongestFirst :
    (r : BinRange) (qs : List BinRange) → LongestFirst qs → LongestFirst (insert_range r qs)
unfolding LongestFirst
insert_range-LongestFirst r [] l = (tt, tt)
insert_range-LongestFirst r (q ∷ qs) l = elim (Bool-cases (leb (count q.prefix) (count r.prefix))) [
  | inl e ↦
      let h : count q.prefix ≤ count r.prefix = leb→le (count q.prefix) (count r.prefix) e in
      rw e ((h, longer q r qs h l.0), l)
  | inr e ↦ rw e (
    All-insert (λ x. count x.prefix ≤ count q.prefix) r qs (ground arith) l.0,
    insert_range-LongestFirst r qs l.1,
  )
]

bin_region_index-LongestFirst : (rs : List BinRange) → LongestFirst (bin_region_index rs)
unfolding LongestFirst bin_region_index
bin_region_index-LongestFirst [] = tt
bin_region_index-LongestFirst (r ∷ rs) =
    insert_range-LongestFirst r (bin_region_index rs) (bin_region_index-LongestFirst rs)

module _ (digits : String) where
  skip :
      (r : BinRange) (rs : List BinRange) (info : BinInfo)
      → starts_with digits r.prefix ≡ false
      → IsMostSpecific digits rs info
      → IsMostSpecific digits (r ∷ rs) info
  skip r rs info h (found q i s e m) = found q (inr i) s e ((λ t. absurd (cc)), m)
  skip r rs info h (unmatched e m) = unmatched e (h, m)

  first_match-IsMostSpecific :
      (rs : List BinRange) → LongestFirst rs → IsMostSpecific digits rs (first_match digits rs)
  unfolding LongestFirst first_match
  first_match-IsMostSpecific [] l = unmatched refl tt
  first_match-IsMostSpecific (r ∷ rs) l = elim (Bool-cases (starts_with digits r.prefix)) [
    | inl e ↦ found r (inl refl) e (rw e refl) ((λ t. omega arith), All-map rs (λ q h t. h) l.0)
    | inr e ↦ rw e (skip r rs (first_match digits rs) e (first_match-IsMostSpecific rs l.1))
  ]

  unsorted :
      (rs : List BinRange) (info : BinInfo)
      → IsMostSpecific digits (bin_region_index rs) info
      → IsMostSpecific digits rs info
  unsorted rs info (found r i s e m) = found r (Any-unsorted (λ q. q ≡ r) rs i) s e (
      All-unsorted (λ q. starts_with digits q.prefix ≡ true → count q.prefix ≤ count r.prefix) rs m)
  unsorted rs info (unmatched e m) =
      unmatched e (All-unsorted (λ q. starts_with digits q.prefix ≡ false) rs m)

-- A card number that is not empty is looked up to what the longest range of the table says that its
-- digits start with, and to the unknown issuer if no range of the table fits.
pub bin_lookup-IsMostSpecific :
    (table : List BinRange) (bin : String)
    → str_eq bin "" ≡ false
    → IsMostSpecific (digits_of bin) table (bin_lookup (bin_region_index table) (some bin))
unfolding bin_lookup
bin_lookup-IsMostSpecific table bin h = rw h (
    unsorted (digits_of bin) table (first_match (digits_of bin) (bin_region_index table)) (
      first_match-IsMostSpecific (digits_of bin) (bin_region_index table)
        (bin_region_index-LongestFirst table)))
