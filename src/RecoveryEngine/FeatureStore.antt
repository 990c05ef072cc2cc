-- ===== src/RecoveryEngine/FeatureStore.antt =====
-- The feature store of packages/recovery-engine/src/feature-store.ts: what is known of a customer and
-- of the issuer of a card, and the features of a failure that are read from it. An instant is what
-- `Date.parse` reads of a text, none if it rejects the text; a text that is left out is none once more.
pub mod Lookup
use Prim.Native.Char.{Char, code}
use Prim.Native.String.{◌++◌ as ◌<>◌, count}
use text.Mathlib.Text.{starts_with}
use ax10m.Common.{
  ℕ, ◌+◌, ◌-◌, Bool, true, false, ◌&&◌, String, Option, none, some, List, [], ◌∷◌, map_option,
  or_else, ltb, leb, if◌then◌else◌,
}
use ax10m.Common.Int.{ℤ, pos}
use ax10m.Common.Dict.{Dict, lookup, insert, str_eq}
use ax10m.Canonical.{DeclineCode}
use ax10m.Billing.{Numbers}
use ax10m.RecoveryEngine.{
  IssuerRegion, unknown_region, CardProductType, unknown_type, RecoveryFeatures,
}
use ax10m.RecoveryEngine.Sequence.{otherwise}

pub record BinInfo : Type 0 where
  pub region : IssuerRegion
  pub issuer_id : Option String
  pub country : Option String
  pub brand : Option String
  pub card_type : Option CardProductType

pub record BinRange : Type 0 where
  pub prefix : String
  pub info : BinInfo

-- `UNKNOWN_BIN`
abbrev pub unknown_bin : BinInfo
unknown_bin = record {
  region = unknown_region;
  issuer_id = none;
  country = none;
  brand = none;
  card_type = none;
}

abbrev pub is_digit : Char → Bool
is_digit c = leb b'0' (code c) && leb (code c) b'9'

-- `bin.replace(/\D/g, '')`
abbrev pub digits_of : String → String
digits_of String.[] = String.[]
digits_of (String.◌∷◌ c s) = if is_digit c then String.◌∷◌ c (digits_of s) else digits_of s

-- `ranges.slice().sort((a, b) => b.prefix.length - a.prefix.length)`: stable, longest first.
abbrev pub insert_range : BinRange → List BinRange → List BinRange
insert_range r [] = r ∷ []
insert_range r (q ∷ qs) =
    if leb (count q.prefix) (count r.prefix) then r ∷ q ∷ qs else q ∷ insert_range r qs

unfoldable pub bin_region_index : List BinRange → List BinRange
bin_region_index [] = []
bin_region_index (r ∷ rs) = insert_range r (bin_region_index rs)

-- The loop of `lookup` over the sorted ranges.
unfoldable pub first_match : String → List BinRange → BinInfo
first_match digits [] = unknown_bin
first_match digits (r ∷ rs) = if starts_with digits r.prefix then r.info else first_match digits rs

-- A card number that is left out, or empty, is unknown.
unfoldable pub bin_lookup : List BinRange → Option String → BinInfo
bin_lookup index none = unknown_bin
bin_lookup index (some bin) =
    if str_eq bin "" then unknown_bin else first_match (digits_of bin) index

abbrev pub Instant : Type 0
Instant = Option ℕ

pub record CustomerAgg : Type 0 where
  pub total : ℕ
  pub recovered : ℕ
  pub first_seen : Instant
  pub created_at : Option Instant

pub record IssuerAgg : Type 0 where
  pub total : ℕ
  pub recovered : ℕ

pub record FeatureStore : Type 0 where
  pub customers : Dict CustomerAgg
  pub issuers : Dict IssuerAgg

abbrev pub customer_key : String → String → String
customer_key merchant customer = merchant <> ":" <> customer

-- The first n characters of a text, `s.slice(0, n)`.
abbrev pub take_chars : ℕ → String → String
take_chars n String.[] = String.[]
take_chars n (String.◌∷◌ c s) = if leb n 0 then String.[] else String.◌∷◌ c (take_chars (n - 1) s)

abbrev pub issuer_key_for : List BinRange → Option String → Option String
issuer_key_for index none = none
issuer_key_for index (some bin) =
    if str_eq bin ""
    then none
    else some (or_else (bin_lookup index (some bin)).issuer_id (take_chars 8 (digits_of bin)))

-- `Date.parse(a) < Date.parse(b)`
abbrev pub is_before : Instant → Instant → Bool
is_before (some a) (some b) = ltb a b
is_before _ _ = false

abbrev pub seen_again : Instant → Option Instant → CustomerAgg → CustomerAgg
seen_again now created c = record c {
  first_seen = if is_before now c.first_seen then now else c.first_seen;
  created_at = otherwise c.created_at created;
}

abbrev pub observed : Instant → Option Instant → Option CustomerAgg → CustomerAgg
observed now created none = record {
  total = 0;
  recovered = 0;
  first_seen = now;
  created_at = created;
}
observed now created (some c) = seen_again now created c

unfoldable pub observe : FeatureStore → String → String → Instant → Option Instant → FeatureStore
observe fs merchant customer now created =
    let key = customer_key merchant customer in
    record fs {
      customers = insert key (observed now created (lookup key fs.customers)) fs.customers;
    }

abbrev pub customer_after : Bool → CustomerAgg → CustomerAgg
customer_after recovered c = record c {
  total = c.total + 1;
  recovered = c.recovered + (if recovered then 1 else 0);
}

abbrev pub issuer_after : Bool → IssuerAgg → IssuerAgg
issuer_after recovered a = record {
  total = a.total + 1;
  recovered = a.recovered + (if recovered then 1 else 0);
}

abbrev pub unseen : Instant → CustomerAgg
unseen now = record { total = 0; recovered = 0; first_seen = now; created_at = none }

-- `if (ik) { … }`: an empty key is no key.
abbrev pub record_issuer : Bool → Option String → Dict IssuerAgg → Dict IssuerAgg
record_issuer recovered none issuers = issuers
record_issuer recovered (some key) issuers =
    if str_eq key ""
    then issuers
    else insert key
        (issuer_after recovered
          (or_else (lookup key issuers) (record { total = 0; recovered = 0 })))
        issuers

unfoldable pub record_outcome :
    List BinRange → FeatureStore → String → String → Option String → Bool → Instant → FeatureStore
record_outcome index fs merchant customer bin recovered now =
    let key = customer_key merchant customer in
    record {
      customers =
          insert key (customer_after recovered (or_else (lookup key fs.customers) (unseen now)))
            fs.customers;
      issuers = record_issuer recovered (issuer_key_for index bin) fs.issuers;
    }

pub record EnrichmentContext : Type 0 where
  pub merchant_id : String
  pub customer_id : String
  pub bin : Option String
  pub customer_created_at : Option Instant
  pub first_failed_at : Option Instant
  pub decline_code : DeclineCode
  pub amount_minor : ℕ
  pub currency : String
  pub attempt_number : ℕ
  pub now : Instant

pub record BetaPrior (Real : Type 0) : Type 0 where
  pub alpha : Real
  pub beta : Real

-- `a + b` on JavaScript's numbers, beside the other operations.
module _ (N : Numbers) (add : N.Real → N.Real → N.Real) where
  open N use {Real, of_int, ratio, div}

  pub record FeatureStoreConfig : Type 0 where
    pub customer_prior : BetaPrior Real
    pub issuer_prior : BetaPrior Real
    pub region_index : List BinRange

  abbrev pub shrink_rate : ℕ → ℕ → BetaPrior Real → Real
  shrink_rate successes total prior =
      div (add (of_int (pos successes)) prior.alpha)
        (add (add (of_int (pos total)) prior.alpha) prior.beta)

  -- Days from one instant to a later one; 0 if either is unknown or the order is the other.
  abbrev pub days_between : Option Instant → Instant → Real
  days_between (some (some from)) (some to) =
      if ltb from to then div (of_int (pos (to - from))) (ratio 86400000 1) else ratio 0 1
  days_between _ _ = ratio 0 1

  abbrev pub tenure_source : EnrichmentContext → Option CustomerAgg → Instant
  tenure_source ctx none = or_else ctx.customer_created_at ctx.now
  tenure_source ctx (some c) = or_else (otherwise ctx.customer_created_at c.created_at) c.first_seen

  abbrev pub customer_rate : FeatureStoreConfig → Option CustomerAgg → Real
  customer_rate config none = shrink_rate 0 0 config.customer_prior
  customer_rate config (some c) = shrink_rate c.recovered c.total config.customer_prior

  abbrev pub issuer_rate : FeatureStoreConfig → Option IssuerAgg → Real
  issuer_rate config none = shrink_rate 0 0 config.issuer_prior
  issuer_rate config (some a) = shrink_rate a.recovered a.total config.issuer_prior

  abbrev pub issuer_of : FeatureStoreConfig → FeatureStore → Option String → Option IssuerAgg
  issuer_of config fs bin = elim (issuer_key_for config.region_index bin) [
    | none ↦ none
    | some key ↦ if str_eq key "" then none else lookup key fs.issuers
  ]

  unfoldable pub enrich :
      FeatureStoreConfig → FeatureStore → EnrichmentContext → RecoveryFeatures Real
  enrich config fs ctx =
      let c = lookup (customer_key ctx.merchant_id ctx.customer_id) fs.customers in
      let info = bin_lookup config.region_index ctx.bin in
      record {
        decline_code = ctx.decline_code;
        amount_minor = ctx.amount_minor;
        currency = ctx.currency;
        issuer_region = info.region;
        card_type = some (or_else info.card_type unknown_type);
        customer_tenure_days = days_between (some (tenure_source ctx c)) ctx.now;
        prior_recovery_rate = customer_rate config c;
        attempt_number = ctx.attempt_number;
        days_since_first_fail = days_between ctx.first_failed_at ctx.now;
        issuer_approval_prior = some (issuer_rate config (issuer_of config fs ctx.bin));
      }
