-- ===== src/Assignment.antt =====
-- The randomized holdout of packages/attribution/src/holdout.ts: which arm a customer, or a guest's
-- invoice, belongs to. Of the language and its library, `Hashed` has SHA-256, the number that the
-- first 13 hexadecimal digits of a digest spell, and the joining of texts by a separator.
pub mod Arms
mod Examples
use ax10m.Common.{
  ℕ, Bool, true, false, ◌||◌, not, String, Option, none, some, List, [], ◌∷◌, if◌then◌else◌,
}
use ax10m.Common.Int.{pos}
use ax10m.Common.Dict.{str_eq}
use ax10m.Canonical.{DeclineFamily, soft, hard, gray}
use ax10m.Billing.{Numbers}
use ax10m.Reconciliation.{Arm, control, treatment}
use ax10m.RecoveryEngine.{IssuerRegion, na, emea, latam, apac, unknown_region}

pub data MrrTier : Type 0 where
  micro small mid large enterprise : MrrTier

pub record Stratum : Type 0 where
  pub mrr_tier : MrrTier
  pub decline_family : DeclineFamily
  pub issuer_region : IssuerRegion

pub record Hashed : Type 0 where
  pub join : String → List String → String
  pub top_bits : String → ℕ

pub record HoldoutConfig (Real : Type 0) : Type 0 where
  pub control_fraction : Real
  pub salt : String

pub data UnitGrain : Type 0 where
  customer_grain invoice_grain : UnitGrain

pub record AssignmentInput : Type 0 where
  pub merchant_id : String
  pub customer_id : Option String
  pub invoice_id : String
  pub stratum : Stratum

pub record Assignment (Real : Type 0) : Type 0 where
  pub bucket : Arm
  pub stratum_key : String
  pub unit_grain : UnitGrain
  pub bucket_key : String
  pub position : Real

abbrev pub tier_name : MrrTier → String
tier_name micro = "micro"
tier_name small = "small"
tier_name mid = "mid"
tier_name large = "large"
tier_name enterprise = "enterprise"

abbrev pub family_name : DeclineFamily → String
family_name soft = "soft"
family_name hard = "hard"
family_name gray = "gray"

abbrev pub region_name : IssuerRegion → String
region_name na = "na"
region_name emea = "emea"
region_name latam = "latam"
region_name apac = "apac"
region_name unknown_region = "unknown"

-- The customer that is known: null and the empty text are guests.
abbrev pub known_customer : Option String → Option String
known_customer none = none
known_customer (some c) = if str_eq c "" then none else some c

module _ (N : Numbers) (hashed : Hashed) where
  open N use {Real, of_int, ratio, div, lt}
  open hashed use {join, top_bits}

  abbrev pub stratum_key_of : Stratum → String
  stratum_key_of s =
      join "|"
        (tier_name s.mrr_tier ∷ family_name s.decline_family ∷ region_name s.issuer_region ∷ [])

  abbrev pub hash_to_unit_interval : String → Real
  hash_to_unit_interval material = div (of_int (pos (top_bits material))) (ratio 4503599627370496 1)

  abbrev pub material_of : String → AssignmentInput → Option String → String
  material_of salt input none =
      join ":" (salt ∷ input.merchant_id ∷ "guest" ∷ input.invoice_id ∷ [])
  material_of salt input (some customer) = join ":" (salt ∷ input.merchant_id ∷ customer ∷ [])

  abbrev pub grain_of : Option String → UnitGrain
  grain_of none = invoice_grain
  grain_of (some customer) = customer_grain

  abbrev pub assigned : AssignmentInput → HoldoutConfig Real → Assignment Real
  assigned input config =
      let customer = known_customer input.customer_id in
      let material = material_of config.salt input customer in
      let position = hash_to_unit_interval material in
      record {
        bucket = if lt position config.control_fraction then control else treatment;
        stratum_key = stratum_key_of input.stratum;
        unit_grain = grain_of customer;
        bucket_key = material;
        position = position;
      }

  -- A control fraction outside [0, 1) throws.
  unfoldable pub assign : AssignmentInput → HoldoutConfig Real → Option (Assignment Real)
  assign input config =
      if lt config.control_fraction (ratio 0 1) || not (lt config.control_fraction (ratio 1 1))
      then none
      else some (assigned input config)
