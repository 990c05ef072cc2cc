-- ===== src/Billing/Acceptance.antt =====
-- The signed acceptance of the terms (packages/billing/src/acceptance.ts, terms.ts) and the canonical
-- JSON that is hashed for it (canonical-json.ts). SHA-256, the signer and how JavaScript prints a text
-- and a number are parameters (`Signing`). Keys are compared by code points.
pub mod Stored
use Prim.Native.String.{◌++◌ as ◌++ˢ◌}
use ax10m.Common.{
  ℕ, Bool, true, false, String, Option, none, some, List, [], ◌∷◌, if◌then◌else◌, or_else,
}
use ax10m.Common.Dict.{str_eq}
use ax10m.Common.Order.{str_leb}
use ax10m.Billing.{PayerTrack, auto_pay, invoice_track, FeeSchedule, BillingAccount}
use ax10m.Billing.OptIn.{AuthorizedSigner}

-- A JSON value; `unset` is a key whose value is `undefined`.
mutual
  pub data Value : Type 0 where
    null : Value
    bool : Bool → Value
    num : String → Value
    text : String → Value
    arr : Values → Value
    obj : Members → Value

  pub data Values : Type 0 where
    nil : Values
    cons : Value → Values → Values

  pub data Members : Type 0 where
    end : Members
    member : String → Value → Members → Members
    unset : String → Members → Members

-- `sort()` on the keys, each with its printed value.
pub insert_key : String → String → List (String × String) → List (String × String)
insert_key k v [] = (k, v) ∷ []
insert_key k v ((j, w) ∷ ms) =
    if str_leb k j then (k, v) ∷ (j, w) ∷ ms else (j, w) ∷ insert_key k v ms

unfoldable pub sort_members : List (String × String) → List (String × String)
sort_members [] = []
sort_members ((k, v) ∷ ms) = insert_key k v (sort_members ms)

-- `xs.join(',')`
abbrev pub join : List String → String
join [] = ""
join (x ∷ []) = x
join (x ∷ y ∷ xs) = x ++ˢ "," ++ˢ join (y ∷ xs)

pub record TermsVersion : Type 0 where
  pub version : String
  pub effective_at : String
  pub body_hash : String

-- `JSON.stringify` of a text and of a number, SHA-256 in hexadecimal, and the signer.
pub record Signing (Real : Type 0) : Type 0 where
  pub quote : String → String
  pub decimal_of : Real → String
  pub decimal : ℕ → String
  pub sha256_hex : String → String
  pub sign : String → String
  pub key_id : String

pub record AcceptanceRecord (Real : Type 0) : Type 0 where
  pub account_id : String
  pub merchant_id : String
  pub terms_version : String
  pub terms_hash : String
  pub fee_schedule : FeeSchedule Real
  pub payer_track : PayerTrack
  pub auto_pay_authorized : Bool
  pub accepted_by : AuthorizedSigner
  pub accepted_at : String
  pub ip : Option String
  pub user_agent : Option String

-- The record with its signature. `core` holds the members of the record, in the order in which they are
-- in the object.
pub record SignedAcceptanceRecord : Type 0 where
  pub core : Members
  pub record_hash : String
  pub signature : String
  pub signing_key_id : String

module _ {Real : Type 0} (h : Signing Real) where
  -- `JSON.stringify(k)}:${stableStringify(obj[k])`, for each key in order.
  abbrev pub print_members : List (String × String) → List String
  print_members [] = []
  print_members ((k, v) ∷ ms) = (h.quote k ++ˢ ":" ++ˢ v) ∷ print_members ms

  unfoldable mutual
    unfolding sort_members

    pub stable_stringify : Value → String
    stable_stringify null = "null"
    stable_stringify (bool true) = "true"
    stable_stringify (bool false) = "false"
    stable_stringify (num n) = n
    stable_stringify (text s) = h.quote s
    stable_stringify (arr xs) = "[" ++ˢ join (stringify_items xs) ++ˢ "]"
    stable_stringify (obj ms) =
        "{" ++ˢ join (print_members (sort_members (stringify_members ms))) ++ˢ "}"

    pub stringify_items : Values → List String
    stringify_items nil = []
    stringify_items (cons x xs) = stable_stringify x ∷ stringify_items xs

    -- The keys that have a value, each with its value as it prints.
    pub stringify_members : Members → List (String × String)
    stringify_members end = []
    stringify_members (member k v ms) = (k, stable_stringify v) ∷ stringify_members ms
    stringify_members (unset k ms) = stringify_members ms

  abbrev pub hash_terms : String → String
  hash_terms body = h.sha256_hex body

  -- `currentTerms`, of the words of the terms.
  abbrev pub current_terms : String → TermsVersion
  current_terms body = record {
    version = "2026-08-16.v1-draft";
    effective_at = "2026-08-16";
    body_hash = hash_terms body;
  }

  abbrev pub if_set : String → Option String → Members → Members
  if_set k none ms = unset k ms
  if_set k (some s) ms = member k (text s) ms

  abbrev pub track_name : PayerTrack → String
  track_name auto_pay = "auto_pay"
  track_name invoice_track = "invoice"

  abbrev pub fee_schedule_value : FeeSchedule Real → Value
  fee_schedule_value f = obj (
      member "feeRate" (num (h.decimal_of f.fee_rate)) (
        member "currency" (text f.currency) (
          member "paymentTermsDays" (num (h.decimal f.payment_terms_days)) (
            member "lateFinanceChargeMonthlyRate"
              (num (h.decimal_of f.late_finance_charge_monthly_rate)) end))))

  abbrev pub signer_value : AuthorizedSigner → Value
  signer_value s = obj (
      member "name" (text s.name)
        (member "title" (text s.title) (member "email" (text s.email_address) end)))

  -- The members of a record, in the order in which `buildAcceptance` writes them.
  abbrev pub members_of : AcceptanceRecord Real → Members
  members_of r = member "accountId" (text r.account_id) (
      member "merchantId" (text r.merchant_id) (
        member "termsVersion" (text r.terms_version) (
          member "termsHash" (text r.terms_hash) (
            member "feeSchedule" (fee_schedule_value r.fee_schedule) (
              member "payerTrack" (text (track_name r.payer_track)) (
                member "autoPayAuthorized" (bool r.auto_pay_authorized) (
                  member "acceptedBy" (signer_value r.accepted_by) (
                    member "acceptedAt" (text r.accepted_at)
                      (if_set "ip" r.ip (if_set "userAgent" r.user_agent end))))))))))

  unfoldable pub sign_acceptance : AcceptanceRecord Real → SignedAcceptanceRecord
  unfolding stable_stringify
  sign_acceptance r =
      let record_hash = h.sha256_hex (stable_stringify (obj (members_of r))) in
      record {
        core = members_of r;
        record_hash = record_hash;
        signature = h.sign record_hash;
        signing_key_id = h.key_id;
      }

  unfoldable pub acceptance_hash_matches : SignedAcceptanceRecord → Bool
  unfolding stable_stringify
  acceptance_hash_matches s = str_eq (h.sha256_hex (stable_stringify (obj s.core))) s.record_hash

  pub record AcceptanceParams : Type 0 where
    pub account : BillingAccount Real
    pub accepted_by : AuthorizedSigner
    pub accepted_at : String
    pub auto_pay_authorized : Bool
    pub terms : Option TermsVersion
    pub ip : Option String
    pub user_agent : Option String

  abbrev pub acceptance_of : String → AcceptanceParams → AcceptanceRecord Real
  acceptance_of body p =
      let t = or_else p.terms (current_terms body) in
      record {
        account_id = p.account.account_id;
        merchant_id = p.account.merchant_id;
        terms_version = t.version;
        terms_hash = t.body_hash;
        fee_schedule = p.account.fee_schedule;
        payer_track = p.account.payer_track;
        auto_pay_authorized = p.auto_pay_authorized;
        accepted_by = p.accepted_by;
        accepted_at = p.accepted_at;
        ip = p.ip;
        user_agent = p.user_agent;
      }

  -- `buildAcceptance`, with `body` the current words of the terms.
  unfoldable pub build_acceptance : String → AcceptanceParams → SignedAcceptanceRecord
  unfolding sign_acceptance
  build_acceptance body p = sign_acceptance (acceptance_of body p)
