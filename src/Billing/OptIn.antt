-- ===== src/Billing/OptIn.antt =====
-- The opt-in of a merchant (packages/billing/src/account.ts): what is wrong with a submission, and the
-- account that is built from one with nothing wrong. The submission has the type that the source gives
-- it, so that the guards against a missing address or signer and an unknown track do not act. The
-- strings' `length`, `trim` and the two regular expressions are given (`Texts`).
pub mod Complete
use ax10m.Common.{
  ℕ, Bool, true, false, ◌&&◌, ◌||◌, not, String, Option, none, some, List, [], ◌∷◌, leb, ◌==◌,
  if◌then◌else◌, or_else,
}
use ax10m.Common.Dict.{str_eq}
use ax10m.Billing.{
  Numbers, PayerTrack, auto_pay, invoice_track, active, PostalAddress, FeeSchedule, BillingAccount,
}

-- `pan_match` is the text that `PAN_RE` matches first, `without_separators` drops its blanks and dashes.
pub record Texts : Type 0 where
  pub length : String → ℕ
  pub trim : String → String
  pub is_email : String → Bool
  pub pan_match : String → Option String
  pub without_separators : String → String

pub record AuthorizedSigner : Type 0 where
  pub name : String
  pub title : String
  pub email_address : String

pub data OptInError : Type 0 where
  merchant_id_required legal_entity_name_required line1_required city_required : OptInError
  region_required postal_code_required country_required country_not_iso : OptInError
  ap_contact_email_required ap_contact_email_invalid : OptInError
  signer_name_required signer_title_required : OptInError
  signer_email_required signer_email_invalid : OptInError
  po_number_required payment_method_ref_required auto_pay_not_authorized : OptInError
  payment_method_ref_pan customer_ref_pan tax_id_pan po_number_pan : OptInError

pub record OptInInput (Real : Type 0) : Type 0 where
  pub merchant_id : String
  pub legal_entity_name : String
  pub billing_address : PostalAddress
  pub tax_id : Option String
  pub ap_contact_email : String
  pub po_required : Bool
  pub po_number : Option String
  pub payer_track : PayerTrack
  pub payment_method_ref : Option String
  pub customer_ref : Option String
  pub signer : AuthorizedSigner
  pub auto_pay_authorized : Option Bool
  pub fee_schedule : Option (FeeSchedule Real)

abbrev pub is_auto_pay : PayerTrack → Bool
is_auto_pay auto_pay = true
is_auto_pay invoice_track = false

-- `errors.push(e)` if `b`, and the checks that follow.
abbrev pub push_error : Bool → OptInError → List OptInError → List OptInError
push_error b e rest = if b then e ∷ rest else rest

-- One error if the text is blank, else another if it is not as it should be.
abbrev pub push_either : Bool → OptInError → Bool → OptInError → List OptInError → List OptInError
push_either blank e wrong f rest = if blank then e ∷ rest else push_error wrong f rest

module _ (texts : Texts) where
  abbrev pub is_blank_text : String → Bool
  is_blank_text s = str_eq s "" || (texts.length (texts.trim s) == 0)

  abbrev pub is_blank : Option String → Bool
  is_blank none = true
  is_blank (some s) = is_blank_text s

  abbrev pub digits_of_pan : Option String → Bool
  digits_of_pan none = false
  digits_of_pan (some m) = let n = texts.length (texts.without_separators m) in leb 13 n && leb n 19

  unfoldable pub looks_like_pan : Option String → Bool
  looks_like_pan none = false
  looks_like_pan (some s) = if str_eq s "" then false else digits_of_pan (texts.pan_match s)

  module _ (Real : Type 0) where
    abbrev pub pan_errors : OptInInput Real → List OptInError
    pan_errors i = push_error (looks_like_pan i.payment_method_ref) payment_method_ref_pan (
        push_error (looks_like_pan i.customer_ref) customer_ref_pan (
          push_error (looks_like_pan i.tax_id) tax_id_pan
            (push_error (looks_like_pan i.po_number) po_number_pan [])))

    abbrev pub track_errors : OptInInput Real → List OptInError
    track_errors i =
        push_error (is_auto_pay i.payer_track && is_blank i.payment_method_ref)
          payment_method_ref_required
          (push_error (is_auto_pay i.payer_track && not (or_else i.auto_pay_authorized false))
            auto_pay_not_authorized (pan_errors i))

    abbrev pub signer_errors : OptInInput Real → List OptInError
    signer_errors i = push_error (is_blank_text i.signer.name) signer_name_required (
        push_error (is_blank_text i.signer.title) signer_title_required (
          push_either (is_blank_text i.signer.email_address) signer_email_required
            (not (texts.is_email i.signer.email_address)) signer_email_invalid
            (push_error (i.po_required && is_blank i.po_number) po_number_required
              (track_errors i))))

    abbrev pub address_errors : OptInInput Real → List OptInError
    address_errors i =
        let a = i.billing_address in
        push_error (is_blank_text a.line1) line1_required (
          push_error (is_blank_text a.city) city_required (
            push_error (is_blank_text a.region) region_required (
              push_error (is_blank_text a.postal_code) postal_code_required (
                push_either (is_blank_text a.country) country_required
                  (not (texts.length (texts.trim a.country) == 2)) country_not_iso
                  (push_either (is_blank_text i.ap_contact_email) ap_contact_email_required
                    (not (texts.is_email i.ap_contact_email)) ap_contact_email_invalid
                    (signer_errors i))))))

    unfoldable pub validate_opt_in : OptInInput Real → List OptInError
    validate_opt_in i = push_error (is_blank_text i.merchant_id) merchant_id_required (
        push_error (is_blank_text i.legal_entity_name) legal_entity_name_required
          (address_errors i))

abbrev pub if_auto_pay : PayerTrack → Option String → Option String
if_auto_pay auto_pay ref = ref
if_auto_pay invoice_track ref = none

module _ (N : Numbers) (texts : Texts) where
  open N use {Real, ratio}

  -- `DEFAULT_FEE_SCHEDULE`
  abbrev pub default_fee_schedule : FeeSchedule Real
  default_fee_schedule = record {
    fee_rate = ratio 12 100;
    currency = "USD";
    payment_terms_days = 14;
    late_finance_charge_monthly_rate = ratio 15 1000;
  }

  abbrev pub account_of : OptInInput Real → String → String → BillingAccount Real
  account_of i account_id created_at = record {
    account_id = account_id;
    merchant_id = i.merchant_id;
    legal_entity_name = i.legal_entity_name;
    billing_address = i.billing_address;
    tax_id = i.tax_id;
    ap_contact_email = i.ap_contact_email;
    po_required = i.po_required;
    po_number = i.po_number;
    payer_track = i.payer_track;
    payment_method_ref = if_auto_pay i.payer_track i.payment_method_ref;
    customer_ref = if_auto_pay i.payer_track i.customer_ref;
    fee_schedule = or_else i.fee_schedule default_fee_schedule;
    status = active;
    created_at = created_at;
  }

  -- A submission with an error is thrown back.
  abbrev pub account_unless :
      List OptInError → OptInInput Real → String → String → Option (BillingAccount Real)
  account_unless [] i account_id created_at = some (account_of i account_id created_at)
  account_unless (e ∷ es) i account_id created_at = none

  unfoldable pub build_billing_account :
      OptInInput Real → String → String → Option (BillingAccount Real)
  unfolding validate_opt_in
  build_billing_account i account_id created_at =
      account_unless (validate_opt_in texts Real i) i account_id created_at
