-- ===== src/Billing/Examples.antt =====
-- Instances of the theorems on the fee, over whole numbers that are cut off.
use Prim.Native.String.{count, ◌++◌ as ◌++ˢ◌}
use ax10m.Common.{
  String, ◌≢◌, sym, ◌==◌, not, if◌then◌else◌, [], ◌∷◌, ◌↔◌, ℕ, ◌-◌, ◌*◌, ◌/◌, ◌+◌, ◌≡◌, ◌≤◌, ap,
  refl, true, false, none, some, ltb, min, max, arith,
}
use ax10m.Common.Int.{ℤ, pos, pos_part, ◌+ℤ◌, ◌-ℤ◌, ◌≤ℤ◌}
use ax10m.Billing.{Numbers, BillingAccount, invoice_track, auto_pay, active}
use ax10m.Billing.Acceptance.{
  Signing, AcceptanceParams, Members, end, member, unset, members_of, acceptance_of,
  build_acceptance, acceptance_hash_matches,
}
use ax10m.Billing.Acceptance.Stored.{
  StoredMembers, as_is, ended, kept, dropped, swapped, followed_by, build_acceptance-matches,
}
use text.Mathlib.TextEquality.{eq_iff}
use mathlib.Core.Bool.{true≢false}
use ax10m.Billing.OptIn.{
  Texts, OptInInput, validate_opt_in, looks_like_pan, payment_method_ref_pan, build_billing_account,
}
use ax10m.Billing.OptIn.Complete.{
  IsComplete, StoresNoCard, validate_opt_in_iff, build_billing_account-stores,
}
use ax10m.Common.Dict.{str_eq}
use ax10m.Billing.Holdout.{compute_holdout_economics, compute_holdout_economics-split, max_ℤ}
use ax10m.Billing.Invoice.{
  Invoice, StatementForInvoice, invoice_as_of, build_invoice, compute_finance_charge, issued,
}
use ax10m.Billing.Invoice.Lines.{sum_items, Bills, build_invoice-adds_up}
use ax10m.Billing.Invoice.Accrual.{AtMost, Monotone, compute_finance_charge_mono}
use ax10m.Billing.Dunning.{rank, invoice_dunning_stage, invoice_dunning_stage_mono}

abbrev whole : Numbers
whole = record {
  Real = ℕ;
  of_int = pos_part;
  ratio = λ a b. a / b;
  sub = λ a b. a - b;
  mul = λ a b. a * b;
  div = λ a b. a / b;
  min_of = min;
  max_of = max;
  lt = ltb;
  round = pos;
}

pos_part_mono : (a b : ℤ) → a ≤ℤ b → pos_part a ≤ pos_part b
pos_part_mono a b h = ground arith

mul_mono : (a b c : ℕ) → a ≤ b → c * a ≤ c * b
mul_mono a b c h = let e : b ≡ a + (b - a) = omega (arith, h) in omega (arith, ap (λ x. c * x) e)

whole-Monotone : Monotone whole
whole-Monotone = record {
  of_int-AtMost = λ a b h. ground (arith, pos_part_mono a b h);
  days-AtMost = λ a b h. ground arith;
  months-AtMost = λ a b h. ground arith;
  mul-AtMost = λ a b c h k. ground (arith, mul_mono a b c (ground arith));
  round-AtMost = λ a b h. ground arith;
}

abbrev account : BillingAccount ℕ
account = record {
  account_id = "acct_1";
  merchant_id = "m_1";
  legal_entity_name = "Acme Inc";
  billing_address = record {
    line1 = "1 Main St";
    line2 = none;
    city = "Reno";
    region = "NV";
    postal_code = "89501";
    country = "US";
  };
  tax_id = none;
  ap_contact_email = "ap@acme.com";
  po_required = false;
  po_number = none;
  payer_track = invoice_track;
  payment_method_ref = none;
  customer_ref = none;
  fee_schedule = record {
    fee_rate = 1;
    currency = "USD";
    payment_terms_days = 14;
    late_finance_charge_monthly_rate = 2;
  };
  status = active;
  created_at = "2026-01-01";
}

-- Nothing is held out, and nothing is credited.
abbrev statement : StatementForInvoice
statement = record {
  merchant_id = "m_1";
  period = "2026-01";
  currency = "USD";
  fee = pos 1200;
  uplift_lower = pos 10000;
  statement_hash = "h";
  billable = true;
  gross_fee = some (pos 1200);
  holdout_credit = some (pos 0);
  estimated_holdout_cost = none;
}

abbrev first_invoice : Invoice ℕ
first_invoice = build_invoice whole (λ m p. "AX-1") account statement 1000 "bank"

split_example :
    let e = compute_holdout_economics whole (pos 1200) 10 200 0 in
    (pos 0 ≤ℤ e.net_billed)
    × (pos 0 ≤ℤ e.holdout_credit)
    × (e.holdout_credit ≤ℤ e.estimated_holdout_cost)
    × (e.net_billed +ℤ e.holdout_credit ≡ max_ℤ (pos 0) (pos 1200))
split_example = compute_holdout_economics-split whole (pos 1200) 10 200 0

statement-Bills : Bills whole statement 200 10 0
unfolding compute_holdout_economics ◌-ℤ◌
statement-Bills = (pos 1200, refl, omega arith, refl, refl)

build_invoice-adds_up_example :
    (sum_items first_invoice.line_items ≡ first_invoice.subtotal)
    × (first_invoice.total_due ≡ first_invoice.subtotal)
build_invoice-adds_up_example =
    build_invoice-adds_up whole (λ m p. "AX-1") account statement 1000 "bank" 200 10 0
      statement-Bills

first_invoice-due : first_invoice.due_at ≡ some 1209601000
unfolding build_invoice
first_invoice-due = refl

first_invoice-issued : first_invoice.status ≡ issued
unfolding build_invoice
first_invoice-issued = refl

-- Fifty days late at twice the subtotal per month.
finance_charge_run : compute_finance_charge whole first_invoice (some 5529601000) ≡ pos 2400
unfolding compute_finance_charge build_invoice
finance_charge_run = refl

rate-AtMost : AtMost whole 0 (
    pos_part first_invoice.subtotal
    * first_invoice.fee_schedule_snapshot.late_finance_charge_monthly_rate)
unfolding build_invoice
rate-AtMost = refl

compute_finance_charge-mono_example :
    compute_finance_charge whole first_invoice (some 1000)
    ≤ℤ compute_finance_charge whole first_invoice (some 5529601000)
compute_finance_charge-mono_example =
    compute_finance_charge_mono whole whole-Monotone first_invoice 1000 5529601000 rate-AtMost
      (omega arith)

invoice_dunning_stage-mono_example :
    (rank (invoice_dunning_stage first_invoice (some 1000))
      ≤ rank (invoice_dunning_stage first_invoice (some 5529601000)))
    × (invoice_dunning_stage (invoice_as_of whole first_invoice (some 1000)) (some 5529601000)
        ≡ invoice_dunning_stage first_invoice (some 5529601000))
invoice_dunning_stage-mono_example =
    invoice_dunning_stage_mono whole first_invoice 1000 5529601000 (omega arith)

abbrev texts : Texts
texts = record {
  length = count;
  trim = λ s. s;
  is_email = λ s. not (str_eq s "nobody");
  pan_match = λ s. if str_eq s "4111111111111111" then some s else none;
  without_separators = λ s. s;
}

abbrev submission : OptInInput ℕ
submission = record {
  merchant_id = "m_1";
  legal_entity_name = "Acme";
  billing_address = record {
    line1 = "1 Main St";
    line2 = none;
    city = "Springfield";
    region = "IL";
    postal_code = "62701";
    country = "US";
  };
  tax_id = none;
  ap_contact_email = "ap@acme.test";
  po_required = false;
  po_number = none;
  payer_track = auto_pay;
  payment_method_ref = some "pm_1";
  customer_ref = some "cus_1";
  signer = record { name = "A. Signer"; title = "CFO"; email_address = "cfo@acme.test" };
  auto_pay_authorized = some true;
  fee_schedule = none;
}

-- A card number in the place of the payment method.
card_refused :
    validate_opt_in texts ℕ (record submission { payment_method_ref = some "4111111111111111" })
    ≡ payment_method_ref_pan ∷ []
unfolding validate_opt_in looks_like_pan
card_refused = refl

validate_opt_in_iff_example :
    (validate_opt_in texts ℕ submission ≡ []) ↔ IsComplete texts ℕ submission
validate_opt_in_iff_example = validate_opt_in_iff texts ℕ submission

build_billing_account-stores_example :
    (IsComplete texts ℕ submission
      → (a : BillingAccount ℕ) × (build_billing_account whole texts submission "acct_1" "2026-08-01"
          ≡ some a)
        × StoresNoCard whole texts a)
    × (¬ IsComplete texts ℕ submission
        → build_billing_account whole texts submission "acct_1" "2026-08-01" ≡ none)
build_billing_account-stores_example =
    build_billing_account-stores whole texts submission "acct_1" "2026-08-01"

abbrev signing : Signing ℕ
signing = record {
  quote = λ s. "'" ++ˢ s ++ˢ "'";
  decimal_of = λ n. if n == 0 then "0" else "1";
  decimal = λ n. if n == 0 then "0" else "14";
  sha256_hex = λ s. "#" ++ˢ s;
  sign = λ s. "signed " ++ˢ s;
  key_id = "key_1";
}

abbrev acceptance : AcceptanceParams signing
acceptance = record {
  account = account;
  accepted_by = record { name = "A. Signer"; title = "CFO"; email_address = "cfo@acme.test" };
  accepted_at = "2026-08-01";
  auto_pay_authorized = false;
  terms = none;
  ip = none;
  user_agent = some "browser";
}

abbrev signed_members : Members
signed_members = members_of signing (acceptance_of signing "terms" acceptance)

abbrev without_unset : Members → Members
without_unset end = end
without_unset (member k v ms) = member k v (without_unset ms)
without_unset (unset k ms) = without_unset ms

without_unset-Stored : (ms : Members) → StoredMembers ms (without_unset ms)
without_unset-Stored end = ended
without_unset-Stored (member k v ms) = kept as_is (without_unset-Stored ms)
without_unset-Stored (unset k ms) = dropped (without_unset-Stored ms)

abbrev account_key : String
account_key = "accountId"

abbrev merchant_key : String
merchant_key = "merchantId"

keys_differ : account_key ≢ merchant_key
keys_differ e = true≢false (sym ((eq_iff account_key merchant_key).1 e))

-- `members` without the unset `ip`, and the merchant in front of the account.
abbrev reordered : Members → Members
reordered (member j v (member k w ms)) = member k w (member j v (without_unset ms))
reordered ms = ms

acceptance-Stored : StoredMembers signed_members (reordered signed_members)
acceptance-Stored =
    followed_by (kept as_is (kept as_is (without_unset-Stored _))) (swapped keys_differ)

build_acceptance-matches_example :
    (acceptance_hash_matches signing (build_acceptance signing "terms" acceptance) ≡ true)
    × (acceptance_hash_matches signing
          (record (build_acceptance signing "terms" acceptance) { core = reordered signed_members })
        ≡ true)
unfolding build_acceptance
build_acceptance-matches_example =
    build_acceptance-matches signing "terms" acceptance (reordered signed_members) acceptance-Stored
