-- ===== src/Billing/OptIn/Complete.antt =====
-- A submission has no error exactly when it is complete, and what an account stores (packages/billing/
-- src/account.ts, `validateOptIn` and `buildBillingAccount`).
use ax10m.Common.{
  ◌≡◌, ◌≢◌, ◌↔◌, refl, Bool, true, false, ◌&&◌, not, String, Option, none, some, List, [], ◌∷◌,
  arith, or_else, ◌==◌,
}
use ax10m.Billing.{Numbers, PayerTrack, auto_pay, invoice_track, BillingAccount}
use ax10m.Billing.OptIn.{
  Texts, OptInError, OptInInput, is_auto_pay, push_error, push_either, is_blank_text, is_blank,
  looks_like_pan, pan_errors, track_errors, signer_errors, address_errors, validate_opt_in,
  if_auto_pay, account_of, account_unless, build_billing_account,
}

push_error-none :
    (b : Bool) (e : OptInError) (rest : List OptInError)
    → (push_error b e rest ≡ []) ↔ ((b ≡ false) × (rest ≡ []))
push_error-none true e rest = (λ q. absurd (cc), λ q. absurd (cc))
push_error-none false e rest = (λ q. (refl, q), λ q. q.1)

push_either-none :
    (b c : Bool) (e f : OptInError) (rest : List OptInError)
    → (push_either b e c f rest ≡ []) ↔ ((b ≡ false) × (c ≡ false) × (rest ≡ []))
push_either-none true c e f rest = (λ q. absurd (cc), λ q. absurd (cc))
push_either-none false true e f rest = (λ q. absurd (cc), λ q. absurd (cc))
push_either-none false false e f rest = (λ q. (refl, refl, q), λ q. q.2)

module _ (texts : Texts) where
  -- A text that says something, one that is an address, and one that is given and says something.
  abbrev pub Said : String → Type 0
  Said s = is_blank_text texts s ≡ false

  abbrev pub Given : Option String → Type 0
  Given none = ⊥
  Given (some s) = Said s

  abbrev pub NoCard : Option String → Type 0
  NoCard s = looks_like_pan texts s ≡ false

  module _ (Real : Type 0) where
    -- What is needed to bill the company, in no order.
    pub record IsComplete (i : OptInInput Real) : Type 0 where
      pub names : Said i.merchant_id × Said i.legal_entity_name
      pub address :
          Said i.billing_address.line1
          × Said i.billing_address.city
          × Said i.billing_address.region
          × Said i.billing_address.postal_code
          × Said i.billing_address.country
      pub two_letters : texts.length (texts.trim i.billing_address.country) ≡ 2
      pub contact : Said i.ap_contact_email × (texts.is_email i.ap_contact_email ≡ true)
      pub signed :
          Said i.signer.name
          × Said i.signer.title
          × Said i.signer.email_address
          × (texts.is_email i.signer.email_address ≡ true)
      pub order : i.po_required ≡ true → Given i.po_number
      pub pays :
          i.payer_track ≡ auto_pay
          → Given i.payment_method_ref × (i.auto_pay_authorized ≡ some true)
      pub no_card :
          NoCard i.payment_method_ref × NoCard i.customer_ref × NoCard i.tax_id × NoCard i.po_number

    Given-iff :
        (b : Bool) (s : Option String) → ((b && is_blank texts s) ≡ false) ↔ (b ≡ true → Given s)
    Given-iff true none = (λ q e. absurd (cc), λ q. absurd (q refl))
    Given-iff true (some s) = (λ q e. q, λ q. q refl)
    Given-iff false s = (λ q e. absurd (cc), λ q. refl)

    unauthorized : (a : Option Bool) → or_else a false ≡ false → a ≡ some true → ⊥
    unauthorized a e q = absurd (cc)

    track_iff :
        (t : PayerTrack) (ref : Option String) (authorized : Option Bool)
        → (((is_auto_pay t && is_blank texts ref) ≡ false)
            × ((is_auto_pay t && not (or_else authorized false)) ≡ false))
          ↔ (t ≡ auto_pay → Given ref × (authorized ≡ some true))
    track_iff invoice_track ref authorized = (λ q e. absurd (cc), λ q. (refl, refl))
    track_iff auto_pay none authorized = (λ q. absurd (cc), λ q. absurd ((q refl).0))
    track_iff auto_pay (some s) (some true) = (λ q e. (q.0, refl), λ q. ((q refl).0, refl))
    track_iff auto_pay (some s) none =
        (λ q. absurd (cc), λ q. absurd (unauthorized none refl ((q refl).1)))
    track_iff auto_pay (some s) (some false) =
        (λ q. absurd (cc), λ q. absurd (unauthorized (some false) refl ((q refl).1)))

    pan_none :
        (i : OptInInput Real)
        → (pan_errors texts Real i ≡ []) ↔ (
            NoCard i.payment_method_ref
            × NoCard i.customer_ref
            × NoCard i.tax_id
            × NoCard i.po_number)
    pan_none i = ground arith

    track_none :
        (i : OptInInput Real)
        → (track_errors texts Real i ≡ []) ↔ (
            ((is_auto_pay i.payer_track && is_blank texts i.payment_method_ref) ≡ false)
            × ((is_auto_pay i.payer_track && not (or_else i.auto_pay_authorized false)) ≡ false)
            × (pan_errors texts Real i ≡ []))
    track_none i = chain2 _ _ _ _ (pan_errors texts Real i)
      where
        chain2 :
            (b c : Bool) (e f : OptInError) (rest : List OptInError)
            → (push_error b e (push_error c f rest) ≡ [])
              ↔ ((b ≡ false) × (c ≡ false) × (rest ≡ []))
        chain2 b c e f rest = ground arith

    signer_none :
        (i : OptInInput Real)
        → (signer_errors texts Real i ≡ []) ↔ (
            Said i.signer.name
            × Said i.signer.title
            × Said i.signer.email_address
            × (texts.is_email i.signer.email_address ≡ true)
            × ((i.po_required && is_blank texts i.po_number) ≡ false)
            × (track_errors texts Real i ≡ []))
    signer_none i = chain _ _ _ _ _ _ _ _ _ _ (track_errors texts Real i)
      where
        chain :
            (a b c d f : Bool) (e1 e2 e3 e4 e5 : OptInError) (rest : List OptInError)
            → (push_error a e1
                  (push_error b e2 (push_either c e3 (not d) e4 (push_error f e5 rest)))
                ≡ [])
              ↔ ((a ≡ false) × (b ≡ false) × (c ≡ false) × (d ≡ true) × (f ≡ false) × (rest ≡ []))
        chain a b c d f e1 e2 e3 e4 e5 rest = ground arith

    address_none :
        (i : OptInInput Real)
        → (address_errors texts Real i ≡ []) ↔ (
            Said i.billing_address.line1
            × Said i.billing_address.city
            × Said i.billing_address.region
            × Said i.billing_address.postal_code
            × Said i.billing_address.country
            × ((texts.length (texts.trim i.billing_address.country) == 2) ≡ true)
            × Said i.ap_contact_email
            × (texts.is_email i.ap_contact_email ≡ true)
            × (signer_errors texts Real i ≡ []))
    address_none i = chain _ _ _ _ _ _ _ _ _ _ _ _ _ _ _ _ (signer_errors texts Real i)
      where
        chain :
            (a b c d f g k l : Bool) (e1 e2 e3 e4 e5 e6 e7 e8 : OptInError) (rest : List OptInError)
            → (push_error a e1 (
                  push_error b e2 (
                    push_error c e3 (
                      push_error d e4
                        (push_either f e5 (not g) e6 (push_either k e7 (not l) e8 rest)))))
                ≡ [])
              ↔ ((a ≡ false)
                  × (b ≡ false)
                  × (c ≡ false)
                  × (d ≡ false)
                  × (f ≡ false)
                  × (g ≡ true)
                  × (k ≡ false)
                  × (l ≡ true)
                  × (rest ≡ []))
        chain a b c d f g k l e1 e2 e3 e4 e5 e6 e7 e8 rest = ground arith

    named_none :
        (i : OptInInput Real)
        → (validate_opt_in texts Real i ≡ [])
          ↔ (Said i.merchant_id × Said i.legal_entity_name × (address_errors texts Real i ≡ []))
    unfolding validate_opt_in
    named_none i = chain _ _ _ _ (address_errors texts Real i)
      where
        chain :
            (b c : Bool) (e f : OptInError) (rest : List OptInError)
            → (push_error b e (push_error c f rest) ≡ [])
              ↔ ((b ≡ false) × (c ≡ false) × (rest ≡ []))
        chain b c e f rest = ground arith

    IsComplete-of_valid : (i : OptInInput Real) → validate_opt_in texts Real i ≡ [] → IsComplete i
    IsComplete-of_valid i q =
        let n = (named_none i).0 q in
        let a = (address_none i).0 n.2 in
        let s = (signer_none i).0 a.8 in
        let t = (track_none i).0 s.5 in
        record {
          names = (n.0, n.1);
          address = (a.0, a.1, a.2, a.3, a.4);
          two_letters = ground (arith, a.5);
          contact = (a.6, a.7);
          signed = (s.0, s.1, s.2, s.3);
          order = (Given-iff i.po_required i.po_number).0 s.4;
          pays = (track_iff i.payer_track i.payment_method_ref i.auto_pay_authorized).0 (t.0, t.1);
          no_card = (pan_none i).0 t.2;
        }

    valid_of_complete : (i : OptInInput Real) → IsComplete i → validate_opt_in texts Real i ≡ []
    valid_of_complete i c =
        let t = (track_iff i.payer_track i.payment_method_ref i.auto_pay_authorized).1 c.pays in
        (named_none i).1 (
          c.names.0,
          c.names.1,
          (address_none i).1 (
            c.address.0,
            c.address.1,
            c.address.2,
            c.address.3,
            c.address.4,
            ground (arith, c.two_letters),
            c.contact.0,
            c.contact.1,
            (signer_none i).1 (
              c.signed.0,
              c.signed.1,
              c.signed.2,
              c.signed.3,
              (Given-iff i.po_required i.po_number).1 c.order,
              (track_none i).1 (t.0, t.1, (pan_none i).1 c.no_card),
            ),
          ),
        )

    -- A submission is found to have no error exactly when it is complete: every name and part of the
    -- address says something and the country has two letters, contact and signer can be written to, an
    -- order number is there if one is asked for, the auto-pay track has a payment method and was
    -- authorized, and no stored reference looks like a card number.
    pub validate_opt_in_iff :
        (i : OptInInput Real) → (validate_opt_in texts Real i ≡ []) ↔ IsComplete i
    validate_opt_in_iff i = (IsComplete-of_valid i, valid_of_complete i)

module _ (N : Numbers) (texts : Texts) where
  -- What an account stores of its payer.
  pub record StoresNoCard (a : BillingAccount (N.Real)) : Type 0 where
    pub no_card :
        NoCard texts a.payment_method_ref
        × NoCard texts a.customer_ref
        × NoCard texts a.tax_id
        × NoCard texts a.po_number
    pub invoiced :
        a.payer_track ≡ invoice_track → (a.payment_method_ref ≡ none) × (a.customer_ref ≡ none)
    pub charged : a.payer_track ≡ auto_pay → Given texts a.payment_method_ref

  if_auto_pay-NoCard :
      (t : PayerTrack) (ref : Option String) → NoCard texts ref → NoCard texts (if_auto_pay t ref)
  unfolding looks_like_pan
  if_auto_pay-NoCard auto_pay ref n = n
  if_auto_pay-NoCard invoice_track ref n = refl

  if_auto_pay-Given :
      (t : PayerTrack) (ref : Option String)
      → (t ≡ auto_pay → Given texts ref)
      → t ≡ auto_pay
      → Given texts (if_auto_pay t ref)
  if_auto_pay-Given auto_pay ref g e = g e
  if_auto_pay-Given invoice_track ref g e = absurd (cc)

  if_auto_pay-none :
      (t : PayerTrack) (ref : Option String) → t ≡ invoice_track → if_auto_pay t ref ≡ none
  if_auto_pay-none auto_pay ref e = absurd (cc)
  if_auto_pay-none invoice_track ref e = refl

  account_of-StoresNoCard :
      (i : OptInInput (N.Real)) (id at : String)
      → IsComplete texts (N.Real) i
      → StoresNoCard (account_of N texts i id at)
  account_of-StoresNoCard i id at c = record {
    no_card = (
      if_auto_pay-NoCard i.payer_track i.payment_method_ref c.no_card.0,
      if_auto_pay-NoCard i.payer_track i.customer_ref c.no_card.1,
      c.no_card.2,
      c.no_card.3,
    );
    invoiced = λ e. (
      if_auto_pay-none i.payer_track i.payment_method_ref e,
      if_auto_pay-none i.payer_track i.customer_ref e,
    );
    charged = if_auto_pay-Given i.payer_track i.payment_method_ref (λ e. (c.pays e).0);
  }

  -- An account is built of a complete submission, and any other is thrown back; neither payment method
  -- nor customer, tax id or order number that it stores looks like a card number, an invoiced merchant
  -- has no payment method or customer stored, and one on auto-pay has a payment method.
  pub build_billing_account-stores :
      (i : OptInInput (N.Real)) (id at : String)
      → (IsComplete texts (N.Real) i
          → (a : BillingAccount (N.Real)) × (build_billing_account N texts i id at ≡ some a)
            × StoresNoCard a)
        × (¬ IsComplete texts (N.Real) i → build_billing_account N texts i id at ≡ none)
  unfolding build_billing_account
  build_billing_account-stores i id at = (
    λ c. (
      account_of N texts i id at,
      rw ((validate_opt_in_iff texts (N.Real) i).1 c) refl,
      account_of-StoresNoCard i id at c,
    ),
    λ n.
        refused (validate_opt_in texts (N.Real) i)
          (λ e. n ((validate_opt_in_iff texts (N.Real) i).0 e)),
  )
    where
      refused : (es : List OptInError) → es ≢ [] → account_unless N texts es i id at ≡ none
      refused [] n = absurd (n refl)
      refused (e ∷ es) n = refl
