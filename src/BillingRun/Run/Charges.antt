-- ===== src/BillingRun/Run/Charges.antt =====
-- When a billing run moves money (apps/api/src/billing/billing-run.ts).
use ax10m.Common.{
  ◌≡◌, ◌≢◌, ◌↔◌, refl, ap, ◌∙◌, ◌++◌, sym, inl, inr, Bool, true, false, ◌&&◌, String, none, List,
  [], ◌∷◌, if◌then◌else◌, arith, Bool-cases, All, All-append,
}
use ax10m.Common.Int.{pos, ltb_ℤ}
use ax10m.Billing.{Numbers}
use ax10m.Billing.Holdout.{HoldoutEconomics}
use mathlib.Core.List.{append-nil, append_assoc}
use ax10m.BillingRun.{BillingLedgerEntry}
use ax10m.BillingRun.Observations.{merchants_in_ledger}
use ax10m.BillingRun.Run.{
  Host, BillingChargeRequest, BillingRunOptions, BillingMerchantResult, SignedBillableStatement,
  RunState, bill_merchant, bill_all, run_billing, compute_merchant_statement, economics_of, collect,
  collects, statement_entry,
}

-- The host, with the requests that its charger was called with, in order.
abbrev pub watched : {Real : Type 0} → Host Real → Host Real
watched host = record {
  World = host.World × List BillingChargeRequest;
  statement = host.statement;
  append = λ w e. (host.append w.0 e, w.1);
  charge = λ w r. let (v, receipt) = host.charge w.0 r in ((v, w.1 ++ r ∷ []), receipt);
}

module _ {Real : Type 0} (opts : BillingRunOptions Real) where
  -- A charge was asked for exactly when the run is live, the statement is billable and there is
  -- something left to pay.
  abbrev pub Justified : BillingMerchantResult Real → Type 0
  Justified r = (r.charge ≢ none) ↔ (
      (opts.live ≡ true)
      × (r.signed.result.billable ≡ true)
      × (ltb_ℤ (pos 0) r.econ.net_billed ≡ true))

  -- The charge that a merchant's result calls for: the net amount, bound to the statement.
  abbrev pub due_request : BillingMerchantResult Real → List BillingChargeRequest
  due_request r =
      if opts.live && (r.signed.result.billable && ltb_ℤ (pos 0) r.econ.net_billed)
      then record {
        merchant_id = r.merchant_id;
        period = opts.period.label;
        amount = r.econ.net_billed;
        currency = r.signed.currency;
        statement_hash = r.signed.statement_hash;
      }
        ∷ []
      else []

  abbrev pub due_requests : List (BillingMerchantResult Real) → List BillingChargeRequest
  due_requests [] = []
  due_requests (r ∷ rs) = due_request r ++ due_requests rs

  due_requests-snoc :
      (rs : List (BillingMerchantResult Real)) (r : BillingMerchantResult Real)
      → due_requests (rs ++ r ∷ []) ≡ due_requests rs ++ due_request r
  due_requests-snoc [] r = append-nil _
  due_requests-snoc (x ∷ rs) r =
      ap (λ t. due_request x ++ t) (due_requests-snoc rs r)
      ∙ sym (append_assoc (due_request x) (due_requests rs) (due_request r))

all_three : (a b c : Bool) → (a && (b && c) ≡ true) ↔ ((a ≡ true) × (b ≡ true) × (c ≡ true))
all_three a b c = (λ h. ground (arith, h), λ h. ground (arith, h))

module _ (N : Numbers) (host : Host (N.Real)) (opts : BillingRunOptions (N.Real)) where
  collect-Justified :
      (m : String) (signed : SignedBillableStatement (N.Real)) (econ : HoldoutEconomics (N.Real))
      (w : host.World)
      → ((collect N host opts m signed econ w).1 ≢ none) ↔ (collects N host opts signed econ ≡ true)
  collect-Justified m signed econ w = elim (Bool-cases (collects N host opts signed econ)) [
    | inl h ↦ rw h (λ n. refl, λ e. λ n. absurd (cc))
    | inr h ↦ rw h (λ n. absurd (n refl), λ e. absurd (cc))
  ]

  bill_all-Justified :
      (s : RunState N host) (ms : List String)
      → All (Justified opts) s.merchants
      → All (Justified opts) (bill_all N host opts s ms).merchants
  unfolding bill_all
  bill_all-Justified s [] h = h
  bill_all-Justified s (m ∷ ms) h =
      let signed = compute_merchant_statement N host opts m in
      let econ = economics_of N host opts m signed.result in
      let w =
        if opts.records
        then host.append s.world (statement_entry N host opts m signed econ)
        else s.world in
      let c = collect-Justified m signed econ w in
      let t = all_three opts.live signed.result.billable (ltb_ℤ (pos 0) econ.net_billed) in
      bill_all-Justified (bill_merchant N host opts s m) ms (
        All-append (Justified opts) s.merchants (_ ∷ []) h
          (((λ n. t.0 (c.0 n), λ q. c.1 (t.1 q)), tt)))

module _ (N : Numbers) (host : Host (N.Real)) (opts : BillingRunOptions (N.Real)) where
  abbrev Watched : RunState N (watched host) → Type 0
  Watched s = s.world.1 ≡ due_requests opts s.merchants

  -- What the charger has been called with behind the collection from one merchant.
  collect-calls :
      (m : String) (signed : SignedBillableStatement (N.Real)) (econ : HoldoutEconomics (N.Real))
      (w : host.World × List BillingChargeRequest)
      → (collect N (watched host) opts m signed econ w).0.1
        ≡ w.1
          ++ due_request opts (record {
            merchant_id = m;
            period = opts.period.label;
            signed = signed;
            econ = econ;
            charge = (collect N (watched host) opts m signed econ w).1;
          })
  collect-calls m signed econ w = elim (Bool-cases (collects N (watched host) opts signed econ)) [
    | inl h ↦ rw h refl
    | inr h ↦ rw h (sym (append-nil w.1))
  ]

  append-calls :
      (b : Bool) (w : host.World × List BillingChargeRequest) (e : BillingLedgerEntry)
      → (if b then (watched host).append w e else w).1 ≡ w.1
  append-calls true w e = refl
  append-calls false w e = refl

  bill_all-Watched :
      (s : RunState N (watched host)) (ms : List String)
      → Watched s
      → Watched (bill_all N (watched host) opts s ms)
  unfolding bill_all
  bill_all-Watched s [] h = h
  bill_all-Watched s (m ∷ ms) h =
      let signed = compute_merchant_statement N (watched host) opts m in
      let econ = economics_of N (watched host) opts m signed.result in
      let e = statement_entry N (watched host) opts m signed econ in
      let w = if opts.records then (watched host).append s.world e else s.world in
      let r : BillingMerchantResult (N.Real) = record {
        merchant_id = m;
        period = opts.period.label;
        signed = signed;
        econ = econ;
        charge = (collect N (watched host) opts m signed econ w).1;
      } in
      bill_all-Watched (bill_merchant N (watched host) opts s m) ms (
        collect-calls m signed econ w
        ∙ ap (λ (t : List BillingChargeRequest). t ++ due_request opts r)
            (append-calls opts.records s.world e ∙ h)
        ∙ sym (due_requests-snoc opts s.merchants r))

  -- For any host: the charger is called once for each merchant whose statement is billable and whose
  -- net amount is positive, if the run is live, in the order of the results, for the net amount and
  -- with the hash of the statement; and it is called for nothing else. A result has a receipt exactly
  -- when its merchant is one of these.
  pub run_billing-Justified :
      (w : host.World)
      → let s = run_billing N (watched host) opts (w, []) in
        (s.world.1 ≡ due_requests opts s.merchants) × All (Justified opts) s.merchants
  unfolding run_billing
  run_billing-Justified w =
      let start : RunState N (watched host) = record {
        world = (w, []);
        merchants = [];
        total_fee = pos 0;
        total_net_billed = pos 0;
        total_charged = pos 0;
      } in
      (
        bill_all-Watched start (merchants_in_ledger opts.entries) refl,
        bill_all-Justified N (watched host) opts start (merchants_in_ledger opts.entries) tt,
      )
