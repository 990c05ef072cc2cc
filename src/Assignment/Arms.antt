-- ===== src/Assignment/Arms.antt =====
-- A unit keeps its arm (packages/attribution/src/holdout.ts, `assign`).
use ax10m.Common.{
  ◌≡◌, ◌≢◌, refl, sym, ap, ◌∙◌, Bool, true, false, String, Option, none, some, if◌then◌else◌, inl,
  inr, Bool-cases, arith, map_option, ◌||◌, not,
}
use text.Mathlib.TextEquality.{eq_iff}
use ax10m.Billing.{Numbers}
use ax10m.Reconciliation.{Arm, control, treatment}
use ax10m.Assignment.{
  Hashed, HoldoutConfig, AssignmentInput, Assignment, assign, assigned, known_customer, Stratum,
}

-- The order of the numbers that are compared: what is below a number is below any that is not less.
abbrev pub Ordered : Numbers → Type 0
Ordered N = (x a b : N.Real) → N.lt x a ≡ true → N.lt b a ≡ false → N.lt x b ≡ true

module _ (N : Numbers) (hashed : Hashed) where
  -- The arm that a successful assignment gives.
  abbrev pub arm : Option (Assignment (N.Real)) → Option Arm
  arm = map_option (λ a. a.bucket)

  known : (c : String) → c ≢ "" → known_customer (some c) ≡ some c
  known c h = ground (arith, h, eq_iff c "")

  -- The arm and the key under which it was drawn.
  abbrev pub drawn : Assignment (N.Real) → Arm × String
  drawn a = (a.bucket, a.bucket_key)

  abbrev out_of_range : N.Real → Bool
  out_of_range f = N.lt f (N.ratio 0 1) || not (N.lt f (N.ratio 1 1))

  assign-in :
      (input : AssignmentInput) (config : HoldoutConfig (N.Real))
      → out_of_range config.control_fraction ≡ false
      → assign N hashed input config ≡ some (assigned N hashed input config)
  unfolding assign
  assign-in input config h = rw h refl

  assign-out :
      (input : AssignmentInput) (config : HoldoutConfig (N.Real))
      → out_of_range config.control_fraction ≡ true
      → assign N hashed input config ≡ none
  unfolding assign
  assign-out input config h = rw h refl

  abbrev invoice_of : String → String → String → Stratum → AssignmentInput
  invoice_of merchant customer i s = record {
    merchant_id = merchant;
    customer_id = some customer;
    invoice_id = i;
    stratum = s;
  }

  drawn_same :
      (config : HoldoutConfig (N.Real)) (merchant customer i j : String) (s t : Stratum)
      → customer ≢ ""
      → drawn (assigned N hashed (invoice_of merchant customer i s) config)
        ≡ drawn (assigned N hashed (invoice_of merchant customer j t) config)
  drawn_same config merchant customer i j s t h = rw (known customer h) refl

  -- Two invoices of one customer of a merchant are in one arm, drawn under one key, whatever their
  -- strata.
  pub assign_customer :
      (config : HoldoutConfig (N.Real)) (merchant customer i j : String) (s t : Stratum)
      → customer ≢ ""
      → map_option drawn (
          assign N hashed
            (record {
              merchant_id = merchant;
              customer_id = some customer;
              invoice_id = i;
              stratum = s;
            })
            config)
        ≡ map_option drawn (
            assign N hashed
              (record {
                merchant_id = merchant;
                customer_id = some customer;
                invoice_id = j;
                stratum = t;
              })
              config)
  assign_customer config merchant customer i j s t h =
      let a = invoice_of merchant customer i s in
      let b = invoice_of merchant customer j t in
      elim (Bool-cases (out_of_range config.control_fraction)) [
        | inl e ↦ ap (map_option drawn) (assign-out a config e ∙ sym (assign-out b config e))
        | inr e ↦
            ap (map_option drawn) (assign-in a config e)
            ∙ (ap some (drawn_same config merchant customer i j s t h)
                ∙ sym (ap (map_option drawn) (assign-in b config e)))
      ]

  control_of : (b : Bool) → some (if b then control else treatment) ≡ some control → b ≡ true
  control_of b h = ground (arith, h)

  none_control : none ≡ some control → ⊥
  none_control e = absurd (cc)

  in_control : (b : Bool) → b ≡ true → some (if b then control else treatment) ≡ some control
  in_control b h = rw h refl

  -- If the numbers are ordered, raising the control fraction within its range takes no unit out of
  -- control.
  pub assign-control_mono :
      Ordered N
      → (config : HoldoutConfig (N.Real)) (wider : N.Real) (input : AssignmentInput)
      → N.lt wider config.control_fraction ≡ false
      → assign N hashed input (record config { control_fraction = wider }) ≢ none
      → arm (assign N hashed input config) ≡ some control
      → arm (assign N hashed input (record config { control_fraction = wider })) ≡ some control
  assign-control_mono o config wider input h n e =
      let up : HoldoutConfig (N.Real) = record config { control_fraction = wider } in
      elim (Bool-cases (out_of_range wider)) [
        | inl r ↦ absurd (n (assign-out input up r))
        | inr r ↦ elim (Bool-cases (out_of_range config.control_fraction)) [
          | inl q ↦ absurd (none_control (sym (ap arm (assign-out input config q)) ∙ e))
          | inr q ↦
              let position = (assigned N hashed input config).position in
              let below =
                o position config.control_fraction wider
                  (control_of (N.lt position config.control_fraction)
                    (sym (ap arm (assign-in input config q)) ∙ e))
                  h in
              ap arm (assign-in input up r) ∙ in_control (N.lt position wider) below
        ]
      ]
