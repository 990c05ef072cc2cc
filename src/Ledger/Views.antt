-- ===== src/Ledger/Views.antt =====
-- The tenant view `forMerchant` of packages/attribution/src/ledger.ts.
use ax10m.Common.{◌≡◌, refl, ◌∙◌, String, List, [], ◌∷◌, ◌++◌, All, if◌then◌else◌, arith}
use ax10m.Common.Dict.{str_eq}
use text.Mathlib.TextEquality.{eq_iff}
use ax10m.Ledger.{Hashing, LedgerEntry, EntryInput, append, next_entry, for_merchant}

module _ (h : Hashing) where
  for_merchant-append :
      (m : String) (es fs : List (LedgerEntry h))
      → for_merchant h m (es ++ fs) ≡ for_merchant h m es ++ for_merchant h m fs
  unfolding for_merchant
  for_merchant-append m [] fs = refl
  for_merchant-append m (e ∷ es) fs = ground (arith, for_merchant-append m es fs)

  owned :
      (m : String) (es : List (LedgerEntry h)) → All (λ e. e.merchant_id ≡ m) (for_merchant h m es)
  unfolding for_merchant
  owned m [] = tt
  owned m (e ∷ es) = ground (arith, eq_iff e.merchant_id m, owned m es)

  -- A merchant's view holds that merchant's entries only; committing an event adds its entry to the
  -- end of its own merchant's view and leaves every other view as it was.
  pub for_merchant-commit :
      (m : String) (es : List (LedgerEntry h)) (x : EntryInput)
      → All (λ e. e.merchant_id ≡ m) (for_merchant h m es)
        × (for_merchant h m (append h es x)
            ≡ for_merchant h m es
              ++ (if str_eq x.merchant_id m then next_entry h es x ∷ [] else []))
  unfolding append
  for_merchant-commit m es x = (
    owned m es,
    for_merchant-append m es (next_entry h es x ∷ []) ∙ (unfold for_merchant in refl),
  )
