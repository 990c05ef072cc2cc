-- ===== src/Common/Order.antt =====
-- The order of texts by their code points: each two are ordered, and only equal ones both ways.
use Prim.Native.Nat.{◌<◌, Ordering, compare as compare_ℕ}
use Prim.Native.Char.{code}
use Prim.Native.String.{String, [], ◌∷◌, then, compare}
use Prim.Native.String.compare
use mathlib.Core.Path.{◌≡◌, refl, sym, ◌∙◌, ap, ap₂}
use mathlib.Core.Logic.{◌⊎◌, inl, inr}
use mathlib.Core.Bool.{Bool, true, false}
use native.Mathlib.Omega.{arith}
use text.Mathlib.TextEquality.{Char-path}

abbrev not_gt : Ordering → Bool
not_gt Ordering.gt = false
not_gt Ordering.lt = true
not_gt Ordering.eq = true

-- `a <= b`
abbrev pub str_leb : String → String → Bool
str_leb a b = not_gt (compare a b)

abbrev Precedes : String → String → Type 0
Precedes [] t = Unit {0}
Precedes (c ∷ s) [] = ⊥
Precedes (c ∷ s) (d ∷ t) = (code c < code d) ⊎ ((code c ≡ code d) × Precedes s t)

Precedes-total : (s t : String) → Precedes s t ⊎ Precedes t s
Precedes-total [] t = inl tt
Precedes-total (c ∷ s) [] = inr tt
Precedes-total (c ∷ s) (d ∷ t) = ground (arith, Precedes-total s t)

Precedes-antisym : (s t : String) → Precedes s t → Precedes t s → s ≡ t
Precedes-antisym [] [] h k = refl
Precedes-antisym [] (d ∷ t) h k = absurd k
Precedes-antisym (c ∷ s) [] h k = absurd h
Precedes-antisym (c ∷ s) (d ∷ t) (inl h) k = absurd (ground arith)
Precedes-antisym (c ∷ s) (d ∷ t) (inr h) (inl k) = absurd (ground arith)
Precedes-antisym (c ∷ s) (d ∷ t) (inr h) (inr k) =
    ap₂ (λ x xs. x ∷ xs) (Char-path c d h.0) (Precedes-antisym s t h.1 k.1)

Precedes-trans : (s t u : String) → Precedes s t → Precedes t u → Precedes s u
Precedes-trans [] t u h k = tt
Precedes-trans (c ∷ s) [] u h k = absurd h
Precedes-trans (c ∷ s) (d ∷ t) [] h k = absurd k
Precedes-trans (c ∷ s) (d ∷ t) (e ∷ u) (inl h) (inl k) = inl (omega (arith, h, k))
Precedes-trans (c ∷ s) (d ∷ t) (e ∷ u) (inl h) (inr k) = inl (omega (arith, h, k.0))
Precedes-trans (c ∷ s) (d ∷ t) (e ∷ u) (inr h) (inl k) = inl (omega (arith, h.0, k))
Precedes-trans (c ∷ s) (d ∷ t) (e ∷ u) (inr h) (inr k) =
    inr (h.0 ∙ k.0, Precedes-trans s t u h.1 k.1)

Precedes-of_leb : (s t : String) → str_leb s t ≡ true → Precedes s t
Precedes-of_leb [] t h = tt
Precedes-of_leb (c ∷ s) [] h = absurd (ground (arith, sym (ap not_gt (compare.cons-nil c s)) ∙ h))
Precedes-of_leb (c ∷ s) (d ∷ t) h =
    by_code (sym (ap not_gt (compare.cons-cons c d s t)) ∙ h) (Precedes-of_leb s t)
  where
    by_code :
        not_gt (then (compare_ℕ (code c) (code d)) (compare s t)) ≡ true
        → (str_leb s t ≡ true → Precedes s t)
        → Precedes (c ∷ s) (d ∷ t)
    by_code q rest = ground (arith, rest)

leb-of_Precedes : (s t : String) → Precedes s t → str_leb s t ≡ true
leb-of_Precedes [] [] h = ap not_gt compare.nil-nil
leb-of_Precedes [] (d ∷ t) h = ap not_gt (compare.nil-cons d t)
leb-of_Precedes (c ∷ s) [] h = absurd h
leb-of_Precedes (c ∷ s) (d ∷ t) h =
    ap not_gt (compare.cons-cons c d s t) ∙ by_code h (leb-of_Precedes s t)
  where
    by_code :
        Precedes (c ∷ s) (d ∷ t)
        → (Precedes s t → str_leb s t ≡ true)
        → not_gt (then (compare_ℕ (code c) (code d)) (compare s t)) ≡ true
    by_code q rest = ground (arith, rest)

pub str_leb_total : (s t : String) → (str_leb s t ≡ true) ⊎ (str_leb t s ≡ true)
str_leb_total s t = elim (Precedes-total s t) [
  | inl h ↦ inl (leb-of_Precedes s t h)
  | inr h ↦ inr (leb-of_Precedes t s h)
]

pub str_leb_antisym : (s t : String) → str_leb s t ≡ true → str_leb t s ≡ true → s ≡ t
str_leb_antisym s t h k = Precedes-antisym s t (Precedes-of_leb s t h) (Precedes-of_leb t s k)

pub str_leb_trans : (s t u : String) → str_leb s t ≡ true → str_leb t u ≡ true → str_leb s u ≡ true
str_leb_trans s t u h k =
    leb-of_Precedes s u (Precedes-trans s t u (Precedes-of_leb s t h) (Precedes-of_leb t u k))
