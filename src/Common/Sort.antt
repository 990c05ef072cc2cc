-- ===== src/Common/Sort.antt =====
-- The stable sort by a numeric key: `xs.sort((a, b) => key(a) - key(b))`.
use Prim.Native.Nat.{ℕ, ◌≤◌, ◌+◌}
use mathlib.Core.Logic.{inl, inr}
use mathlib.Core.List.{List, [], ◌∷◌}
use native.Mathlib.Omega.{arith}
use ax10m.Common.Tests.{leb, if◌then◌else◌, Bool-cases}
use mathlib.Core.Path.{◌≡◌, refl}
use ax10m.Common.Lists.{length, All}

module _ {ℓ} {A : Type ℓ} (key : A → ℕ) where
  abbrev pub insert_by : A → List A → List A
  insert_by x [] = x ∷ []
  insert_by x (y ∷ ys) = if leb (key x) (key y) then x ∷ y ∷ ys else y ∷ insert_by x ys

  abbrev pub sort_by : List A → List A
  sort_by [] = []
  sort_by (x ∷ xs) = insert_by x (sort_by xs)

  abbrev pub Sorted : List A → Type 0
  Sorted [] = Unit {0}
  Sorted (x ∷ xs) = All (λ y. key x ≤ key y) xs × Sorted xs

  All-insert_by {κ} :
      (P : A → Type κ) (x : A) (ys : List A) → P x → All P ys → All P (insert_by x ys)
  All-insert_by P x [] p a = (p, tt)
  All-insert_by P x (y ∷ ys) p a = elim (Bool-cases (leb (key x) (key y))) [
    | inl e ↦ rw e (p, a)
    | inr e ↦ rw e (a.0, All-insert_by P x ys p a.1)
  ]

  pub All-sort_by {κ} : (P : A → Type κ) (xs : List A) → All P xs → All P (sort_by xs)
  All-sort_by P [] a = tt
  All-sort_by P (x ∷ xs) a = All-insert_by P x (sort_by xs) a.0 (All-sort_by P xs a.1)

  All-weaken :
      (x y : A) (ys : List A)
      → key x ≤ key y
      → All (λ z. key y ≤ key z) ys
      → All (λ z. key x ≤ key z) ys
  All-weaken x y [] h a = tt
  All-weaken x y (z ∷ zs) h a = (omega (arith, h, a.0), All-weaken x y zs h a.1)

  insert_by-Sorted : (x : A) (ys : List A) → Sorted ys → Sorted (insert_by x ys)
  insert_by-Sorted x [] s = (tt, tt)
  insert_by-Sorted x (y ∷ ys) s = elim (Bool-cases (leb (key x) (key y))) [
    | inl e ↦ rw e (((ground arith, All-weaken x y ys (ground arith) s.0), s))
    | inr e ↦
        rw e (All-insert_by (λ z. key y ≤ key z) x ys (ground arith) s.0, insert_by-Sorted x ys s.1)
  ]

  pub sort_by-Sorted : (xs : List A) → Sorted (sort_by xs)
  sort_by-Sorted [] = tt
  sort_by-Sorted (x ∷ xs) = insert_by-Sorted x (sort_by xs) (sort_by-Sorted xs)

  length-insert_by : (x : A) (ys : List A) → length (insert_by x ys) ≡ 1 + length ys
  length-insert_by x [] = omega arith
  length-insert_by x (y ∷ ys) = ground (arith, length-insert_by x ys)

  pub length-sort_by : (xs : List A) → length (sort_by xs) ≡ length xs
  length-sort_by [] = refl
  length-sort_by (x ∷ xs) = omega (arith, length-insert_by x (sort_by xs), length-sort_by xs)
