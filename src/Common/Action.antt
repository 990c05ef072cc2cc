-- ===== src/Common/Action.antt =====
-- Methods of a service that changes its state and may throw, as `async` methods of a class do. What
-- was written before a throw stays written, so that the state comes back beside it too.
use mathlib.Core.Path.{◌≡◌, refl, subst}
use mathlib.Core.Bool.{Bool, true, false}
use ax10m.Common.Tests.{if◌then◌else◌}

pub data Result (A : Type 0) : Type 0 where
  ok : A → Result A
  thrown : Result A

abbrev pub Action : Type 0 → Type 0 → Type 0
Action S A = S → Result A × S

module _ {S A : Type 0} where
  unfoldable pub pure : A → Action S A
  pure a s = (ok a, s)

  -- `throw`
  unfoldable pub raise : Action S A
  raise s = (thrown, s)

  -- What a call returned, or threw.
  unfoldable pub lift : Result A → Action S A
  lift r s = (r, s)

  unfoldable pub gets : (S → A) → Action S A
  gets f s = (ok (f s), s)

module _ {S : Type 0} where
  unfoldable pub modify : (S → S) → Action S (Unit {0})
  modify f s = (ok tt, f s)

module _ {S A B : Type 0} where
  abbrev pub continue : Result A → (A → Action S B) → Action S B
  continue (ok a) f s = f a s
  continue thrown f s = (thrown, s)

  infixl 10 ◌>>=◌ ◌>>◌
  -- Opening this opens `pure` too.
  unfoldable pub ◌>>=◌ : Action S A → (A → Action S B) → Action S B
  unfolding pure
  ◌>>=◌ m f s = let (r, s') = m s in continue r f s'

  abbrev pub ◌>>◌ : Action S A → Action S B → Action S B
  m >> n = m >>= λ _. n

-- From a state in `P`, `m` ends in one in `E` if it throws, and in one in `Q a` if it returns `a`.
abbrev pub Ends : {S A : Type 0} → (A → S → Type 0) → (S → Type 0) → Result A → S → Type 0
Ends Q E (ok a) s = Q a s
Ends Q E thrown s = E s

-- What holds whether it returns or throws.
pub Ends-either :
    {S A : Type 0} (Q : A → S → Type 0) (E : S → Type 0) (r : Result A) (s : S)
    → ((a : A) → Q a s)
    → E s
    → Ends Q E r s
Ends-either Q E (ok a) s q e = q a
Ends-either Q E thrown s q e = e

pub Ends-ok :
    {S A : Type 0} (Q : A → S → Type 0) (E : S → Type 0) {r : Result A} {s : S} (a : A)
    → r ≡ ok a
    → Ends Q E r s
    → Q a s
Ends-ok Q E {s} a e h = subst (λ x. Ends Q E x s) e h

pub record Triple {S A : Type 0} (P : S → Type 0) (m : Action S A) (Q : A → S → Type 0)
    (E : S → Type 0) : Type 0 where
  pub run : (s : S) → P s → Ends Q E (m s).0 (m s).1

-- `m` keeps `P`, whether it returns or throws.
abbrev pub Keeps : {S A : Type 0} → (S → Type 0) → Action S A → Type 0
Keeps P m = Triple P m (λ _. P) P

pub Ends-same : {S A : Type 0} (P : S → Type 0) (r : Result A) (s : S) → Ends (λ _. P) P r s → P s
Ends-same P (ok a) s h = h
Ends-same P thrown s h = h

pub Keeps-end :
    {S A : Type 0} {P : S → Type 0} (m : Action S A) → Keeps P m → (s : S) → P s → P (m s).1
Keeps-end m k s h = Ends-same _ (m s).0 (m s).1 (k.run s h)

module _ {S A : Type 0} {P E : S → Type 0} {Q : A → S → Type 0} where
  pub Triple-pure : (a : A) → ((s : S) → P s → Q a s) → Triple P (pure a) Q E
  unfolding pure
  Triple-pure a h = record { run = h }

  pub Triple-gets : (f : S → A) → ((s : S) → P s → Q (f s) s) → Triple P (gets f) Q E
  unfolding gets
  Triple-gets f h = record { run = h }

  pub Triple-if :
      (b : Bool) (m n : Action S A)
      → (b ≡ true → Triple P m Q E)
      → (b ≡ false → Triple P n Q E)
      → Triple P (if b then m else n) Q E
  Triple-if true m n km kn = km refl
  Triple-if false m n km kn = kn refl

module _ {S : Type 0} {P E : S → Type 0} {Q : Unit {0} → S → Type 0} where
  pub Triple-modify : (f : S → S) → ((s : S) → P s → Q tt (f s)) → Triple P (modify f) Q E
  unfolding modify
  Triple-modify f h = record { run = h }

module _ {S A B : Type 0} {E : S → Type 0} {Q : A → S → Type 0} {R : B → S → Type 0} where
  Ends-continue :
      (r : Result A) (f : A → Action S B) (s : S)
      → ((a : A) → Triple (Q a) (f a) R E)
      → Ends Q E r s
      → Ends R E (continue r f s).0 (continue r f s).1
  Ends-continue (ok a) f s k h = (k a).run s h
  Ends-continue thrown f s k h = h

module _ {S A B : Type 0} {P E : S → Type 0} {Q : A → S → Type 0} {R : B → S → Type 0} where
  pub Triple-bind :
      (m : Action S A) (f : A → Action S B)
      → Triple P m Q E
      → ((a : A) → Triple (Q a) (f a) R E)
      → Triple P (m >>= f) R E
  unfolding ◌>>=◌
  Triple-bind m f km kf = record { run = λ s h. Ends-continue (m s).0 f (m s).1 kf (km.run s h) }

module _ {S A : Type 0} {P P' E : S → Type 0} {Q : A → S → Type 0} where
  pub Triple-given : {m : Action S A} → ((s : S) → P' s → P s) → Triple P m Q E → Triple P' m Q E
  Triple-given w t = record { run = λ s h. t.run s (w s h) }

module _ {S A : Type 0} {E E' : S → Type 0} {Q Q' : A → S → Type 0} where
  Ends-then :
      (r : Result A) (s : S)
      → ((a : A) (t : S) → Q a t → Q' a t)
      → ((t : S) → E t → E' t)
      → Ends Q E r s
      → Ends Q' E' r s
  Ends-then (ok a) s f g h = f a s h
  Ends-then thrown s f g h = g s h

  pub Triple-then :
      {P : S → Type 0} {m : Action S A}
      → ((a : A) (s : S) → Q a s → Q' a s)
      → ((s : S) → E s → E' s)
      → Triple P m Q E
      → Triple P m Q' E'
  Triple-then {m} f g t = record { run = λ s h. Ends-then (m s).0 (m s).1 f g (t.run s h) }

module _ {S A B : Type 0} {P E : S → Type 0} {R : B → S → Type 0} where
  -- A step that has its value already.
  pub Triple-bind-pure :
      (a : A) (f : A → Action S B) → Triple P (f a) R E → Triple P (pure a >>= f) R E
  unfolding ◌>>=◌
  Triple-bind-pure a f t = record { run = t.run }

module _ {S A : Type 0} {P : S → Type 0} where
  pub Keeps-pure : (a : A) → Keeps P (pure a)
  Keeps-pure a = Triple-pure a (λ s h. h)

  pub Keeps-raise : Keeps P (raise {A = A})
  unfolding raise
  Keeps-raise = record { run = λ s h. h }

  pub Keeps-lift : (r : Result A) → Keeps P (lift r)
  unfolding lift
  Keeps-lift (ok a) = record { run = λ s h. h }
  Keeps-lift thrown = record { run = λ s h. h }

  pub Keeps-gets : (f : S → A) → Keeps P (gets f)
  Keeps-gets f = Triple-gets f (λ s h. h)

  pub Keeps-if :
      (b : Bool) (m n : Action S A)
      → (b ≡ true → Keeps P m)
      → (b ≡ false → Keeps P n)
      → Keeps P (if b then m else n)
  Keeps-if b m n = Triple-if b m n

pub Keeps-modify :
    {S : Type 0} {P : S → Type 0} (f : S → S) → ((s : S) → P s → P (f s)) → Keeps P (modify f)
Keeps-modify f k = Triple-modify f k

module _ {S A B : Type 0} {P : S → Type 0} where
  pub Keeps-bind :
      (m : Action S A) (f : A → Action S B)
      → Keeps P m
      → ((a : A) → Keeps P (f a))
      → Keeps P (m >>= f)
  Keeps-bind m f = Triple-bind m f

pub ruleset keeps_rules = (Keeps-pure, Keeps-raise, Keeps-lift, Keeps-gets, Keeps-if, Keeps-bind)
