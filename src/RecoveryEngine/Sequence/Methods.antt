-- ===== src/RecoveryEngine/Sequence/Methods.antt =====
-- Which credential a planned step charges (packages/recovery-engine/src/sequence.ts, `pickDefault`
-- and `pickAlternate`).
use ax10m.Common.{
  ℕ, ◌+◌, ◌*◌, ◌≡◌, ◌⊎◌, refl, subst, sym, Bool, true, false, not, String, Option, none, some, List,
  [], ◌∷◌, find?, map_option, if◌then◌else◌, All, Bool-cases, inl, inr,
}
use ax10m.RecoveryEngine.Sequence.Schedule.{plan-retriable}
use ax10m.Canonical.{is_retriable}
use ax10m.RecoveryEngine.{Scores, RecoveryFeatures, AvailableMethod}
use ax10m.RecoveryEngine.Strategy.{strategy_for}
use ax10m.RecoveryEngine.Sequence.{
  otherwise, is_auto_updated, is_default_method, pick_alternate, SequenceContext, pick_method,
  pick_default, plan_attempts, plan_retry_sequence, features_at, first_method, rotates,
}

-- A method of the list has this reference.
abbrev pub HasRef : String → List AvailableMethod → Type 0
HasRef r [] = ⊥
HasRef r (m ∷ ms) = (m.ref ≡ r) ⊎ HasRef r ms

-- What is charged is a stored method, and it is none only if there is none.
abbrev pub Stored : List AvailableMethod → Option String → Type 0
Stored ms none = ms ≡ []
Stored ms (some r) = HasRef r ms

-- What a search of the list gives.
abbrev Among : List AvailableMethod → Option AvailableMethod → Type 0
Among ms none = Unit {0}
Among ms (some m) = HasRef m.ref ms

Among-weaken :
    (x : AvailableMethod) (ms : List AvailableMethod) (o : Option AvailableMethod)
    → Among ms o
    → Among (x ∷ ms) o
Among-weaken x ms none a = tt
Among-weaken x ms (some m) a = inr a

otherwise-Among :
    (ms : List AvailableMethod) (a b : Option AvailableMethod)
    → Among ms a
    → Among ms b
    → Among ms (otherwise a b)
otherwise-Among ms none b ha hb = hb
otherwise-Among ms (some m) b ha hb = ha

find?-Among : (p : AvailableMethod → Bool) (ms : List AvailableMethod) → Among ms (find? p ms)
find?-Among p [] = tt
find?-Among p (m ∷ ms) = elim (Bool-cases (p m)) [
  | inl e ↦ rw e (inl refl)
  | inr e ↦ rw e (Among-weaken m ms (find? p ms) (find?-Among p ms))
]

first_method-Among : (ms : List AvailableMethod) → Among ms (first_method ms)
first_method-Among [] = tt
first_method-Among (m ∷ ms) = inl refl

pick_default-Among : (ms : List AvailableMethod) → Among ms (pick_default ms)
pick_default-Among ms =
    otherwise-Among ms (find? is_auto_updated ms)
      (otherwise (find? is_default_method ms) (first_method ms)) (find?-Among is_auto_updated ms)
      (otherwise-Among ms (find? is_default_method ms) (first_method ms)
        (find?-Among is_default_method ms) (first_method-Among ms))

pick_alternate-Among : (ms : List AvailableMethod) → Among ms (pick_alternate ms)
pick_alternate-Among ms =
    otherwise-Among ms (find? (λ m. not (is_default_method m)) ms) (find? is_auto_updated ms)
      (find?-Among (λ m. not (is_default_method m)) ms) (find?-Among is_auto_updated ms)

pick_method-Among : (ms : List AvailableMethod) (rotate : Bool) → Among ms (pick_method ms rotate)
pick_method-Among ms true =
    otherwise-Among ms (pick_alternate ms) (pick_default ms) (pick_alternate-Among ms)
      (pick_default-Among ms)
pick_method-Among ms false =
    otherwise-Among ms (pick_default ms) (pick_default ms) (pick_default-Among ms)
      (pick_default-Among ms)

otherwise-none : (a b : Option AvailableMethod) → otherwise a b ≡ none → b ≡ none
otherwise-none none b e = e
otherwise-none (some m) b e = absurd (cc)

pick_method-none :
    (ms : List AvailableMethod) (rotate : Bool) → pick_method ms rotate ≡ none → ms ≡ []
pick_method-none [] rotate e = refl
pick_method-none (m ∷ ms) rotate e =
    let d =
      otherwise-none (if rotate then pick_alternate (m ∷ ms) else pick_default (m ∷ ms))
        (pick_default (m ∷ ms)) e in
    let f = otherwise-none (find? is_default_method (m ∷ ms)) (some m) (
      otherwise-none (find? is_auto_updated (m ∷ ms))
        (otherwise (find? is_default_method (m ∷ ms)) (some m)) d) in
    absurd (cc)

Stored-of :
    (ms : List AvailableMethod) (o : Option AvailableMethod)
    → Among ms o
    → (o ≡ none → ms ≡ [])
    → Stored ms (map_option (λ m. m.ref) o)
Stored-of ms none a h = h refl
Stored-of ms (some m) a h = a

module _ (S : Scores) (features : RecoveryFeatures (S.Score))
    (ctx : SequenceContext (S.Score)) where
  plan_attempts-Stored :
      (r : Option ℕ) (i t : ℕ) (ds : List ℕ)
      → All (λ s. Stored ctx.methods s.method_ref) (plan_attempts S features ctx r i t ds)
  unfolding plan_attempts
  plan_attempts-Stored r i t [] = tt
  plan_attempts-Stored r i t (d ∷ ds) =
      let at = t + d * 60000 in
      elim (Bool-cases (
        S.below (ctx.model (features_at S features ctx i at)) ctx.min_recoverability_to_continue)) [
          | inl e ↦ rw e tt
          | inr e ↦ rw e (
            Stored-of ctx.methods (pick_method ctx.methods (rotates r i))
                (pick_method-Among ctx.methods (rotates r i))
                (pick_method-none ctx.methods (rotates r i)),
            plan_attempts-Stored r (i + 1) (t + d * 60000) ds,
          )
        ]

  -- Each planned charge of a retriable decline names a stored method, and names none only if none
  -- is stored.
  pub plan_retry_sequence-Stored :
      is_retriable features.decline_code ≡ true
      → All (λ s. Stored ctx.methods s.method_ref) (plan_retry_sequence S features ctx)
  plan_retry_sequence-Stored h =
      subst (λ p. All (λ s. Stored ctx.methods s.method_ref) p)
        (sym (plan-retriable S features ctx h))
        (let strategy = strategy_for features.decline_code ctx.network in
          plan_attempts-Stored strategy.rotate_method_after_attempt 0 ctx.now
            strategy.delays_minutes)
