-- ===== src/Scheduler/Calls.antt =====
-- The calls of `execute` that a driver of packages/scheduler/src makes, beside the timeline it keeps of
-- them.
use mathlib.Core.List.{append-nil, append_assoc}
use ax10m.Common.{
  ℕ, ◌+◌, ◌≡◌, refl, sym, ap, ◌∙◌, Option, none, some, List, [], ◌∷◌, ◌++◌, map, arith, All,
  All-append,
}
use ax10m.Scheduler.{
  AttemptInput, ExecuteResult, EventKind, planned, planned_steps, slept, executed,
  awaiting_settlement, stopped, SagaEvent, RetryStep, World,
}
use ax10m.Scheduler.Timeline.{
  one_if_succeeded, one_if_pending, kind_numbers, kind_successes, kind_pendings, executed_numbers,
  successes, pendings,
}

-- A call of `execute` and its answer.
pub record Call (Case : Type 0) : Type 0 where
  pub case : Case
  pub attempt_number : ℕ
  pub result : ExecuteResult

-- A planner of sequences beside a log.
abbrev pub plan_beside :
    {Case State Log : Type 0}
    → Option (AttemptInput Case → State → List RetryStep × State)
    → Option (AttemptInput Case → State × Log → List RetryStep × (State × Log))
plan_beside none = none
plan_beside (some f) = some (λ a s. let (steps, t) = f a s.0 in (steps, (t, s.1)))

-- The world, with the calls of `execute` in order.
abbrev pub watched : World → World
watched w = record {
  Case = w.Case;
  State = w.State × List (Call w.Case);
  now = λ s. w.now s.0;
  sleep_until = λ until s. (w.sleep_until until s.0, s.1);
  plan = λ a s. let (d, t) = w.plan a s.0 in (d, (t, s.1));
  execute = λ a s.
      let (r, t) = w.execute a s.0 in
      (r, (t, s.1 ++ record { case = a.case; attempt_number = a.attempt_number; result = r } ∷ []));
  plan_sequence = plan_beside w.plan_sequence;
}

module _ {Case : Type 0} where
  -- The charge neither succeeded nor is pending.
  abbrev pub Unsettled : Call Case → Type 0
  Unsettled x =
      (one_if_succeeded x.result.action x.result.outcome ≡ 0)
      × (one_if_pending x.result.action x.result.outcome ≡ 0)

  abbrev pub AllButLast : (Call Case → Type 0) → List (Call Case) → Type 0
  AllButLast P [] = Unit {0}
  AllButLast P (x ∷ []) = Unit {0}
  AllButLast P (x ∷ y ∷ ys) = P x × AllButLast P (y ∷ ys)

  pub AllButLast-All : (P : Call Case → Type 0) (xs : List (Call Case)) → All P xs → AllButLast P xs
  AllButLast-All P [] a = tt
  AllButLast-All P (x ∷ []) a = tt
  AllButLast-All P (x ∷ y ∷ ys) a = (a.0, AllButLast-All P (y ∷ ys) a.1)

  pub AllButLast-snoc :
      (P : Call Case → Type 0) (xs : List (Call Case)) (x : Call Case)
      → All P xs
      → AllButLast P (xs ++ x ∷ [])
  AllButLast-snoc P [] x a = tt
  AllButLast-snoc P (y ∷ []) x a = (a.0, tt)
  AllButLast-snoc P (y ∷ z ∷ zs) x a = (a.0, AllButLast-snoc P (z ∷ zs) x a.1)

  abbrev pub succeeded_calls : List (Call Case) → ℕ
  succeeded_calls [] = 0
  succeeded_calls (x ∷ xs) = one_if_succeeded x.result.action x.result.outcome + succeeded_calls xs

  abbrev pub pending_calls : List (Call Case) → ℕ
  pending_calls [] = 0
  pending_calls (x ∷ xs) = one_if_pending x.result.action x.result.outcome + pending_calls xs

module _ {Case : Type 0} (c : Case) where
  abbrev pub kind_calls : EventKind → ℕ → List (Call Case)
  kind_calls (executed r) n = record { case = c; attempt_number = n; result = r } ∷ []
  kind_calls _ n = []

  -- The calls for the case that a timeline shows.
  abbrev pub shown_calls : List SagaEvent → List (Call Case)
  shown_calls [] = []
  shown_calls (e ∷ es) = kind_calls e.kind e.attempt_number ++ shown_calls es

  pub shown-append :
      (es : List SagaEvent) (e : SagaEvent)
      → shown_calls (es ++ e ∷ []) ≡ shown_calls es ++ kind_calls e.kind e.attempt_number
  shown-append [] e = append-nil _
  shown-append (x ∷ es) e =
      ap (λ t. kind_calls x.kind x.attempt_number ++ t) (shown-append es e)
      ∙ sym (append_assoc (kind_calls x.kind x.attempt_number) (shown_calls es) _)

  pub shown-quiet :
      (es : List SagaEvent) (e : SagaEvent)
      → kind_calls e.kind e.attempt_number ≡ []
      → shown_calls (es ++ e ∷ []) ≡ shown_calls es
  shown-quiet es e q =
      shown-append es e ∙ ap (λ t. shown_calls es ++ t) q ∙ append-nil (shown_calls es)

  -- What the calls come to is what the timeline shows.
  abbrev Counts : List ℕ → ℕ → ℕ → List (Call Case) → Type 0
  Counts numbers won waiting xs =
      (map (λ x. x.attempt_number) xs ≡ numbers)
      × (succeeded_calls xs ≡ won)
      × (pending_calls xs ≡ waiting)

  kind_calls-Counts :
      (k : EventKind) (n : ℕ) (numbers : List ℕ) (won waiting : ℕ) (xs : List (Call Case))
      → Counts numbers won waiting xs
      → Counts
          (kind_numbers k n ++ numbers)
          (kind_successes k + won)
          (kind_pendings k + waiting)
          (kind_calls k n ++ xs)
  kind_calls-Counts (planned a at) n numbers won waiting xs (p, q, r) =
      (p, omega (arith, q), omega (arith, r))
  kind_calls-Counts (planned_steps m) n numbers won waiting xs (p, q, r) =
      (p, omega (arith, q), omega (arith, r))
  kind_calls-Counts (slept m) n numbers won waiting xs (p, q, r) =
      (p, omega (arith, q), omega (arith, r))
  kind_calls-Counts (executed x) n numbers won waiting xs (p, q, r) =
      (ap (λ t. n ∷ t) p, omega (arith, q), omega (arith, r))
  kind_calls-Counts (awaiting_settlement m) n numbers won waiting xs (p, q, r) =
      (p, omega (arith, q), omega (arith, r))
  kind_calls-Counts (stopped reason) n numbers won waiting xs (p, q, r) =
      (p, omega (arith, q), omega (arith, r))

  pub shown_calls-Counts :
      (es : List SagaEvent)
      → Counts (executed_numbers es) (successes es) (pendings es) (shown_calls es)
  shown_calls-Counts [] = (refl, refl, refl)
  shown_calls-Counts (e ∷ es) =
      kind_calls-Counts e.kind e.attempt_number (executed_numbers es) (successes es) (pendings es)
        (shown_calls es) (shown_calls-Counts es)

  kind_calls-case : (k : EventKind) (n : ℕ) → All (λ x. x.case ≡ c) (kind_calls k n)
  kind_calls-case (planned a at) n = tt
  kind_calls-case (planned_steps m) n = tt
  kind_calls-case (slept m) n = tt
  kind_calls-case (executed r) n = (refl, tt)
  kind_calls-case (awaiting_settlement m) n = tt
  kind_calls-case (stopped reason) n = tt

  pub shown_calls-case : (es : List SagaEvent) → All (λ x. x.case ≡ c) (shown_calls es)
  shown_calls-case [] = tt
  shown_calls-case (e ∷ es) =
      All-append (λ (x : Call Case). x.case ≡ c) (kind_calls e.kind e.attempt_number)
        (shown_calls es) (kind_calls-case e.kind e.attempt_number) (shown_calls-case es)
