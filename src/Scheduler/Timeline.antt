-- ===== src/Scheduler/Timeline.antt =====
-- Reading the timeline that both drivers of packages/scheduler/src keep: under which numbers
-- attempts were executed, and how many charges succeeded or are pending.
use mathlib.Core.List.{append-nil, append_assoc}
use ax10m.Common.{ℕ, zero, suc, ◌+◌, ◌≡◌, sym, ap, ◌∙◌, Option, some, List, [], ◌∷◌, ◌++◌, arith}
use ax10m.Scheduler.{
  ExecuteResult, ExecutedAction, charged, ChargeOutcome, succeeded, pending, StopReason, recovered,
  pending_handoff, EventKind, executed, SagaEvent,
}

-- One for a charge that succeeded, or that is pending.
abbrev pub one_if_succeeded : ExecutedAction → Option ChargeOutcome → ℕ
one_if_succeeded charged (some succeeded) = 1
one_if_succeeded _ _ = 0

abbrev pub one_if_pending : ExecutedAction → Option ChargeOutcome → ℕ
one_if_pending charged (some pending) = 1
one_if_pending _ _ = 0

-- One for the status that reports it.
abbrev pub one_if_recovered : StopReason → ℕ
one_if_recovered recovered = 1
one_if_recovered _ = 0

abbrev pub one_if_handoff : StopReason → ℕ
one_if_handoff pending_handoff = 1
one_if_handoff _ = 0

abbrev pub kind_numbers : EventKind → ℕ → List ℕ
kind_numbers (executed r) n = n ∷ []
kind_numbers _ n = []

abbrev pub kind_successes : EventKind → ℕ
kind_successes (executed r) = one_if_succeeded r.action r.outcome
kind_successes _ = 0

abbrev pub kind_pendings : EventKind → ℕ
kind_pendings (executed r) = one_if_pending r.action r.outcome
kind_pendings _ = 0

-- The attempt numbers under which `execute` was called, in order.
abbrev pub executed_numbers : List SagaEvent → List ℕ
executed_numbers [] = []
executed_numbers (e ∷ es) = kind_numbers e.kind e.attempt_number ++ executed_numbers es

abbrev pub successes : List SagaEvent → ℕ
successes [] = 0
successes (e ∷ es) = kind_successes e.kind + successes es

abbrev pub pendings : List SagaEvent → ℕ
pendings [] = 0
pendings (e ∷ es) = kind_pendings e.kind + pendings es

-- 1, 2, …, k.
abbrev pub first_numbers : ℕ → List ℕ
first_numbers zero = []
first_numbers (suc k) = first_numbers k ++ suc k ∷ []

numbers-append :
    (es : List SagaEvent) (e : SagaEvent)
    → executed_numbers (es ++ e ∷ []) ≡ executed_numbers es ++ kind_numbers e.kind e.attempt_number
numbers-append [] e = append-nil _
numbers-append (x ∷ es) e =
    ap (λ t. kind_numbers x.kind x.attempt_number ++ t) (numbers-append es e)
    ∙ sym (append_assoc (kind_numbers x.kind x.attempt_number) (executed_numbers es) _)

successes-append :
    (es : List SagaEvent) (e : SagaEvent)
    → successes (es ++ e ∷ []) ≡ successes es + kind_successes e.kind
successes-append [] e = omega arith
successes-append (x ∷ es) e = omega (arith, successes-append es e)

pendings-append :
    (es : List SagaEvent) (e : SagaEvent)
    → pendings (es ++ e ∷ []) ≡ pendings es + kind_pendings e.kind
pendings-append [] e = omega arith
pendings-append (x ∷ es) e = omega (arith, pendings-append es e)

-- What a timeline shows of the charges.
pub record Shows (tl : List SagaEvent) (numbers : List ℕ) (won waiting : ℕ) : Type 0 where
  pub numbers_are : executed_numbers tl ≡ numbers
  pub successes_are : successes tl ≡ won
  pub pendings_are : pendings tl ≡ waiting

-- An event that is no execution shows nothing.
pub Shows-quiet :
    (tl : List SagaEvent) (numbers : List ℕ) (won waiting : ℕ) (e : SagaEvent)
    → kind_numbers e.kind e.attempt_number ≡ []
    → kind_successes e.kind ≡ 0
    → kind_pendings e.kind ≡ 0
    → Shows tl numbers won waiting
    → Shows (tl ++ e ∷ []) numbers won waiting
Shows-quiet tl numbers won waiting e n z p v = record {
  numbers_are =
      numbers-append tl e ∙ ap (λ t. executed_numbers tl ++ t) n ∙ append-nil _ ∙ v.numbers_are;
  successes_are = omega (arith, successes-append tl e, v.successes_are);
  pendings_are = omega (arith, pendings-append tl e, v.pendings_are);
}

pub Shows-executed :
    (tl : List SagaEvent) (numbers : List ℕ) (won waiting at n : ℕ) (r : ExecuteResult)
    → Shows tl numbers won waiting
    → Shows
        (tl ++ record { at = at; kind = executed r; attempt_number = n } ∷ [])
        (numbers ++ n ∷ [])
        (won + one_if_succeeded r.action r.outcome)
        (waiting + one_if_pending r.action r.outcome)
Shows-executed tl numbers won waiting at n r v = record {
  numbers_are = numbers-append tl _ ∙ ap (λ t. t ++ n ∷ []) v.numbers_are;
  successes_are = omega (
    arith,
    successes-append tl (record { at = at; kind = executed r; attempt_number = n }),
    v.successes_are,
  );
  pendings_are = omega (
    arith,
    pendings-append tl (record { at = at; kind = executed r; attempt_number = n }),
    v.pendings_are,
  );
}

pub Shows-recount :
    (tl : List SagaEvent) (numbers : List ℕ) {a b a' b' : ℕ}
    → Shows tl numbers a b
    → a ≡ a'
    → b ≡ b'
    → Shows tl numbers a' b'
Shows-recount tl numbers v p q = record {
  numbers_are = v.numbers_are;
  successes_are = omega (arith, v.successes_are);
  pendings_are = omega (arith, v.pendings_are);
}
