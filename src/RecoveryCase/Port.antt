-- ===== src/RecoveryCase/Port.antt =====
-- The case service as the port of the scheduler (apps/api/src/recovery/recovery-case.port.ts), and the
-- two workflows that run a saga over it (packages/scheduler/src/temporal/workflow.ts). A call of the
-- service is an activity that is run again while it throws, five times in all; if the last run throws
-- too, the saga ends without a result: the world remembers it, and what it answers to the driver in its
-- place ends the run at once. The time of the workflow is Temporal's (`Temporal`). An activity that has
-- returned is not run again here, as a host that loses its worker would have it.
use ax10m.Common.{
  zero, suc, ltb, ◌-◌, if◌then◌else◌, ℕ, Bool, true, false, ◌||◌, Option, none, some, List, [], ◌∷◌,
}
use ax10m.Common.Action.{Result, ok, thrown, Action}
use ax10m.Scheduler.{
  SchedulerConfig, RecoveryDecision, RecoverySagaResult, ExecuteResult, ExecutedAction, charged,
  shadowed, guardrail_suppressed, engine_suppressed, routed_to_comms, AttemptInput, World,
  charge_step, update_step, suppress_step,
}
use ax10m.Scheduler
use ax10m.Scheduler.Sequenced.{run_sequenced_recovery_saga}
use ax10m.Scheduler.Driver.{run_recovery_saga}
use ax10m.RecoveryEngine.{RecommendedAction, retry, card_update, suppress}
use ax10m.RecoveryEngine.Sequence.{RetryStep}
use ax10m.RecoveryCase.{Invoice, PaymentMethod, DeclineEvent, Customer, Host, CaseState}
use ax10m.RecoveryCase.Attempt.{
  Service, RecoveryActionOutcome, update_comms, engine_suppress, suppressed, attempted,
}
use ax10m.RecoveryCase.Plan.{plan_attempt, plan_sequence}
use ax10m.RecoveryCase.Fresh.{ExecuteInput}
use ax10m.RecoveryCase.Execute.{ExecuteOutcome, execute_recovery}

-- The part of an `AttemptInput` that the saga passes through.
pub record SagaCase : Type 0 where
  pub invoice : Invoice
  pub method : PaymentMethod
  pub decline : Option DeclineEvent
  pub customer : Option Customer
  pub local_hour : Option ℕ
  pub minutes_since_last_attempt : Option ℕ

abbrev pub map_action : RecoveryActionOutcome → ExecutedAction
map_action attempted = charged
map_action RecoveryActionOutcome.shadowed = shadowed
map_action suppressed = guardrail_suppressed
map_action engine_suppress = engine_suppressed
map_action update_comms = routed_to_comms

abbrev pub step_action : RecommendedAction → Scheduler.StepAction
step_action retry = charge_step
step_action card_update = update_step
step_action suppress = suppress_step

abbrev pub steps_of : {Score : Type 0} → List (RetryStep Score) → List Scheduler.RetryStep
steps_of [] = []
steps_of (s ∷ ss) =
    record { attempt_number = s.attempt_number; at = s.at; action = step_action s.action }
    ∷ steps_of ss

abbrev pub has_thrown : {A : Type 0} → Result A → Bool
has_thrown (ok a) = false
has_thrown thrown = true

abbrev pub answer_of : {A B : Type 0} → B → (A → B) → Result A → B
answer_of other f (ok a) = f a
answer_of other f thrown = other

abbrev pub execute_input : Bool → SagaCase → ℕ → Option ℕ → ExecuteInput
execute_input shadow c n at = record {
  invoice = c.invoice;
  method = c.method;
  decline = c.decline;
  attempt_number = n;
  local_hour = c.local_hour;
  minutes_since_last_attempt = c.minutes_since_last_attempt;
  customer = c.customer;
  now_iso = at;
  shadow = shadow;
}

abbrev pub execute_result : ExecuteOutcome → ExecuteResult
execute_result o = record { action = map_action o.action; outcome = o.outcome }

-- Time as a workflow has it: the durable timer, and what an activity takes of it.
pub record Temporal : Type 1 where
  pub Clock : Type 0
  pub now : Clock → ℕ
  pub sleep : ℕ → Clock → Clock
  pub spend : Clock → Clock

-- `sleepUntil`
abbrev pub durable_sleep : (time : Temporal) → ℕ → time.Clock → time.Clock
durable_sleep time until c = if ltb (time.now c) until then time.sleep (until - time.now c) c else c

-- An activity that is run up to `n` times more while it throws.
abbrev pub run_again : {S A : Type 0} → Result A → Action S A → Action S A
run_again (ok a) rest s = (ok a, s)
run_again thrown rest s = rest s

abbrev pub retried : {S A : Type 0} → ℕ → Action S A → Action S A
retried zero m s = m s
retried (suc n) m s = let (r, t) = m s in run_again r (retried n m) t

-- `proxyActivities` with `maximumAttempts: 5`.
abbrev pub activity : {S A : Type 0} → Action S A → Action S A
activity m = retried 4 m

module _ (h : Host) (time : Temporal) where
  pub record PortState : Type 0 where
    pub clock : time.Clock
    pub service : CaseState h
    pub broken : Bool

  -- An activity: its answer, or the one that ends the run.
  abbrev pub call_service : {A B : Type 0} → B → (A → B) → Service h A → PortState → B × PortState
  call_service other f m s =
      let (r, t) = activity m s.service in
      (
        answer_of other f r,
        record { clock = time.spend s.clock; service = t; broken = has_thrown r || s.broken },
      )

  abbrev pub plan_case : AttemptInput SagaCase → PortState → RecoveryDecision × PortState
  plan_case i =
      call_service (record { action = Scheduler.suppress; retry_at = none }) (λ d. d)
        (plan_attempt h i.case.invoice (some i.case.method) i.case.decline i.attempt_number)

  abbrev pub execute_case : Bool → AttemptInput SagaCase → PortState → ExecuteResult × PortState
  execute_case shadow i =
      call_service (record { action = guardrail_suppressed; outcome = none }) execute_result
        (execute_recovery h (execute_input shadow i.case i.attempt_number i.now_iso))

  abbrev pub sequence_case :
      AttemptInput SagaCase → PortState → List Scheduler.RetryStep × PortState
  sequence_case i =
      call_service [] steps_of
        (plan_sequence h i.case.invoice i.case.method i.case.decline i.attempt_number)

  -- `ServiceRecoveryCasePort`
  abbrev pub case_port : Bool → World
  case_port shadow = record {
    Case = SagaCase;
    State = PortState;
    now = λ s. time.now s.clock;
    sleep_until = λ until s. record s { clock = durable_sleep time until s.clock };
    plan = plan_case;
    execute = execute_case shadow;
    plan_sequence = some sequence_case;
  }

  -- A run in which the service threw has no result.
  abbrev pub result_of : RecoverySagaResult × PortState → Result RecoverySagaResult × PortState
  result_of (r, s) = (if s.broken then thrown else ok r, s)

  -- `recoveryWorkflow`
  unfoldable pub recovery_workflow :
      Bool → SchedulerConfig → SagaCase → Action PortState RecoverySagaResult
  recovery_workflow shadow config c s = result_of (run_recovery_saga (case_port shadow) config c s)

  -- A port that plans no sequence is refused.
  abbrev pub sequenced_result :
      Option (RecoverySagaResult × PortState) → PortState → Result RecoverySagaResult × PortState
  sequenced_result none s = (thrown, s)
  sequenced_result (some x) s = result_of x

  -- `recoverySequenceWorkflow`
  unfoldable pub recovery_sequence_workflow :
      Bool → SchedulerConfig → SagaCase → Action PortState RecoverySagaResult
  recovery_sequence_workflow shadow config c s =
      sequenced_result (run_sequenced_recovery_saga (case_port shadow) config c s) s
