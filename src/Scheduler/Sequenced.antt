-- ===== src/Scheduler/Sequenced.antt =====
-- The sequenced driver `runSequencedRecoverySaga` (packages/scheduler/src/sequenced-driver.ts). `none`
-- is the error thrown when the port has no `planSequence`.
pub mod Calls
pub mod Ceiling
pub mod Rule
use ax10m.Common.{ℕ, Option, none, some, List, [], ◌∷◌, length}
use ax10m.Scheduler.{
  SchedulerConfig, ExecuteResult, ExecutedAction, charged, shadowed, guardrail_suppressed,
  engine_suppressed, routed_to_comms, ChargeOutcome, succeeded, pending, StopReason, recovered,
  exhausted, by_engine, by_guardrail, to_comms, shadow_complete, pending_handoff, planned_steps,
  slept, executed, awaiting_settlement, RecoverySagaResult, RetryStep, StepAction, charge_step,
  update_step, suppress_step, World,
}
use ax10m.Scheduler.Driver.{Timeline, record_event, stop, attempt_of}
use ax10m.Scheduler.Saga.{add_minutes}

-- What follows an executed step.
pub data StepVerdict : Type 0 where
  stop_now : StopReason → StepVerdict
  settle : StepVerdict
  next_step : StepVerdict

charge_verdict : Option ChargeOutcome → StepVerdict
charge_verdict (some succeeded) = stop_now recovered
charge_verdict (some pending) = settle
charge_verdict _ = next_step

-- The `switch` on the executed action, and the tests of the outcome behind it.
unfoldable pub step_verdict : ExecutedAction → Option ChargeOutcome → StepVerdict
unfolding charge_verdict
step_verdict shadowed o = stop_now shadow_complete
step_verdict guardrail_suppressed o = stop_now by_guardrail
step_verdict engine_suppressed o = stop_now by_engine
step_verdict routed_to_comms o = stop_now to_comms
step_verdict charged o = charge_verdict o

-- Why a step that is no charge ends the saga; `none` for a charge.
unfoldable pub step_stops : StepAction → Option StopReason
step_stops charge_step = none
step_stops update_step = some to_comms
step_stops suppress_step = some by_engine

module _ (w : World) where
  abbrev Walk : Type 0
  Walk = RecoverySagaResult × w.State

  -- What happens after a step has executed; `rest` walks the steps behind it.
  after_step :
      SchedulerConfig
      → StepVerdict
      → ℕ
      → Timeline w
      → w.State
      → (Timeline w → w.State → Walk)
      → Walk
  unfolding stop add_minutes
  after_step config (stop_now reason) n tl s rest = (stop w reason n tl s, s)
  after_step config settle n tl s rest =
      let until = add_minutes (w.now s) config.settlement_window_minutes in
      let s' = w.sleep_until until s in
      (stop w pending_handoff n (record_event w (awaiting_settlement until) n s' tl) s', s')
  after_step config next_step n tl s rest = rest tl s

  -- A charge step: sleep to its time, execute it.
  charge_at :
      SchedulerConfig
      → w.Case
      → RetryStep
      → Timeline w
      → w.State
      → (Timeline w → w.State → Walk)
      → Walk
  unfolding after_step step_verdict
  charge_at config c step tl s rest =
      let n = step.attempt_number in
      let s1 = w.sleep_until step.at s in
      let tl1 = record_event w (slept step.at) n s1 tl in
      let (r, s2) = w.execute (attempt_of w c n (some (w.now s1))) s1 in
      after_step config (step_verdict r.action r.outcome) n (record_event w (executed r) n s2 tl1)
        s2 rest

  walk_step :
      SchedulerConfig
      → w.Case
      → RetryStep
      → Option StopReason
      → Timeline w
      → w.State
      → (Timeline w → w.State → Walk)
      → Walk
  unfolding charge_at stop
  walk_step config c step (some reason) tl s rest = (stop w reason step.attempt_number tl s, s)
  walk_step config c step none tl s rest = charge_at config c step tl s rest

  -- The `for` loop over the steps; `last` is `lastAttempt`.
  unfoldable pub run_steps :
      SchedulerConfig → w.Case → ℕ → List RetryStep → Timeline w → w.State → Walk
  unfolding stop walk_step step_stops
  run_steps config c last [] tl s = (stop w exhausted last tl s, s)
  run_steps config c last (step ∷ steps) tl s =
      walk_step config c step (step_stops step.action) tl s
        (run_steps config c step.attempt_number steps)

  run_plan :
      SchedulerConfig
      → w.Case
      → List RetryStep
      → Timeline w
      → w.State
      → RecoverySagaResult × w.State
  unfolding run_steps stop
  run_plan config c [] tl s = (stop w by_engine 1 tl s, s)
  run_plan config c (step ∷ steps) tl s = run_steps config c 1 (step ∷ steps) tl s

  unfoldable pub run_sequenced_recovery_saga :
      SchedulerConfig → w.Case → w.State → Option (RecoverySagaResult × w.State)
  unfolding run_plan
  run_sequenced_recovery_saga config c s = elim w.plan_sequence [
    | none ↦ none
    | some plan_all ↦
        let (steps, s') = plan_all (attempt_of w c 1 none) s in
        let tl = record_event w (planned_steps (length steps)) 1 s' [] in
        some (run_plan config c steps tl s')
  ]
