-- ===== src/RecoveryCase/Verdicts.antt =====
-- What the verdicts of the scheduler (packages/scheduler/src/saga.ts, sequenced-driver.ts) say of a
-- recovery, given that a success is that of a charge.
use ax10m.Common.{ℕ, ◌≡◌, Bool, true, false, some, arith}
use ax10m.Scheduler
use ax10m.Scheduler.{
  SchedulerConfig, RecoveryDecision, ExecuteResult, charged, guardrail_suppressed, StopReason,
  recovered,
}
use ax10m.Scheduler.Saga.{
  sleep_then_execute, execute_now, stop_plan, retry_next, await_settlement, stop_after, plan_step,
  post_execute_step,
}
use ax10m.Scheduler.Sequenced.{step_verdict, step_stops, stop_now, settle, next_step}
use ax10m.RecoveryCase.Fresh.{has_succeeded}

abbrev pub ends_as_recovered : StopReason → Bool
ends_as_recovered recovered = true
ends_as_recovered _ = false

module _ (r : ExecuteResult) (n : ℕ) (config : SchedulerConfig) where
  -- A verdict after an attempt whose success is that of a charge.
  pub stops_recovered :
      (reason : StopReason)
      → (has_succeeded r.outcome ≡ true → r.action ≡ charged)
      → post_execute_step r n config ≡ stop_after reason
      → ends_as_recovered reason ≡ has_succeeded r.outcome
  unfolding post_execute_step
  stops_recovered reason k e = ground (arith, k)

  pub waits_unrecovered :
      post_execute_step r n config ≡ await_settlement
      → (has_succeeded r.outcome ≡ false) × (r.action ≡ charged)
  unfolding post_execute_step
  waits_unrecovered e = ground arith

  pub retries_unrecovered :
      (m : ℕ)
      → post_execute_step r n config ≡ retry_next m
      → (has_succeeded r.outcome ≡ false) × (r.action ≡ charged)
  unfolding post_execute_step
  retries_unrecovered m e = ground arith

-- A verdict of the sequenced loop after such an attempt.
module _ (r : ExecuteResult) where
  pub ends_recovered :
      (reason : StopReason)
      → (has_succeeded r.outcome ≡ true → r.action ≡ charged)
      → step_verdict r.action r.outcome ≡ stop_now reason
      → ends_as_recovered reason ≡ has_succeeded r.outcome
  unfolding step_verdict
  ends_recovered reason k e = ground (arith, k)

  pub settles_unrecovered :
      step_verdict r.action r.outcome ≡ settle → has_succeeded r.outcome ≡ false
  unfolding step_verdict
  settles_unrecovered e = ground arith

  pub goes_on_unrecovered :
      step_verdict r.action r.outcome ≡ next_step
      → (has_succeeded r.outcome ≡ false) × (r.action ≡ charged)
  unfolding step_verdict
  goes_on_unrecovered e = ground arith

-- A step that is no charge does not recover.
pub steps_unrecovered :
    (a : Scheduler.StepAction) (reason : StopReason)
    → step_stops a ≡ some reason
    → ends_as_recovered reason ≡ false
unfolding step_stops
steps_unrecovered a reason e = ground arith

module _ (d : RecoveryDecision) (now : ℕ) (config : SchedulerConfig) where
  -- No plan recovers, and a decision to suppress stops the saga.
  pub plans_unrecovered :
      (reason : StopReason)
      → plan_step d now config ≡ stop_plan reason
      → ends_as_recovered reason ≡ false
  unfolding plan_step
  plans_unrecovered reason e = ground arith

  pub executes_unsuppressed :
      (d.action ≡ Scheduler.suppress) → plan_step d now config ≡ execute_now → ⊥
  unfolding plan_step
  executes_unsuppressed q e = ground arith

  pub sleeps_unsuppressed :
      (until : ℕ)
      → (d.action ≡ Scheduler.suppress)
      → plan_step d now config ≡ sleep_then_execute until
      → ⊥
  unfolding plan_step
  sleeps_unsuppressed until q e = ground arith

pub uncharged : (r : ExecuteResult) → r.action ≡ guardrail_suppressed → r.action ≡ charged → ⊥
uncharged r e k = absurd (cc)
