-- ===== src/Scheduler/Saga.antt =====
-- The saga's decisions (packages/scheduler/src/saga.ts): pure, with the time as an argument.
use ax10m.Common.{ℕ, ◌+◌, ◌*◌, ◌≤◌, ◌≡◌, ◌⊎◌, Option, none, some, ltb, if◌then◌else◌, arith}
use ax10m.Scheduler.{
  Iso, SchedulerConfig, RecoveryDecision, RecoveryActionKind, ExecuteResult, ExecutedAction,
  charged, shadowed, guardrail_suppressed, engine_suppressed, routed_to_comms, ChargeOutcome,
  succeeded, failed, pending, StopReason, recovered, exhausted, by_engine, by_guardrail, to_comms,
  shadow_complete,
}

pub data PlanStep : Type 0 where
  sleep_then_execute : ℕ → PlanStep
  execute_now : PlanStep
  stop_plan : StopReason → PlanStep

pub data PostExecuteStep : Type 0 where
  retry_next : ℕ → PostExecuteStep
  await_settlement : PostExecuteStep
  stop_after : StopReason → PostExecuteStep

abbrev pub ms_per_minute : ℕ
ms_per_minute = 60000

unfoldable pub add_minutes : ℕ → ℕ → ℕ
add_minutes at minutes = at + minutes * ms_per_minute

-- `none` means "execute now".
unfoldable pub future_time : Option Iso → ℕ → ℕ → Option ℕ
future_time (some (some t)) now fallback = if ltb now t then some t else none
future_time _ now fallback = some (now + fallback * ms_per_minute)

plan_retry : Option ℕ → PlanStep
plan_retry none = execute_now
plan_retry (some until) = sleep_then_execute until

plan_action : RecoveryActionKind → Option Iso → ℕ → SchedulerConfig → PlanStep
unfolding plan_retry future_time
plan_action RecoveryActionKind.card_update_comms at now config = stop_plan to_comms
plan_action RecoveryActionKind.suppress at now config = stop_plan by_engine
plan_action RecoveryActionKind.retry at now config =
    plan_retry (future_time at now config.fallback_backoff_minutes)

unfoldable pub plan_step : RecoveryDecision → ℕ → SchedulerConfig → PlanStep
unfolding plan_action
plan_step d now config = plan_action d.action d.retry_at now config

-- After a charge: an outcome that is neither success nor pending counts as a failure.
post_charge : Option ChargeOutcome → ℕ → SchedulerConfig → PostExecuteStep
post_charge (some succeeded) n config = stop_after recovered
post_charge (some pending) n config = await_settlement
post_charge _ n config =
    if ltb config.max_attempts (n + 1) then stop_after exhausted else retry_next (n + 1)

post_action : ExecutedAction → Option ChargeOutcome → ℕ → SchedulerConfig → PostExecuteStep
unfolding post_charge
post_action shadowed o n config = stop_after shadow_complete
post_action engine_suppressed o n config = stop_after by_engine
post_action guardrail_suppressed o n config = stop_after by_guardrail
post_action routed_to_comms o n config = stop_after to_comms
post_action charged o n config = post_charge o n config

unfoldable pub post_execute_step : ExecuteResult → ℕ → SchedulerConfig → PostExecuteStep
unfolding post_action
post_execute_step r n config = post_action r.action r.outcome n config

-- Another attempt is scheduled only after a charge that neither succeeded nor is pending, under the
-- next number, within the ceiling.
pub post_execute_step-retry :
    (r : ExecuteResult) (n m : ℕ) (config : SchedulerConfig)
    → post_execute_step r n config ≡ retry_next m
    → (m ≡ n + 1)
      × (m ≤ config.max_attempts)
      × (r.action ≡ charged)
      × ((r.outcome ≡ none) ⊎ (r.outcome ≡ some failed))
unfolding post_execute_step
post_execute_step-retry r n m config h = ground arith
