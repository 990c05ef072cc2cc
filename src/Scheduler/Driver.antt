-- ===== src/Scheduler/Driver.antt =====
-- The adaptive driver `runRecoverySaga` (packages/scheduler/src/driver.ts). `for (guard = 0; guard <=
-- maxAttempts + 1; guard++)` is recursion on fuel `maxAttempts + 2`.
pub mod Attempts
pub mod Calls
pub mod Termination
pub mod Rule
use ax10m.Common.{ℕ, zero, suc, ◌+◌, Option, none, some, List, [], ◌∷◌, ◌++◌}
use ax10m.Scheduler.{
  SchedulerConfig, RecoveryDecision, ExecuteResult, StopReason, exhausted, pending_handoff,
  EventKind, planned, slept, executed, awaiting_settlement, stopped, SagaEvent, RecoverySagaResult,
  AttemptInput, World,
}
use ax10m.Scheduler.Saga.{
  PlanStep, sleep_then_execute, execute_now, stop_plan, PostExecuteStep, retry_next,
  await_settlement, stop_after, plan_step, post_execute_step, add_minutes,
}

module _ (w : World) where
  abbrev pub Timeline : Type 0
  Timeline = List SagaEvent

  -- One round of the loop has finished the saga, or goes on with the next attempt.
  pub data Round : Type 0 where
    finished : RecoverySagaResult → w.State → Round
    again : ℕ → Timeline → w.State → Round

  -- `record(kind, attemptNumber, detail)`: the event is stamped with the runtime's clock.
  abbrev pub record_event : EventKind → ℕ → w.State → Timeline → Timeline
  record_event k n s tl = tl ++ record { at = w.now s; kind = k; attempt_number = n } ∷ []

  unfoldable pub stop : StopReason → ℕ → Timeline → w.State → RecoverySagaResult
  stop reason n tl s = record {
    status = reason;
    attempts = n;
    timeline = record_event (stopped reason) n s tl;
  }

  abbrev pub attempt_of : w.Case → ℕ → Option ℕ → AttemptInput w.Case
  attempt_of c n at = record { case = c; attempt_number = n; now_iso = at }

  after_execute : SchedulerConfig → PostExecuteStep → ℕ → Timeline → w.State → Round
  unfolding stop add_minutes
  after_execute config (stop_after reason) n tl s = finished (stop reason n tl s) s
  after_execute config await_settlement n tl s =
      let until = add_minutes (w.now s) config.settlement_window_minutes in
      let s' = w.sleep_until until s in
      let tl' = record_event (awaiting_settlement until) n s' tl in
      finished (stop pending_handoff n tl' s') s'
  after_execute config (retry_next m) n tl s = again m tl s

  execute_attempt : SchedulerConfig → w.Case → ℕ → Timeline → w.State → Round
  unfolding after_execute
  execute_attempt config c n tl s =
      let (r, s') = w.execute (attempt_of c n (some (w.now s))) s in
      after_execute config (post_execute_step r n config) n (record_event (executed r) n s' tl) s'

  after_plan : SchedulerConfig → w.Case → PlanStep → ℕ → Timeline → w.State → Round
  unfolding execute_attempt stop
  after_plan config c (stop_plan reason) n tl s = finished (stop reason n tl s) s
  after_plan config c execute_now n tl s = execute_attempt config c n tl s
  after_plan config c (sleep_then_execute until) n tl s =
      let s' = w.sleep_until until s in
      execute_attempt config c n (record_event (slept until) n s' tl) s'

  -- The body of the loop.
  unfoldable pub round : SchedulerConfig → w.Case → ℕ → Timeline → w.State → Round
  unfolding after_plan
  round config c n tl s =
      let (d, s') = w.plan (attempt_of c n none) s in
      let tl' = record_event (planned d.action d.retry_at) n s' tl in
      after_plan config c (plan_step d (w.now s') config) n tl' s'

  unfoldable pub run_rounds :
      SchedulerConfig → w.Case → ℕ → ℕ → Timeline → w.State → RecoverySagaResult × w.State
  unfolding stop
  run_rounds config c zero n tl s = (stop exhausted n tl s, s)
  run_rounds config c (suc fuel) n tl s = elim (round config c n tl s) [
    | finished r s' ↦ (r, s')
    | again m tl' s' ↦ run_rounds config c fuel m tl' s'
  ]

  -- The rest of the loop behind a round, as `run_rounds` has it.
  next_round : SchedulerConfig → w.Case → ℕ → Round → RecoverySagaResult × w.State
  next_round config c fuel x = elim x [
    | finished r s' ↦ (r, s')
    | again m tl' s' ↦ run_rounds config c fuel m tl' s'
  ]

  unfoldable pub run_recovery_saga :
      SchedulerConfig → w.Case → w.State → RecoverySagaResult × w.State
  run_recovery_saga config c s = run_rounds config c (config.max_attempts + 2) 1 [] s
