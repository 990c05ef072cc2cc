-- ===== src/Scheduler/Driver/Rule.antt =====
-- The rule of the adaptive loop (packages/scheduler/src/driver.ts): what holds of the world when the
-- saga ends, from what each of its calls does.
use ax10m.Common.{ℕ, zero, suc, ◌+◌, ◌≡◌, refl, none, some, []}
use ax10m.Scheduler.{
  SchedulerConfig, RecoveryDecision, ExecuteResult, StopReason, exhausted, pending_handoff, World,
}
use ax10m.Scheduler.Saga.{
  PlanStep, sleep_then_execute, execute_now, stop_plan, PostExecuteStep, retry_next,
  await_settlement, stop_after, plan_step, post_execute_step, add_minutes,
}
use ax10m.Scheduler.Driver.{
  Timeline, Round, finished, again, after_execute, execute_attempt, after_plan, round, run_rounds,
  next_round, run_recovery_saga, attempt_of, stop,
}

module _ (w : World) (config : SchedulerConfig) (c : w.Case) where
  -- `Running` holds between the calls, `Over reason` at the end.
  pub record Rule (Running : w.State → Type 0) (Planned : RecoveryDecision → w.State → Type 0)
      (Executed : ExecuteResult → w.State → Type 0) (Over : StopReason → w.State → Type 0)
      : Type 0 where
    pub plans :
        (n : ℕ) (s : w.State)
        → Running s
        → let (d, t) = w.plan (attempt_of w c n none) s in Planned d t
    pub stops :
        (d : RecoveryDecision) (s : w.State) (reason : StopReason)
        → Planned d s
        → plan_step d (w.now s) config ≡ stop_plan reason
        → Over reason s
    pub goes :
        (d : RecoveryDecision) (s : w.State)
        → Planned d s
        → plan_step d (w.now s) config ≡ execute_now
        → Running s
    pub sleeps :
        (d : RecoveryDecision) (s : w.State) (until : ℕ)
        → Planned d s
        → plan_step d (w.now s) config ≡ sleep_then_execute until
        → Running (w.sleep_until until s)
    pub executes :
        (n : ℕ) (s : w.State)
        → Running s
        → let (r, t) = w.execute (attempt_of w c n (some (w.now s))) s in Executed r t
    pub ends :
        (r : ExecuteResult) (n : ℕ) (s : w.State) (reason : StopReason)
        → Executed r s
        → post_execute_step r n config ≡ stop_after reason
        → Over reason s
    pub awaits :
        (r : ExecuteResult) (n : ℕ) (s : w.State) (until : ℕ)
        → Executed r s
        → post_execute_step r n config ≡ await_settlement
        → Over pending_handoff (w.sleep_until until s)
    pub retries :
        (r : ExecuteResult) (n m : ℕ) (s : w.State)
        → Executed r s
        → post_execute_step r n config ≡ retry_next m
        → Running s
    pub runs_out : (s : w.State) → Running s → Over exhausted s

  module _ {Running : w.State → Type 0} {Planned : RecoveryDecision → w.State → Type 0}
      {Executed : ExecuteResult → w.State → Type 0} {Over : StopReason → w.State → Type 0}
      (rule : Rule Running Planned Executed Over) where
    abbrev AfterRound : Round w → Type 0
    AfterRound (finished r s) = Over r.status s
    AfterRound (again n tl s) = Running s

    after_execute-AfterRound :
        (v : PostExecuteStep) (r : ExecuteResult) (n : ℕ) (tl : Timeline w) (s : w.State)
        → post_execute_step r n config ≡ v
        → Executed r s
        → AfterRound (after_execute w config v n tl s)
    unfolding after_execute stop
    after_execute-AfterRound (stop_after reason) r n tl s e q = rule.ends r n s reason q e
    after_execute-AfterRound await_settlement r n tl s e q =
        rule.awaits r n s (add_minutes (w.now s) config.settlement_window_minutes) q e
    after_execute-AfterRound (retry_next m) r n tl s e q = rule.retries r n m s q e

    execute_attempt-AfterRound :
        (n : ℕ) (tl : Timeline w) (s : w.State)
        → Running s
        → AfterRound (execute_attempt w config c n tl s)
    unfolding execute_attempt
    execute_attempt-AfterRound n tl s q =
        let (r, t) = w.execute (attempt_of w c n (some (w.now s))) s in
        after_execute-AfterRound (post_execute_step r n config) r n _ t refl (rule.executes n s q)

    after_plan-AfterRound :
        (v : PlanStep) (d : RecoveryDecision) (n : ℕ) (tl : Timeline w) (s : w.State)
        → plan_step d (w.now s) config ≡ v
        → Planned d s
        → AfterRound (after_plan w config c v n tl s)
    unfolding after_plan stop
    after_plan-AfterRound (stop_plan reason) d n tl s e q = rule.stops d s reason q e
    after_plan-AfterRound execute_now d n tl s e q =
        execute_attempt-AfterRound n tl s (rule.goes d s q e)
    after_plan-AfterRound (sleep_then_execute until) d n tl s e q =
        execute_attempt-AfterRound n _ (w.sleep_until until s) (rule.sleeps d s until q e)

    round-AfterRound :
        (n : ℕ) (tl : Timeline w) (s : w.State) → Running s → AfterRound (round w config c n tl s)
    unfolding round
    round-AfterRound n tl s q =
        let (d, t) = w.plan (attempt_of w c n none) s in
        after_plan-AfterRound (plan_step d (w.now t) config) d n _ t refl (rule.plans n s q)

    next-Over :
        (fuel : ℕ) (x : Round w)
        → AfterRound x
        → ((n : ℕ) (tl : Timeline w) (s : w.State)
            → Running s
            → let (r, t) = run_rounds w config c fuel n tl s in Over r.status t)
        → let (r, t) = next_round w config c fuel x in Over r.status t
    unfolding next_round
    next-Over fuel (finished r s) o rest = o
    next-Over fuel (again n tl s) q rest = rest n tl s q

    run_rounds-Over :
        (fuel n : ℕ) (tl : Timeline w) (s : w.State)
        → Running s
        → let (r, t) = run_rounds w config c fuel n tl s in Over r.status t
    unfolding run_rounds next_round stop
    run_rounds-Over zero n tl s q = rule.runs_out s q
    run_rounds-Over (suc fuel) n tl s q =
        next-Over fuel (round w config c n tl s) (round-AfterRound n tl s q) (run_rounds-Over fuel)

    pub run_recovery_saga-Over :
        (s : w.State) → Running s → let (r, t) = run_recovery_saga w config c s in Over r.status t
    unfolding run_recovery_saga
    run_recovery_saga-Over s q = run_rounds-Over (config.max_attempts + 2) 1 [] s q
