-- ===== src/Scheduler/Sequenced/Rule.antt =====
-- The rule of the sequenced loop (packages/scheduler/src/sequenced-driver.ts): what holds of the world
-- when the saga ends, from what each of its calls does.
use ax10m.Common.{length, ℕ, ◌≡◌, refl, Option, none, some, List, [], ◌∷◌}
use ax10m.Scheduler.{
  planned_steps, SchedulerConfig, RecoverySagaResult, ExecuteResult, StopReason, exhausted,
  by_engine, pending_handoff, RetryStep, World, AttemptInput,
}
use ax10m.Scheduler.Saga.{add_minutes}
use ax10m.Scheduler.Driver.{record_event, Timeline, stop, attempt_of}
use ax10m.Scheduler.Sequenced.{
  run_sequenced_recovery_saga, StepVerdict, stop_now, settle, next_step, step_verdict, step_stops,
  after_step, charge_at, walk_step, run_steps, run_plan,
}

module _ (w : World) (config : SchedulerConfig) (c : w.Case) where
  -- `Running` holds between the calls, `Over reason` at the end.
  pub record SequenceRule (Running : w.State → Type 0)
      (Sequenced : List RetryStep → w.State → Type 0) (Executed : ExecuteResult → w.State → Type 0)
      (Over : StopReason → w.State → Type 0) : Type 0 where
    pub plans_none : (s : w.State) → Sequenced [] s → Over by_engine s
    pub plans_some :
        (step : RetryStep) (steps : List RetryStep) (s : w.State)
        → Sequenced (step ∷ steps) s
        → Running s
    pub sleeps : (until : ℕ) (s : w.State) → Running s → Running (w.sleep_until until s)
    pub executes :
        (n at : ℕ) (s : w.State)
        → Running s
        → let (r, t) = w.execute (attempt_of w c n (some at)) s in Executed r t
    pub stops :
        (r : ExecuteResult) (s : w.State) (reason : StopReason)
        → Executed r s
        → step_verdict r.action r.outcome ≡ stop_now reason
        → Over reason s
    pub waits :
        (r : ExecuteResult) (s : w.State) (until : ℕ)
        → Executed r s
        → step_verdict r.action r.outcome ≡ settle
        → Over pending_handoff (w.sleep_until until s)
    pub goes_on :
        (r : ExecuteResult) (s : w.State)
        → Executed r s
        → step_verdict r.action r.outcome ≡ next_step
        → Running s
    pub quits :
        (step : RetryStep) (s : w.State) (reason : StopReason)
        → Running s
        → step_stops step.action ≡ some reason
        → Over reason s
    pub runs_out : (s : w.State) → Running s → Over exhausted s

  module _ {Running : w.State → Type 0} {Sequenced : List RetryStep → w.State → Type 0}
      {Executed : ExecuteResult → w.State → Type 0} {Over : StopReason → w.State → Type 0}
      (rule : SequenceRule Running Sequenced Executed Over) where
    abbrev Ended : RecoverySagaResult × w.State → Type 0
    Ended x = Over x.0.status x.1

    -- What the rest of the walk is owed.
    abbrev Walks : (Timeline w → w.State → RecoverySagaResult × w.State) → Type 0
    Walks rest = (tl : Timeline w) (s : w.State) → Running s → Ended (rest tl s)

    after_step-Ended :
        (v : StepVerdict) (r : ExecuteResult) (n : ℕ) (tl : Timeline w) (s : w.State)
        (rest : Timeline w → w.State → RecoverySagaResult × w.State)
        → step_verdict r.action r.outcome ≡ v
        → Executed r s
        → Walks rest
        → Ended (after_step w config v n tl s rest)
    unfolding after_step stop
    after_step-Ended (stop_now reason) r n tl s rest e q k = rule.stops r s reason q e
    after_step-Ended settle r n tl s rest e q k =
        rule.waits r s (add_minutes (w.now s) config.settlement_window_minutes) q e
    after_step-Ended next_step r n tl s rest e q k = k tl s (rule.goes_on r s q e)

    charge_at-Ended :
        (step : RetryStep) (tl : Timeline w) (s : w.State)
        (rest : Timeline w → w.State → RecoverySagaResult × w.State)
        → Running s
        → Walks rest
        → Ended (charge_at w config c step tl s rest)
    unfolding charge_at
    charge_at-Ended step tl s rest q k =
        let n = step.attempt_number in
        let s1 = w.sleep_until step.at s in
        let (r, s2) = w.execute (attempt_of w c n (some (w.now s1))) s1 in
        after_step-Ended (step_verdict r.action r.outcome) r n _ s2 rest refl
          (rule.executes n (w.now s1) s1 (rule.sleeps step.at s q)) k

    walk_step-Ended :
        (step : RetryStep) (stops : Option StopReason) (tl : Timeline w) (s : w.State)
        (rest : Timeline w → w.State → RecoverySagaResult × w.State)
        → step_stops step.action ≡ stops
        → Running s
        → Walks rest
        → Ended (walk_step w config c step stops tl s rest)
    unfolding walk_step stop
    walk_step-Ended step none tl s rest e q k = charge_at-Ended step tl s rest q k
    walk_step-Ended step (some reason) tl s rest e q k = rule.quits step s reason q e

    run_steps-Ended :
        (steps : List RetryStep) (last : ℕ) → Walks (λ tl s. run_steps w config c last steps tl s)
    unfolding run_steps stop
    run_steps-Ended [] last tl s q = rule.runs_out s q
    run_steps-Ended (step ∷ steps) last tl s q =
        walk_step-Ended step (step_stops step.action) tl s
          (run_steps w config c step.attempt_number steps) refl q
          (run_steps-Ended steps step.attempt_number)

    run_plan-Ended :
        (steps : List RetryStep) (tl : Timeline w) (s : w.State)
        → Sequenced steps s
        → Ended (run_plan w config c steps tl s)
    unfolding run_plan stop
    run_plan-Ended [] tl s q = rule.plans_none s q
    run_plan-Ended (step ∷ steps) tl s q =
        run_steps-Ended (step ∷ steps) 1 tl s (rule.plans_some step steps s q)

    -- How the sequenced saga ends, if the port plans sequences.
    abbrev pub EndsWell : Option (RecoverySagaResult × w.State) → Type 0
    EndsWell none = Unit {0}
    EndsWell (some x) = Ended x

    pub run_sequenced_recovery_saga-EndsWell :
        (plan_all : AttemptInput w.Case → w.State → List RetryStep × w.State) (s : w.State)
        → w.plan_sequence ≡ some plan_all
        → (let (steps, t) = plan_all (attempt_of w c 1 none) s in Sequenced steps t)
        → EndsWell (run_sequenced_recovery_saga w config c s)
    unfolding run_sequenced_recovery_saga
    run_sequenced_recovery_saga-EndsWell plan_all s e q =
        let (steps, t) = plan_all (attempt_of w c 1 none) s in
        let tl = record_event w (planned_steps (length steps)) 1 t [] in
        rw e (run_plan-Ended steps tl t q)
