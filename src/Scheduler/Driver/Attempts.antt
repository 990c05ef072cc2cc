-- ===== src/Scheduler/Driver/Attempts.antt =====
-- What the timeline of `runRecoverySaga` (packages/scheduler/src/driver.ts) shows of the charges:
-- their numbers, how many there are, and what the final status says of them.

use ax10m.Common.{
  ℕ, zero, suc, ◌+◌, ◌≤◌, ◌<◌, ◌≡◌, refl, sym, subst, ◌⊎◌, inl, inr, none, some, List, [], ◌∷◌,
  ◌++◌, max, arith,
}
use ax10m.Scheduler.{SchedulerConfig, RecoveryDecision, ExecuteResult, RecoverySagaResult, World}
use ax10m.Scheduler.Timeline.{
  one_if_succeeded, one_if_pending, one_if_recovered, one_if_handoff, first_numbers, Shows,
  Shows-quiet, Shows-executed, Shows-recount,
}
use ax10m.Scheduler.Saga.{
  PlanStep, sleep_then_execute, execute_now, stop_plan, PostExecuteStep, retry_next,
  await_settlement, stop_after, plan_step, post_execute_step,
}
use ax10m.Scheduler.Driver.{
  Timeline, Round, finished, again, after_execute, execute_attempt, after_plan, round, run_rounds,
  next_round, run_recovery_saga, attempt_of,
}

-- How the verdict on an attempt reflects what its charge came to.
abbrev Reflects : PostExecuteStep → ExecuteResult → ℕ → SchedulerConfig → Type 0
Reflects (stop_after reason) r n config =
    (one_if_succeeded r.action r.outcome ≡ one_if_recovered reason)
    × (one_if_pending r.action r.outcome ≡ one_if_handoff reason)
Reflects await_settlement r n config =
    (one_if_succeeded r.action r.outcome ≡ 0) × (one_if_pending r.action r.outcome ≡ 1)
Reflects (retry_next m) r n config =
    (one_if_succeeded r.action r.outcome ≡ 0)
    × (one_if_pending r.action r.outcome ≡ 0)
    × (m ≡ n + 1)
    × (m ≤ config.max_attempts)

post_execute_step-Reflects :
    (r : ExecuteResult) (n : ℕ) (config : SchedulerConfig)
    → Reflects (post_execute_step r n config) r n config
unfolding post_execute_step
post_execute_step-Reflects r n config = ground arith

-- Planning stops for the engine or for comms only.
abbrev PlanReflects : PlanStep → Type 0
PlanReflects (stop_plan reason) = (one_if_recovered reason ≡ 0) × (one_if_handoff reason ≡ 0)
PlanReflects _ = Unit {0}

plan_step-Reflects :
    (d : RecoveryDecision) (now : ℕ) (config : SchedulerConfig)
    → PlanReflects (plan_step d now config)
unfolding plan_step
plan_step-Reflects d now config = ground arith

module _ (w : World) (config : SchedulerConfig) (c : w.Case) where
  -- After a round: the saga has ended, with or without one more charge, or the charge failed and
  -- the next attempt is due within the ceiling.
  abbrev AfterRound : ℕ → List ℕ → Round w → Type 0
  AfterRound n numbers (finished r s) =
      (Shows r.timeline numbers (one_if_recovered r.status) (one_if_handoff r.status)
        × (r.attempts ≡ n))
      ⊎ (Shows r.timeline (numbers ++ n ∷ []) (one_if_recovered r.status) (one_if_handoff r.status)
          × (r.attempts ≡ n))
  AfterRound n numbers (again m tl s) =
      Shows tl (numbers ++ n ∷ []) 0 0 × (m ≡ n + 1) × (m ≤ config.max_attempts)

  after_execute-AfterRound :
      (p : PostExecuteStep) (r : ExecuteResult) (n : ℕ) (numbers : List ℕ) (tl : Timeline w)
      (s : w.State)
      → Reflects p r n config
      → Shows tl
          (numbers ++ n ∷ [])
          (0 + one_if_succeeded r.action r.outcome)
          (0 + one_if_pending r.action r.outcome)
      → AfterRound n numbers (after_execute w config p n tl s)
  unfolding after_execute
  after_execute-AfterRound (stop_after reason) r n numbers tl s f v = inr (
    Shows-recount _ _ (Shows-quiet tl (numbers ++ n ∷ []) _ _ _ refl refl refl v) (omega arith)
        (omega arith),
    refl,
  )
  after_execute-AfterRound await_settlement r n numbers tl s f v = inr (
    Shows-recount _ _
        (Shows-quiet _ (numbers ++ n ∷ []) _ _ _ refl refl refl
          (Shows-quiet tl (numbers ++ n ∷ []) _ _ _ refl refl refl v))
        (omega arith) (omega arith),
    refl,
  )
  after_execute-AfterRound (retry_next m) r n numbers tl s f v =
      (Shows-recount tl (numbers ++ n ∷ []) v (omega arith) (omega arith), f.2, f.3)

  execute_attempt-AfterRound :
      (n : ℕ) (numbers : List ℕ) (tl : Timeline w) (s : w.State)
      → Shows tl numbers 0 0
      → AfterRound n numbers (execute_attempt w config c n tl s)
  unfolding execute_attempt
  execute_attempt-AfterRound n numbers tl s v =
      let (r, s') = w.execute (attempt_of w c n (some (w.now s))) s in
      after_execute-AfterRound (post_execute_step r n config) r n numbers _ s'
        (post_execute_step-Reflects r n config) (Shows-executed tl numbers 0 0 (w.now s') n r v)

  after_plan-AfterRound :
      (p : PlanStep) (n : ℕ) (numbers : List ℕ) (tl : Timeline w) (s : w.State)
      → PlanReflects p
      → Shows tl numbers 0 0
      → AfterRound n numbers (after_plan w config c p n tl s)
  unfolding after_plan
  after_plan-AfterRound (stop_plan reason) n numbers tl s f v =
      inl (
        Shows-recount _ _ (Shows-quiet tl numbers 0 0 _ refl refl refl v) (sym f.0) (sym f.1),
        refl,
      )
  after_plan-AfterRound execute_now n numbers tl s f v = execute_attempt-AfterRound n numbers tl s v
  after_plan-AfterRound (sleep_then_execute until) n numbers tl s f v =
      execute_attempt-AfterRound n numbers _ (w.sleep_until until s)
        (Shows-quiet tl numbers 0 0 _ refl refl refl v)

  pub round-AfterRound :
      (n : ℕ) (numbers : List ℕ) (tl : Timeline w) (s : w.State)
      → Shows tl numbers 0 0
      → AfterRound n numbers (round w config c n tl s)
  unfolding round
  round-AfterRound n numbers tl s v =
      let (d, s') = w.plan (attempt_of w c n none) s in
      after_plan-AfterRound (plan_step d (w.now s') config) n numbers _ s'
        (plan_step-Reflects d (w.now s') config) (Shows-quiet tl numbers 0 0 _ refl refl refl v)

  -- What the finished saga shows: attempts 1, …, k were executed once each, within the ceiling.
  pub record IsOrderly (r : RecoverySagaResult) : Type 0 where
    pub executed_count : ℕ
    pub shown :
        Shows r.timeline
          (first_numbers executed_count)
          (one_if_recovered r.status)
          (one_if_handoff r.status)
    pub within_ceiling : executed_count ≤ max 1 config.max_attempts
    pub last_attempt : (r.attempts ≡ executed_count) ⊎ (r.attempts ≡ executed_count + 1)

  next-IsOrderly :
      (fuel k : ℕ) (x : Round w)
      → AfterRound (suc k) (first_numbers k) x
      → suc k ≤ max 1 config.max_attempts
      → ((tl : Timeline w) (s : w.State)
          → Shows tl (first_numbers (suc k)) 0 0
          → suc (suc k) ≤ max 1 config.max_attempts
          → IsOrderly (run_rounds w config c fuel (suc (suc k)) tl s).0)
      → IsOrderly (next_round w config c fuel x).0
  unfolding next_round
  next-IsOrderly fuel k (finished r s) (inl (v, a)) le rest = record {
    executed_count = k;
    shown = v;
    within_ceiling = omega arith;
    last_attempt = inr (omega arith);
  }
  next-IsOrderly fuel k (finished r s) (inr (v, a)) le rest = record {
    executed_count = suc k;
    shown = v;
    within_ceiling = le;
    last_attempt = inl a;
  }
  next-IsOrderly fuel k (again m tl s) (v, e, ceiling) le rest =
      subst (λ n. IsOrderly (run_rounds w config c fuel n tl s).0) (omega arith)
        (rest tl s v (omega arith))

  run_rounds-IsOrderly :
      (fuel k : ℕ) (tl : Timeline w) (s : w.State)
      → Shows tl (first_numbers k) 0 0
      → suc k ≤ max 1 config.max_attempts
      → config.max_attempts < k + fuel
      → IsOrderly (run_rounds w config c fuel (suc k) tl s).0
  unfolding run_rounds next_round
  run_rounds-IsOrderly zero k tl s v le enough = absurd (omega arith)
  run_rounds-IsOrderly (suc fuel) k tl s v le enough =
      next-IsOrderly fuel k (round w config c (suc k) tl s)
        (round-AfterRound (suc k) (first_numbers k) tl s v) le
        λ tl' s' v' le'. run_rounds-IsOrderly fuel (suc k) tl' s' v' le' (omega arith)

  -- The timeline shows executions under the attempt numbers 1, 2, …, k, within the ceiling, and as many
  -- successes and pending charges as the status reports.
  pub run_recovery_saga-IsOrderly : (s : w.State) → IsOrderly (run_recovery_saga w config c s).0
  unfolding run_recovery_saga
  run_recovery_saga-IsOrderly s =
      run_rounds-IsOrderly (config.max_attempts + 2) 0 [] s
        (record { numbers_are = refl; successes_are = refl; pendings_are = refl }) (omega arith)
        (omega arith)
