-- ===== src/Scheduler/Driver/Termination.antt =====
-- The loop of `runRecoverySaga` (packages/scheduler/src/driver.ts) and its runaway guard.
use ax10m.Common.{ℕ, zero, suc, ◌+◌, ◌≤◌, ◌<◌, ◌≡◌, refl, sym, subst, none, some, [], arith}
use ax10m.Scheduler.{SchedulerConfig, ExecuteResult, World}
use ax10m.Scheduler.Saga.{
  PostExecuteStep, retry_next, await_settlement, stop_after, PlanStep, stop_plan, execute_now,
  sleep_then_execute, plan_step, post_execute_step, post_execute_step-retry,
}
use ax10m.Scheduler.Driver.{
  Timeline, Round, finished, again, round, run_rounds, next_round, run_recovery_saga, attempt_of,
  after_execute, execute_attempt, after_plan,
}

module _ (w : World) (config : SchedulerConfig) (c : w.Case) where
  -- A round that goes on has the next number, within the ceiling.
  abbrev GoesOn : ℕ → Round w → Type 0
  GoesOn n (finished r s) = Unit {0}
  GoesOn n (again m tl s) = (m ≡ n + 1) × (m ≤ config.max_attempts)

  after_execute-GoesOn :
      (p : PostExecuteStep) (r : ExecuteResult) (n : ℕ) (tl : Timeline w) (s : w.State)
      → post_execute_step r n config ≡ p
      → GoesOn n (after_execute w config p n tl s)
  unfolding after_execute
  after_execute-GoesOn (stop_after reason) r n tl s e = tt
  after_execute-GoesOn await_settlement r n tl s e = tt
  after_execute-GoesOn (retry_next m) r n tl s e =
      let q = post_execute_step-retry r n m config e in (q.0, q.1)

  execute_attempt-GoesOn :
      (n : ℕ) (tl : Timeline w) (s : w.State) → GoesOn n (execute_attempt w config c n tl s)
  unfolding execute_attempt
  execute_attempt-GoesOn n tl s =
      let (r, s') = w.execute (attempt_of w c n (some (w.now s))) s in
      after_execute-GoesOn (post_execute_step r n config) r n _ s' refl

  after_plan-GoesOn :
      (p : PlanStep) (n : ℕ) (tl : Timeline w) (s : w.State)
      → GoesOn n (after_plan w config c p n tl s)
  unfolding after_plan
  after_plan-GoesOn (stop_plan reason) n tl s = tt
  after_plan-GoesOn execute_now n tl s = execute_attempt-GoesOn n tl s
  after_plan-GoesOn (sleep_then_execute until) n tl s =
      execute_attempt-GoesOn n _ (w.sleep_until until s)

  round-GoesOn : (n : ℕ) (tl : Timeline w) (s : w.State) → GoesOn n (round w config c n tl s)
  unfolding round
  round-GoesOn n tl s =
      let (d, s') = w.plan (attempt_of w c n none) s in
      after_plan-GoesOn (plan_step d (w.now s') config) n _ s'

  next_more :
      (f g n : ℕ) (x : Round w)
      → GoesOn n x
      → ((tl : Timeline w) (s : w.State)
          → n + 1 ≤ config.max_attempts
          → run_rounds w config c f (n + 1) tl s ≡ run_rounds w config c g (n + 1) tl s)
      → next_round w config c f x ≡ next_round w config c g x
  unfolding next_round
  next_more f g n (finished r s) q rest = refl
  next_more f g n (again m tl s) q rest =
      subst (λ k. run_rounds w config c f k tl s ≡ run_rounds w config c g k tl s) (sym q.0)
        (rest tl s (omega arith))

  enough_rounds :
      (f extra n : ℕ) (tl : Timeline w) (s : w.State)
      → config.max_attempts + 1 ≤ n + f
      → 0 < f
      → run_rounds w config c (f + extra) n tl s ≡ run_rounds w config c f n tl s
  unfolding run_rounds next_round
  enough_rounds zero extra n tl s h p = absurd (omega arith)
  enough_rounds (suc f) extra n tl s h p =
      let e : suc (f + extra) ≡ suc f + extra = omega arith in
      subst (λ k. run_rounds w config c k n tl s ≡ run_rounds w config c (suc f) n tl s) e
        (next_more (f + extra) f n (round w config c n tl s) (round-GoesOn n tl s)
          λ tl' s' le. enough_rounds f extra (n + 1) tl' s' (omega arith) (omega arith))

  -- The guard `guard <= maxAttempts + 1` never ends the loop: with any number of further rounds the
  -- saga ends the same way, after the same calls, for every world. So the loop terminates by its
  -- own decisions and the closing `stop('exhausted')` is not reached.
  pub run_recovery_saga-ends :
      (extra : ℕ) (s : w.State)
      → run_rounds w config c (config.max_attempts + 2 + extra) 1 [] s
        ≡ run_recovery_saga w config c s
  unfolding run_recovery_saga
  run_recovery_saga-ends extra s =
      enough_rounds (config.max_attempts + 2) extra 1 [] s (omega arith) (omega arith)
