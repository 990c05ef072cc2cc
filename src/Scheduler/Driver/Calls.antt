-- ===== src/Scheduler/Driver/Calls.antt =====
-- The calls of `execute` that `runRecoverySaga` (packages/scheduler/src/driver.ts) makes: each is in the
-- timeline as it was made, and none follows a charge that succeeded or is pending.
use ax10m.Common.{
  ℕ, zero, suc, ◌+◌, ◌≤◌, ◌≡◌, refl, sym, ap, subst, ◌∙◌, ◌⊎◌, none, some, List, [], ◌∷◌, ◌++◌, map,
  max, arith, All, All-append,
}
use ax10m.Scheduler.{
  SchedulerConfig, ExecuteResult, awaiting_settlement, stopped, pending_handoff, SagaEvent,
  RecoverySagaResult, World,
}
use ax10m.Scheduler.Timeline.{one_if_recovered, one_if_handoff, first_numbers}
use ax10m.Scheduler.Calls.{
  Call, watched, Unsettled, AllButLast, AllButLast-All, AllButLast-snoc, succeeded_calls,
  pending_calls, shown_calls, shown-append, shown-quiet, shown_calls-Counts, shown_calls-case,
}
use ax10m.Scheduler.Saga.{
  PlanStep, sleep_then_execute, execute_now, stop_plan, PostExecuteStep, retry_next,
  await_settlement, stop_after, plan_step, post_execute_step, post_execute_step-retry, add_minutes,
}
use ax10m.Scheduler.Driver.{
  Timeline, Round, finished, again, after_execute, execute_attempt, after_plan, round, run_rounds,
  next_round, run_recovery_saga, attempt_of, stop,
}
use ax10m.Scheduler.Driver.Attempts.{run_recovery_saga-IsOrderly}

retried-Unsettled :
    (r : ExecuteResult) (n m : ℕ) (config : SchedulerConfig) {Case : Type 0} (c : Case)
    → post_execute_step r n config ≡ retry_next m
    → Unsettled (record { case = c; attempt_number = n; result = r })
retried-Unsettled r n m config c e = ground (arith, post_execute_step-retry r n m config e)

module _ (w : World) (config : SchedulerConfig) (c : w.Case) where
  abbrev Log : Type 0
  Log = List (Call w.Case)

  -- Between the rounds every call was a failed charge.
  abbrev Going : List SagaEvent → Log → Type 0
  Going tl log = (log ≡ shown_calls c tl) × All Unsettled log

  -- At the end all calls but the last were.
  abbrev Done : List SagaEvent → Log → Type 0
  Done tl log = (log ≡ shown_calls c tl) × AllButLast Unsettled log

  abbrev AfterRound : Round (watched w) → Type 0
  AfterRound (finished r s) = Done r.timeline s.1
  AfterRound (again n tl s) = Going tl s.1

  still-shown :
      (tl : List SagaEvent) (e : SagaEvent) {log : Log}
      → shown_calls c (tl ++ e ∷ []) ≡ shown_calls c tl
      → log ≡ shown_calls c tl
      → log ≡ shown_calls c (tl ++ e ∷ [])
  still-shown tl e q shown = shown ∙ sym q

  after_execute-AfterRound :
      (v : PostExecuteStep) (r : ExecuteResult) (n : ℕ) (tl : Timeline (watched w))
      (s : (watched w).State) (before : Log)
      → post_execute_step r n config ≡ v
      → s.1 ≡ before ++ record { case = c; attempt_number = n; result = r } ∷ []
      → All Unsettled before
      → s.1 ≡ shown_calls c tl
      → AfterRound (after_execute (watched w) config v n tl s)
  unfolding after_execute stop
  after_execute-AfterRound (stop_after reason) r n tl s before e q a shown = (
    still-shown tl _ (shown-quiet c tl _ refl) shown,
    subst (AllButLast Unsettled) (sym q) (AllButLast-snoc Unsettled before _ a),
  )
  after_execute-AfterRound await_settlement r n tl s before e q a shown =
      let until = add_minutes ((watched w).now s) config.settlement_window_minutes in
      let at = (watched w).now ((watched w).sleep_until until s) in
      let waited : SagaEvent = record {
        at = at;
        kind = awaiting_settlement until;
        attempt_number = n;
      } in
      let ended : SagaEvent = record {
        at = at;
        kind = stopped pending_handoff;
        attempt_number = n;
      } in
      (
        still-shown (tl ++ waited ∷ []) ended (shown-quiet c (tl ++ waited ∷ []) ended refl)
            (still-shown tl waited (shown-quiet c tl waited refl) shown),
        subst (AllButLast Unsettled) (sym q) (AllButLast-snoc Unsettled before _ a),
      )
  after_execute-AfterRound (retry_next m) r n tl s before e q a shown = (
    shown,
    subst (All Unsettled) (sym q)
        (All-append Unsettled before (_ ∷ []) a (retried-Unsettled r n m config c e, tt)),
  )

  execute_attempt-AfterRound :
      (n : ℕ) (tl : Timeline (watched w)) (s : (watched w).State)
      → Going tl s.1
      → AfterRound (execute_attempt (watched w) config c n tl s)
  unfolding execute_attempt
  execute_attempt-AfterRound n tl s g =
      let (r, t) = (watched w).execute (attempt_of (watched w) c n (some ((watched w).now s))) s in
      after_execute-AfterRound (post_execute_step r n config) r n _ t s.1 refl refl g.1 (
        ap (λ (xs : Log). xs ++ record { case = c; attempt_number = n; result = r } ∷ []) g.0
        ∙ sym (shown-append c tl _))

  after_plan-AfterRound :
      (v : PlanStep) (n : ℕ) (tl : Timeline (watched w)) (s : (watched w).State)
      → Going tl s.1
      → AfterRound (after_plan (watched w) config c v n tl s)
  unfolding after_plan stop
  after_plan-AfterRound (stop_plan reason) n tl s g =
      (still-shown tl _ (shown-quiet c tl _ refl) g.0, AllButLast-All Unsettled s.1 g.1)
  after_plan-AfterRound execute_now n tl s g = execute_attempt-AfterRound n tl s g
  after_plan-AfterRound (sleep_then_execute until) n tl s g =
      execute_attempt-AfterRound n _ ((watched w).sleep_until until s)
        (still-shown tl _ (shown-quiet c tl _ refl) g.0, g.1)

  round-AfterRound :
      (n : ℕ) (tl : Timeline (watched w)) (s : (watched w).State)
      → Going tl s.1
      → AfterRound (round (watched w) config c n tl s)
  unfolding round
  round-AfterRound n tl s g =
      let (d, t) = (watched w).plan (attempt_of (watched w) c n none) s in
      after_plan-AfterRound (plan_step d ((watched w).now t) config) n _ t
        (still-shown tl _ (shown-quiet c tl _ refl) g.0, g.1)

  next-Done :
      (fuel : ℕ) (x : Round (watched w))
      → AfterRound x
      → ((n : ℕ) (tl : Timeline (watched w)) (s : (watched w).State)
          → Going tl s.1
          → let (r, t) = run_rounds (watched w) config c fuel n tl s in Done r.timeline t.1)
      → let (r, t) = next_round (watched w) config c fuel x in Done r.timeline t.1
  unfolding next_round
  next-Done fuel (finished r s) d rest = d
  next-Done fuel (again n tl s) g rest = rest n tl s g

  run_rounds-Done :
      (fuel n : ℕ) (tl : Timeline (watched w)) (s : (watched w).State)
      → Going tl s.1
      → let (r, t) = run_rounds (watched w) config c fuel n tl s in Done r.timeline t.1
  unfolding run_rounds next_round stop
  run_rounds-Done zero n tl s g =
      (still-shown tl _ (shown-quiet c tl _ refl) g.0, AllButLast-All Unsettled s.1 g.1)
  run_rounds-Done (suc fuel) n tl s g =
      next-Done fuel (round (watched w) config c n tl s) (round-AfterRound n tl s g)
        (run_rounds-Done fuel)

  -- What a saga has called when it ends in `r`.
  pub record CallsOrderly (r : RecoverySagaResult) (log : Log) : Type 0 where
    pub count : ℕ
    pub numbers_are : map (λ x. x.attempt_number) log ≡ first_numbers count
    pub cases_are : All (λ x. x.case ≡ c) log
    pub within_ceiling : count ≤ max 1 config.max_attempts
    pub recovered_iff : succeeded_calls log ≡ one_if_recovered r.status
    pub handoff_iff : pending_calls log ≡ one_if_handoff r.status
    pub last_decides : AllButLast Unsettled log
    pub attempts_are : (r.attempts ≡ count) ⊎ (r.attempts ≡ count + 1)
    pub timeline_shows : log ≡ shown_calls c r.timeline

  -- For every engine, guardrail, processor and clock: the saga calls `execute` for its case under the
  -- attempt numbers 1, 2, …, k, each once and in order, with k at most the ceiling (or 1, if the ceiling
  -- is 0); it reports `recovered` exactly when one of these charges succeeded and hands off exactly when
  -- one is pending, and never calls again after either; the attempts it reports are k, or k + 1 if it
  -- stopped before the next one; and its timeline shows these calls with their answers.
  pub run_recovery_saga-CallsOrderly :
      (s : w.State)
      → let (r, t) = run_recovery_saga (watched w) config c (s, []) in CallsOrderly r t.1
  unfolding run_recovery_saga
  run_recovery_saga-CallsOrderly s =
      let (r, t) = run_recovery_saga (watched w) config c (s, []) in
      let o = run_recovery_saga-IsOrderly (watched w) config c (s, []) in
      let (shown, last) = run_rounds-Done (config.max_attempts + 2) 1 [] (s, []) (refl, tt) in
      let (numbers, won, waiting) = shown_calls-Counts c r.timeline in
      record {
        count = o.executed_count;
        numbers_are =
            ap (map (λ (x : Call w.Case). x.attempt_number)) shown ∙ numbers ∙ o.shown.numbers_are;
        cases_are = subst (All (λ x. x.case ≡ c)) (sym shown) (shown_calls-case c r.timeline);
        within_ceiling = o.within_ceiling;
        recovered_iff = ap succeeded_calls shown ∙ won ∙ o.shown.successes_are;
        handoff_iff = ap pending_calls shown ∙ waiting ∙ o.shown.pendings_are;
        last_decides = last;
        attempts_are = o.last_attempt;
        timeline_shows = shown;
      }
