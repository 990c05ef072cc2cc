-- ===== src/Scheduler/Examples.antt =====
-- A scripted world for the drivers of packages/scheduler/src, and the theorems at it.
use ax10m.Common.{ℕ, ◌+◌, ◌≡◌, refl, some, none, List, [], ◌∷◌, ltb, if◌then◌else◌}
use ax10m.Scheduler.{
  default_scheduler_config, RecoveryDecision, retry, ExecuteResult, charged, succeeded, recovered,
  RecoverySagaResult, RetryStep, charge_step, World,
}
use ax10m.Scheduler.Saga.{plan_step, post_execute_step}
use ax10m.Scheduler.Driver.{round, run_rounds, run_recovery_saga}
use ax10m.Scheduler.Calls.{Call, watched, shown_calls}
use ax10m.Scheduler.Driver.Calls.{CallsOrderly, run_recovery_saga-CallsOrderly}
use ax10m.Scheduler.Driver.Termination.{run_recovery_saga-ends}
use ax10m.Scheduler.Sequenced.{run_sequenced_recovery_saga}
use ax10m.Scheduler.Sequenced.Calls.{Follows, sequenced_saga-Follows}
use ax10m.Scheduler.Sequenced.Ceiling.{declined}

-- The engine always retries in an hour; the processor answers by the script, and declines when the
-- script is over. The state is the clock and what is left of the script.
abbrev answer : List ExecuteResult → ExecuteResult × List ExecuteResult
answer [] = (declined, [])
answer (r ∷ rs) = (r, rs)

abbrev retry_in_an_hour : ℕ → RecoveryDecision
retry_in_an_hour now = record { action = retry; retry_at = some (some (now + 3600000)) }

abbrev three_steps : List RetryStep
three_steps =
    record { attempt_number = 1; at = 100; action = charge_step }
    ∷ record { attempt_number = 2; at = 200; action = charge_step }
    ∷ record { attempt_number = 3; at = 300; action = charge_step }
    ∷ []

abbrev scripted : World
scripted = record {
  Case = Unit {0};
  State = ℕ × List ExecuteResult;
  now = λ s. s.0;
  sleep_until = λ t s. (if ltb s.0 t then t else s.0, s.1);
  plan = λ a s. (retry_in_an_hour s.0, s);
  execute = λ a s. ((answer s.1).0, (s.0, (answer s.1).1));
  plan_sequence = some (λ a s. (three_steps, s));
}

abbrev always_declines : World
always_declines = record {
  Case = Unit {0};
  State = ℕ;
  now = λ s. s;
  sleep_until = λ t s. t;
  plan = λ a s. (retry_in_an_hour s, s);
  execute = λ a s. (declined, s);
  plan_sequence = none;
}

abbrev second_try : List ExecuteResult
second_try = declined ∷ record { action = charged; outcome = some succeeded } ∷ []

-- The second charge succeeds, two hours in.
recovers_on_second :
    (run_recovery_saga scripted default_scheduler_config tt (0, second_try)).0.status ≡ recovered
unfolding run_recovery_saga run_rounds round plan_step post_execute_step
recovers_on_second = refl

run_recovery_saga-CallsOrderly_example :
    let (r, t) =
      run_recovery_saga (watched scripted) default_scheduler_config tt ((0, second_try), []) in
    CallsOrderly scripted default_scheduler_config tt r t.1
run_recovery_saga-CallsOrderly_example =
    run_recovery_saga-CallsOrderly scripted default_scheduler_config tt (0, second_try)

run_recovery_saga-ends_example :
    run_rounds scripted default_scheduler_config tt 15 1 [] (0, second_try)
    ≡ run_recovery_saga scripted default_scheduler_config tt (0, second_try)
run_recovery_saga-ends_example =
    run_recovery_saga-ends scripted default_scheduler_config tt 5 (0, second_try)

sequenced_saga-Follows_example :
    (out : RecoverySagaResult × ((ℕ × List ExecuteResult) × List (Call (Unit {0}))))
    × (run_sequenced_recovery_saga
          (watched scripted)
          default_scheduler_config
          tt
          ((0, second_try), [])
        ≡ some out)
    × Follows scripted default_scheduler_config tt three_steps out.1.1 out.0.status
    × (out.1.1 ≡ shown_calls tt out.0.timeline)
sequenced_saga-Follows_example =
    sequenced_saga-Follows scripted default_scheduler_config tt (0, second_try) refl
