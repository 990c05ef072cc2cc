-- ===== src/Scheduler/Sequenced/Ceiling.antt =====
-- `maxAttempts` of packages/scheduler/src/config.ts and the sequenced driver, which does not read it.
use ax10m.Common.{ℕ, ◌≡◌, some, List, map}
use ax10m.Scheduler.{
  SchedulerConfig, ExecuteResult, charged, failed, exhausted, RecoverySagaResult, AttemptInput,
  RetryStep, World,
}
use ax10m.Scheduler.Timeline.{Shows}
use ax10m.Scheduler.Driver.{Timeline}

-- The result of a charge that was declined again.
abbrev pub declined : ExecuteResult
declined = record { action = charged; outcome = some failed }

abbrev step_numbers : List RetryStep → List ℕ
step_numbers = map (λ st. st.attempt_number)

module _ (w : World) (config : SchedulerConfig) (c : w.Case)
    (declines : (a : AttemptInput w.Case) (s : w.State) → (w.execute a s).0 ≡ declined) where
  -- The whole plan has been charged.
  abbrev pub ChargedAll : List ℕ → RecoverySagaResult → Type 0
  ChargedAll numbers r = Shows r.timeline numbers 0 0 × (r.status ≡ exhausted)
