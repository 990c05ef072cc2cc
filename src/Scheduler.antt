-- ===== src/Scheduler.antt =====
-- The durable charge scheduler of packages/scheduler/src: types.ts, config.ts and runtime.ts here,
-- the decision logic (saga.ts) in Saga, the two drivers in Driver and Sequenced. Instants are
-- milliseconds; a text that `Date.parse` rejects is `none`.
pub mod Saga
pub mod Timeline
pub mod Calls
pub mod Driver
pub mod Sequenced
mod Examples
use ax10m.Common.{ℕ, ◌*◌, ◌+◌, Bool, Option, none, some, List, [], ◌∷◌, ◌++◌, ltb, if◌then◌else◌}

-- An ISO text as `Date.parse` reads it.
abbrev pub Iso : Type 0
Iso = Option ℕ

pub record SchedulerConfig : Type 0 where
  pub max_attempts : ℕ
  pub settlement_window_minutes : ℕ
  pub fallback_backoff_minutes : ℕ

-- `DEFAULT_SCHEDULER_CONFIG`
abbrev pub default_scheduler_config : SchedulerConfig
default_scheduler_config = record {
  max_attempts = 8;
  settlement_window_minutes = 60;
  fallback_backoff_minutes = 60;
}

pub data RecoveryActionKind : Type 0 where
  retry card_update_comms suppress : RecoveryActionKind

-- The part of a `RecoveryDecision` that the sagas read.
pub record RecoveryDecision : Type 0 where
  pub action : RecoveryActionKind
  pub retry_at : Option Iso

pub data ExecutedAction : Type 0 where
  charged shadowed guardrail_suppressed engine_suppressed routed_to_comms : ExecutedAction

pub data ChargeOutcome : Type 0 where
  succeeded failed pending : ChargeOutcome

pub record ExecuteResult : Type 0 where
  pub action : ExecutedAction
  pub outcome : Option ChargeOutcome

pub data StopReason : Type 0 where
  recovered exhausted by_engine by_guardrail to_comms shadow_complete pending_handoff : StopReason

-- What a timeline event says, by its `kind`, with its `detail` (the rationale text is left out).
pub data EventKind : Type 0 where
  planned : RecoveryActionKind → Option Iso → EventKind
  planned_steps : ℕ → EventKind
  slept : ℕ → EventKind
  executed : ExecuteResult → EventKind
  awaiting_settlement : ℕ → EventKind
  stopped : StopReason → EventKind

pub record SagaEvent : Type 0 where
  pub at : ℕ
  pub kind : EventKind
  pub attempt_number : ℕ

pub record RecoverySagaResult : Type 0 where
  pub status : StopReason
  pub attempts : ℕ
  pub timeline : List SagaEvent

-- What a retry step of the sequenced plan asks for (`RetryStep` of recovery-engine).
pub data StepAction : Type 0 where
  charge_step update_step suppress_step : StepAction

pub record RetryStep : Type 0 where
  pub attempt_number : ℕ
  pub at : ℕ
  pub action : StepAction

-- The inputs of an attempt: the case is passed through; the saga sets the number and the time.
pub record AttemptInput (Case : Type 0) : Type 0 where
  pub case : Case
  pub attempt_number : ℕ
  pub now_iso : Option ℕ

-- The runtime and the `RecoveryCasePort` as one world that each call may change: the clock, durable
-- sleep, the engine's plan, the execution of an attempt, and the optional sequence planner.
pub record World : Type 1 where
  pub Case : Type 0
  pub State : Type 0
  pub now : State → ℕ
  pub sleep_until : ℕ → State → State
  pub plan : AttemptInput Case → State → RecoveryDecision × State
  pub execute : AttemptInput Case → State → ExecuteResult × State
  pub plan_sequence : Option (AttemptInput Case → State → List RetryStep × State)

-- `InMemoryRuntime`: a virtual clock and the sleeps that moved it.
pub record InMemoryRuntime : Type 0 where
  pub clock : ℕ
  pub sleeps : List (ℕ × ℕ)

unfoldable pub sleep_in_memory : Iso → InMemoryRuntime → InMemoryRuntime
sleep_in_memory none r = r
sleep_in_memory (some target) r =
    if ltb r.clock target
    then record { clock = target; sleeps = r.sleeps ++ (r.clock, target) ∷ [] }
    else r
