-- ===== src/Scheduler/Sequenced/Calls.antt =====
-- The calls of `execute` that `runSequencedRecoverySaga` (packages/scheduler/src/sequenced-driver.ts) makes
-- of its plan.
use mathlib.Core.List.{append-nil, append_assoc}
use ax10m.Common.{
  ℕ, ◌≡◌, refl, sym, ap, subst, ◌∙◌, ◌⊎◌, inl, inr, Option, none, some, List, [], ◌∷◌, ◌++◌, length,
  arith,
}
use ax10m.Scheduler.{
  SchedulerConfig, ExecuteResult, ExecutedAction, charged, shadowed, guardrail_suppressed,
  engine_suppressed, routed_to_comms, succeeded, failed, pending, StopReason, recovered, exhausted,
  by_engine, by_guardrail, to_comms, shadow_complete, pending_handoff, planned_steps, slept,
  awaiting_settlement, stopped, SagaEvent, RecoverySagaResult, AttemptInput, RetryStep, StepAction,
  charge_step, update_step, suppress_step, World,
}
use ax10m.Scheduler.Calls.{Call, watched, shown_calls, shown-append, shown-quiet}
use ax10m.Scheduler.Saga.{add_minutes}
use ax10m.Scheduler.Driver.{Timeline, record_event, stop, attempt_of}
use ax10m.Scheduler.Sequenced.{
  after_step, charge_at, walk_step, StepVerdict, stop_now, settle, next_step, step_verdict,
  step_stops, run_steps, run_plan, run_sequenced_recovery_saga,
}

-- Why an execution that is no charge ends the saga.
abbrev pub refusal : ExecutedAction → Option StopReason
refusal charged = none
refusal shadowed = some shadow_complete
refusal guardrail_suppressed = some by_guardrail
refusal engine_suppressed = some by_engine
refusal routed_to_comms = some to_comms

-- What a saga for the case `c` does of a plan: the calls it makes, and how it ends.
pub data Followed {Case : Type 0} (c : Case)
    : List RetryStep → List (Call Case) → StopReason → Type 0 where
  plan_over : Followed c [] [] exhausted
  update_due :
      {step : RetryStep}
      → {steps : List RetryStep} → step.action ≡ update_step
      → Followed c (step ∷ steps) [] to_comms
  suppress_due :
      {step : RetryStep}
      → {steps : List RetryStep} → step.action ≡ suppress_step
      → Followed c (step ∷ steps) [] by_engine
  won :
      {step : RetryStep}
      → {steps : List RetryStep} → {r : ExecuteResult} → step.action ≡ charge_step
      → r.action ≡ charged
      → r.outcome ≡ some succeeded
      → Followed c
          (step ∷ steps)
          (record { case = c; attempt_number = step.attempt_number; result = r } ∷ [])
          recovered
  waits :
      {step : RetryStep}
      → {steps : List RetryStep} → {r : ExecuteResult} → step.action ≡ charge_step
      → r.action ≡ charged
      → r.outcome ≡ some pending
      → Followed c
          (step ∷ steps)
          (record { case = c; attempt_number = step.attempt_number; result = r } ∷ [])
          pending_handoff
  refused :
      {step : RetryStep}
      → {steps : List RetryStep} → {r : ExecuteResult} → {reason : StopReason}
      → step.action ≡ charge_step
      → refusal r.action ≡ some reason
      → Followed c
          (step ∷ steps)
          (record { case = c; attempt_number = step.attempt_number; result = r } ∷ [])
          reason
  lost :
      {step : RetryStep}
      → {steps : List RetryStep} → {r : ExecuteResult} → {log : List (Call Case)}
      → {reason : StopReason} → step.action ≡ charge_step
      → r.action ≡ charged
      → (r.outcome ≡ none) ⊎ (r.outcome ≡ some failed)
      → Followed c steps log reason
      → Followed c
          (step ∷ steps)
          (record { case = c; attempt_number = step.attempt_number; result = r } ∷ log)
          reason

stop-verdict :
    (r : ExecuteResult) (reason : StopReason)
    → step_verdict r.action r.outcome ≡ stop_now reason
    → ((r.action ≡ charged) × (r.outcome ≡ some succeeded) × (recovered ≡ reason))
      ⊎ (refusal r.action ≡ some reason)
unfolding step_verdict
stop-verdict r reason e = ground arith

settle-verdict :
    (r : ExecuteResult)
    → step_verdict r.action r.outcome ≡ settle
    → (r.action ≡ charged) × (r.outcome ≡ some pending)
unfolding step_verdict
settle-verdict r e = ground arith

next-verdict :
    (r : ExecuteResult)
    → step_verdict r.action r.outcome ≡ next_step
    → (r.action ≡ charged) × ((r.outcome ≡ none) ⊎ (r.outcome ≡ some failed))
unfolding step_verdict
next-verdict r e = ground arith

stops-action :
    (a : StepAction) (reason : StopReason)
    → step_stops a ≡ some reason
    → ((a ≡ update_step) × (to_comms ≡ reason)) ⊎ ((a ≡ suppress_step) × (by_engine ≡ reason))
unfolding step_stops
stops-action a reason e = ground arith

charge-action : (a : StepAction) → step_stops a ≡ none → a ≡ charge_step
unfolding step_stops
charge-action a e = ground arith

module _ (w : World) (config : SchedulerConfig) (c : w.Case) where
  abbrev Log : Type 0
  Log = List (Call w.Case)

  abbrev End : Type 0
  End = RecoverySagaResult × (watched w).State

  -- A walk that began with the calls `before` has followed the steps.
  pub record Walked (steps : List RetryStep) (before : Log) (x : End) : Type 0 where
    pub calls : Log
    pub log_is : x.1.1 ≡ before ++ calls
    pub followed : Followed c steps calls x.0.status
    pub timeline_shows : x.1.1 ≡ shown_calls c x.0.timeline

  still-shown :
      (tl : List SagaEvent) (e : SagaEvent) {log : Log}
      → shown_calls c (tl ++ e ∷ []) ≡ shown_calls c tl
      → log ≡ shown_calls c tl
      → log ≡ shown_calls c (tl ++ e ∷ [])
  still-shown tl e q shown = shown ∙ sym q

  stop-Walked :
      (steps : List RetryStep) (reason : StopReason) (n : ℕ) (tl : Timeline (watched w))
      (s : (watched w).State)
      → Followed c steps [] reason
      → s.1 ≡ shown_calls c tl
      → Walked steps s.1 (stop (watched w) reason n tl s, s)
  unfolding stop
  stop-Walked steps reason n tl s f shown = record {
    calls = [];
    log_is = sym (append-nil s.1);
    followed = f;
    timeline_shows = still-shown tl _ (shown-quiet c tl _ refl) shown;
  }

  after_step-Walked :
      (v : StepVerdict) (r : ExecuteResult) (step : RetryStep) (steps : List RetryStep)
      (tl : Timeline (watched w)) (s : (watched w).State) (before : Log)
      (rest : Timeline (watched w) → (watched w).State → End)
      → step.action ≡ charge_step
      → step_verdict r.action r.outcome ≡ v
      → s.1 ≡ before ++ record { case = c; attempt_number = step.attempt_number; result = r } ∷ []
      → s.1 ≡ shown_calls c tl
      → ((tl' : Timeline (watched w)) (s' : (watched w).State)
          → s'.1 ≡ shown_calls c tl'
          → Walked steps s'.1 (rest tl' s'))
      → Walked (step ∷ steps) before (after_step (watched w) config v step.attempt_number tl s rest)
  unfolding after_step stop
  after_step-Walked (stop_now reason) r step steps tl s before rest a e q shown go = record {
    calls = record { case = c; attempt_number = step.attempt_number; result = r } ∷ [];
    log_is = q;
    followed = elim (stop-verdict r reason e) [
      | inl k ↦ subst (Followed c _ _) k.2 (won a k.0 k.1)
      | inr k ↦ refused a k
    ];
    timeline_shows = still-shown tl _ (shown-quiet c tl _ refl) shown;
  }
  after_step-Walked settle r step steps tl s before rest a e q shown go =
      let until = add_minutes ((watched w).now s) config.settlement_window_minutes in
      let at = (watched w).now ((watched w).sleep_until until s) in
      let waited : SagaEvent = record {
        at = at;
        kind = awaiting_settlement until;
        attempt_number = step.attempt_number;
      } in
      let ended : SagaEvent = record {
        at = at;
        kind = stopped pending_handoff;
        attempt_number = step.attempt_number;
      } in
      record {
        calls = record { case = c; attempt_number = step.attempt_number; result = r } ∷ [];
        log_is = q;
        followed = waits a (settle-verdict r e).0 (settle-verdict r e).1;
        timeline_shows =
            still-shown (tl ++ waited ∷ []) ended (shown-quiet c (tl ++ waited ∷ []) ended refl)
              (still-shown tl waited (shown-quiet c tl waited refl) shown);
      }
  after_step-Walked next_step r step steps tl s before rest a e q shown go =
      let k = go tl s shown in
      record {
        calls = record { case = c; attempt_number = step.attempt_number; result = r } ∷ k.calls;
        log_is =
            k.log_is
            ∙ ap (λ (xs : Log). xs ++ k.calls) q
            ∙ append_assoc before
                (record { case = c; attempt_number = step.attempt_number; result = r } ∷ [])
                k.calls;
        followed = lost a (next-verdict r e).0 (next-verdict r e).1 k.followed;
        timeline_shows = k.timeline_shows;
      }

  charge_at-Walked :
      (step : RetryStep) (steps : List RetryStep) (tl : Timeline (watched w))
      (s : (watched w).State) (rest : Timeline (watched w) → (watched w).State → End)
      → step.action ≡ charge_step
      → s.1 ≡ shown_calls c tl
      → ((tl' : Timeline (watched w)) (s' : (watched w).State)
          → s'.1 ≡ shown_calls c tl'
          → Walked steps s'.1 (rest tl' s'))
      → Walked (step ∷ steps) s.1 (charge_at (watched w) config c step tl s rest)
  unfolding charge_at
  charge_at-Walked step steps tl s rest a shown go =
      let n = step.attempt_number in
      let s1 = (watched w).sleep_until step.at s in
      let tl1 = record_event (watched w) (slept step.at) n s1 tl in
      let (r, s2) =
        (watched w).execute (attempt_of (watched w) c n (some ((watched w).now s1))) s1 in
      after_step-Walked (step_verdict r.action r.outcome) r step steps _ s2 s.1 rest a refl refl
        (ap (λ (xs : Log). xs ++ record { case = c; attempt_number = n; result = r } ∷ [])
            (still-shown tl _ (shown-quiet c tl _ refl) shown)
          ∙ sym (shown-append c tl1 _))
        go

  walk_step-Walked :
      (o : Option StopReason) (step : RetryStep) (steps : List RetryStep)
      (tl : Timeline (watched w)) (s : (watched w).State)
      (rest : Timeline (watched w) → (watched w).State → End)
      → step_stops step.action ≡ o
      → s.1 ≡ shown_calls c tl
      → ((tl' : Timeline (watched w)) (s' : (watched w).State)
          → s'.1 ≡ shown_calls c tl'
          → Walked steps s'.1 (rest tl' s'))
      → Walked (step ∷ steps) s.1 (walk_step (watched w) config c step o tl s rest)
  unfolding walk_step
  walk_step-Walked (some reason) step steps tl s rest e shown go =
      stop-Walked (step ∷ steps) reason step.attempt_number tl s
        (elim (stops-action step.action reason e) [
          | inl k ↦ subst (Followed c _ _) k.1 (update_due k.0)
          | inr k ↦ subst (Followed c _ _) k.1 (suppress_due k.0)
        ])
        shown
  walk_step-Walked none step steps tl s rest e shown go =
      charge_at-Walked step steps tl s rest (charge-action step.action e) shown go

  run_steps-Walked :
      (steps : List RetryStep) (last : ℕ) (tl : Timeline (watched w)) (s : (watched w).State)
      → s.1 ≡ shown_calls c tl
      → Walked steps s.1 (run_steps (watched w) config c last steps tl s)
  unfolding run_steps
  run_steps-Walked [] last tl s shown = stop-Walked [] exhausted last tl s plan_over shown
  run_steps-Walked (step ∷ steps) last tl s shown =
      walk_step-Walked (step_stops step.action) step steps tl s
        (run_steps (watched w) config c step.attempt_number steps) refl shown
        (run_steps-Walked steps step.attempt_number)

  -- How the saga ends on a plan: by the engine if it is empty, and else as it follows the steps.
  abbrev pub Follows : List RetryStep → Log → StopReason → Type 0
  Follows [] log reason = (log ≡ []) × (reason ≡ by_engine)
  Follows (step ∷ steps) log reason = Followed c (step ∷ steps) log reason

  run_plan-Follows :
      (steps : List RetryStep) (tl : Timeline (watched w)) (s : (watched w).State)
      → s.1 ≡ []
      → s.1 ≡ shown_calls c tl
      → let (r, t) = run_plan (watched w) config c steps tl s in
        Follows steps t.1 r.status × (t.1 ≡ shown_calls c r.timeline)
  unfolding run_plan stop
  run_plan-Follows [] tl s none_yet shown =
      ((none_yet, refl), still-shown tl _ (shown-quiet c tl _ refl) shown)
  run_plan-Follows (step ∷ steps) tl s none_yet shown =
      let k = run_steps-Walked (step ∷ steps) 1 tl s shown in
      (
        subst
            (λ xs.
              Followed c (step ∷ steps) xs
                (run_steps (watched w) config c 1 (step ∷ steps) tl s).0.status)
            (sym (k.log_is ∙ ap (λ (xs : Log). xs ++ k.calls) none_yet)) k.followed,
        k.timeline_shows,
      )

  -- Where the port can plan a sequence, the saga finishes, and of a plan that has steps it calls
  -- `execute` for its case, under the steps' own numbers and in their order, for each step up to the
  -- first that is no charge, or whose call is anything but a failed charge, the latter included, and for
  -- none behind it; if there is no such step it calls for all of them and is exhausted. It reports
  -- `recovered` if that call succeeded, hands off if it is pending, and stops for the reason of the
  -- refusal or of the step otherwise; an empty plan ends by the engine, without a call. The timeline
  -- shows these calls with their answers.
  pub sequenced_saga-Follows :
      (s : w.State) {plan_all : AttemptInput w.Case → w.State → List RetryStep × w.State}
      → w.plan_sequence ≡ some plan_all
      → (out : End) × (run_sequenced_recovery_saga (watched w) config c (s, []) ≡ some out)
        × Follows (plan_all (attempt_of w c 1 none) s).0 out.1.1 out.0.status
        × (out.1.1 ≡ shown_calls c out.0.timeline)
  unfolding run_sequenced_recovery_saga
  sequenced_saga-Follows s {plan_all} e =
      let (steps, t) = plan_all (attempt_of w c 1 none) s in
      let tl = record_event (watched w) (planned_steps (length steps)) 1 (t, []) [] in
      let k = run_plan-Follows steps tl (t, []) refl refl in
      (run_plan (watched w) config c steps tl (t, []), rw e refl, k.0, k.1)
