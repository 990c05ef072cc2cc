-- ===== src/RecoveryCase/Sagas.antt =====
-- What a whole saga over the case service does to a property (packages/scheduler/src/driver.ts over
-- apps/api/src/recovery/recovery-case.port.ts), from what one execution does to it.
pub mod Recovers
use ax10m.Common.{
  ◌+◌, ℕ, zero, suc, ◌≡◌, refl, sym, subst, ap, ◌⊎◌, inl, inr, Bool, true, false, ◌||◌, Option,
  none, some, List, [], arith,
}
use ax10m.Common.Action.{Action, Result, ok, thrown, Triple, Keeps, Keeps-end, Ends}
use ax10m.Scheduler.{
  SchedulerConfig, RecoveryDecision, RecoverySagaResult, ExecuteResult, charged,
  guardrail_suppressed, StopReason, recovered, AttemptInput, World,
}
use ax10m.Scheduler
use ax10m.Scheduler.Saga.{
  add_minutes, PlanStep, sleep_then_execute, execute_now, stop_plan, PostExecuteStep, retry_next,
  await_settlement, stop_after, plan_step, post_execute_step,
}
use ax10m.Scheduler.Sequenced.{
  step_verdict, step_stops, stop_now, settle, next_step, run_sequenced_recovery_saga,
}
use ax10m.Scheduler.Sequenced.Rule.{SequenceRule, EndsWell, run_sequenced_recovery_saga-EndsWell}
use ax10m.RecoveryEngine.Sequence.{RetryStep}
use ax10m.Scheduler.Driver.{attempt_of, run_recovery_saga}
use ax10m.Scheduler.Driver.Rule.{Rule, run_recovery_saga-Over}
use ax10m.RecoveryCase.{Host, CaseState}
use ax10m.RecoveryCase.Plan.{plan_attempt, plan_sequence}
use ax10m.RecoveryCase.Fresh.{ExecuteInput, has_succeeded}
use ax10m.RecoveryCase.Execute.{ExecuteOutcome, execute_recovery}
use ax10m.RecoveryCase.Attempt.{RecoveryActionOutcome, attempted}
use ax10m.RecoveryCase.Coherent.{IsCoherent, execute_recovery-IsCoherent}
use ax10m.RecoveryCase.Verdicts.{
  uncharged, executes_unsuppressed, ends_as_recovered, stops_recovered, waits_unrecovered,
  retries_unrecovered, ends_recovered, settles_unrecovered, goes_on_unrecovered, steps_unrecovered,
  plans_unrecovered, sleeps_unsuppressed,
}
use ax10m.RecoveryCase.Port.{
  Temporal, run_again, retried, activity, sequence_case, steps_of, sequenced_result,
  recovery_sequence_workflow, SagaCase, PortState, case_port, execute_input, execute_result,
  map_action, recovery_workflow, result_of, answer_of, has_thrown,
}

module _ {S A : Type 0} {P : S → Type 0} {Q : A → S → Type 0} where
  Ends-run_again :
      (r : Result A) (rest : Action S A) (s : S)
      → Triple P rest Q P
      → Ends Q P r s
      → let end = run_again r rest s in Ends Q P end.0 end.1
  Ends-run_again (ok a) rest s k q = q
  Ends-run_again thrown rest s k p = k.run s p

  -- An activity that may be run again where it was before it threw.
  retried-Triple : {m : Action S A} (n : ℕ) → Triple P m Q P → Triple P (retried n m) Q P
  retried-Triple {m} zero k = record { run = k.run }
  retried-Triple {m} (suc n) k = record {
    run = λ s p. Ends-run_again (m s).0 (retried n m) (m s).1 (retried-Triple n k) (k.run s p);
  }

module _ (h : Host) (time : Temporal) (shadow : Bool) (config : SchedulerConfig) (c : SagaCase)
    (P : CaseState h → Type 0) (Q : Bool → CaseState h → Type 0)
    (plans : (n : ℕ) → Keeps P (plan_attempt h c.invoice (some c.method) c.decline n))
    (sequences : Keeps P (plan_sequence h c.invoice c.method c.decline 1))
    (executes : (n : ℕ) (at : Option ℕ)
      → Triple P
          (execute_recovery h (execute_input shadow c n at))
          (λ o. Q (has_succeeded o.outcome))
          P)
    (lost : (s : CaseState h) → Q false s → P s) (kept : (s : CaseState h) → P s → Q false s) where
  abbrev port : World
  port = case_port h time shadow

  -- No call has thrown.
  abbrev Running : PortState h time → Type 0
  Running s = (s.broken ≡ false) × P s.service

  abbrev Broken : PortState h time → Type 0
  Broken s = (s.broken ≡ true) × P s.service

  abbrev Over : StopReason → PortState h time → Type 0
  Over reason s = ((s.broken ≡ false) × Q (ends_as_recovered reason) s.service) ⊎ Broken s

  abbrev Planned : RecoveryDecision → PortState h time → Type 0
  Planned d s = Running s ⊎ (Broken s × (d.action ≡ Scheduler.suppress))

  abbrev Executed : ExecuteResult → PortState h time → Type 0
  Executed r s =
      ((s.broken ≡ false)
        × Q (has_succeeded r.outcome) s.service
        × (has_succeeded r.outcome ≡ true → r.action ≡ charged))
      ⊎ (Broken s × (r.action ≡ guardrail_suppressed))

  plan-Planned :
      (n : ℕ) (s : PortState h time)
      → Running s
      → let (d, t) = port.plan (attempt_of port c n none) s in Planned d t
  plan-Planned n s q =
      answered (activity (plan_attempt h c.invoice (some c.method) c.decline n) s.service).0
        (Keeps-end _ (retried-Triple 4 (plans n)) s.service q.1)
    where
      answered :
          {t : CaseState h} (r : Result RecoveryDecision)
          → P t
          → Planned
              (answer_of (record { action = Scheduler.suppress; retry_at = none }) (λ d. d) r)
              (record {
                clock = time.spend s.clock;
                service = t;
                broken = has_thrown r || s.broken;
              })
      answered (ok d) p = inl (q.0, p)
      answered thrown p = inr ((refl, p), refl)

  execute-Executed :
      (n : ℕ) (at : Option ℕ) (s : PortState h time)
      → Running s
      → let (r, t) = port.execute (attempt_of port c n at) s in Executed r t
  execute-Executed n at s q =
      let p = execute_input shadow c n at in
      answered (activity (execute_recovery h p) s.service).0
        ((retried-Triple 4 (executes n at)).run s.service q.1)
        ((retried-Triple 4 (execute_recovery-IsCoherent h p)).run s.service tt)
    where
      answered :
          {t : CaseState h} (r : Result ExecuteOutcome)
          → Ends (λ o. Q (has_succeeded o.outcome)) P r t
          → Ends (λ o u. IsCoherent o.action o.outcome) (λ u. Unit {0}) r t
          → Executed
              (answer_of
                (record { action = guardrail_suppressed; outcome = none })
                execute_result
                r)
              (record {
                clock = time.spend s.clock;
                service = t;
                broken = has_thrown r || s.broken;
              })
      answered (ok o) e k =
          inl (q.0, e, λ won. ap (λ (x : RecoveryActionOutcome). map_action x) (k won))
      answered thrown e k = inr ((refl, e), refl)

  unwon : (s : PortState h time) (won : Bool) → won ≡ false → Q won s.service → Q false s.service
  unwon s won e q = subst (λ (x : Bool). Q x s.service) e q

  decided : (s : PortState h time) (a b : Bool) → a ≡ b → Q b s.service → Q a s.service
  decided s a b e q = subst (λ (x : Bool). Q x s.service) (sym e) q

  saga-Rule : Rule port config c Running Planned Executed Over
  saga-Rule = record {
    plans = plan-Planned;
    stops = λ d s reason q e. elim q [
      | inl k ↦ inl (
        k.0,
        subst (λ (x : Bool). Q x s.service)
            (sym (plans_unrecovered d (time.now s.clock) config reason e)) (kept s.service k.1),
      )
      | inr b ↦ inr b.0
    ];
    goes = λ d s q e. elim q [
      | inl k ↦ k
      | inr b ↦ absurd (executes_unsuppressed d (time.now s.clock) config b.1 e)
    ];
    sleeps = λ d s until q e. elim q [
      | inl k ↦ k
      | inr b ↦ absurd (sleeps_unsuppressed d (time.now s.clock) config until b.1 e)
    ];
    executes = λ n s q. execute-Executed n (some (time.now s.clock)) s q;
    ends = λ r n s reason q e. elim q [
      | inl k ↦ inl (
        k.0,
        subst (λ (x : Bool). Q x s.service) (sym (stops_recovered r n config reason k.2 e)) k.1,
      )
      | inr b ↦ inr b.0
    ];
    awaits = λ r n s until q e. elim q [
      | inl k ↦
          inl (k.0, subst (λ (x : Bool). Q x s.service) (waits_unrecovered r n config e).0 k.1)
      | inr b ↦ inr b.0
    ];
    retries = λ r n m s q e.
        let (lose, was) = retries_unrecovered r n config m e in
        elim q [
          | inl k ↦ (k.0, lost s.service (subst (λ (x : Bool). Q x s.service) lose k.1))
          | inr b ↦ absurd (uncharged r b.1 was)
        ];
    runs_out = λ s q. inl (q.0, kept s.service q.1);
  }

  ends :
      (r : RecoverySagaResult) (s : PortState h time)
      → Over r.status s
      → let end = result_of h time (r, s) in
        Ends (λ x t. Q (ends_as_recovered x.status) t.service) (λ t. P t.service) end.0 end.1
  ends r s (inl (b, q)) = rw b q
  ends r s (inr (b, p)) = rw b p

  -- A saga ends in `Q won` if it has a result, and in `P` if the service threw.
  pub workflow-Triple :
      Triple
        (λ s. Running s)
        (recovery_workflow h time shadow config c)
        (λ r t. Q (ends_as_recovered r.status) t.service)
        (λ t. P t.service)
  unfolding recovery_workflow
  workflow-Triple = record {
    run = λ s q.
        let (r, t) = run_recovery_saga port config c s in
        ends r t (run_recovery_saga-Over port config c saga-Rule s q);
  }

  abbrev Sequenced : List Scheduler.RetryStep → PortState h time → Type 0
  Sequenced steps s = Running s ⊎ (Broken s × (steps ≡ []))

  sequence-Sequenced :
      (s : PortState h time)
      → Running s
      → let (l, t) = sequence_case h time (attempt_of port c 1 none) s in Sequenced l t
  sequence-Sequenced s q =
      answered (activity (plan_sequence h c.invoice c.method c.decline 1) s.service).0
        (Keeps-end _ (retried-Triple 4 sequences) s.service q.1)
    where
      answered :
          {t : CaseState h} (r : Result (List (RetryStep (h.numbers.Real))))
          → P t
          → Sequenced (answer_of [] steps_of r) (record {
            clock = time.spend s.clock;
            service = t;
            broken = has_thrown r || s.broken;
          })
      answered (ok l) p = inl (q.0, p)
      answered thrown p = inr ((refl, p), refl)

  saga-SequenceRule : SequenceRule port config c Running Sequenced Executed Over
  saga-SequenceRule = record {
    plans_none = λ s q. elim q [ inl k ↦ inl (k.0, kept s.service k.1) | inr b ↦ inr b.0 ];
    plans_some = λ step steps s q. elim q [ inl k ↦ k | inr b ↦ absurd (cc) ];
    sleeps = λ until s q. q;
    executes = λ n at s q. execute-Executed n (some at) s q;
    stops = λ r s reason q e. elim q [
      | inl k ↦ inl (
        k.0,
        decided s (ends_as_recovered reason) (has_succeeded r.outcome)
            (ends_recovered r reason k.2 e) k.1,
      )
      | inr b ↦ inr b.0
    ];
    waits = λ r s until q e. elim q [
      | inl k ↦ inl (k.0, unwon s (has_succeeded r.outcome) (settles_unrecovered r e) k.1)
      | inr b ↦ inr b.0
    ];
    goes_on = λ r s q e.
        let (lose, was) = goes_on_unrecovered r e in
        elim q [
          | inl k ↦ (k.0, lost s.service (unwon s (has_succeeded r.outcome) lose k.1))
          | inr b ↦ absurd (uncharged r b.1 was)
        ];
    quits = λ step s reason q e. inl (
      q.0,
      decided s (ends_as_recovered reason) false (steps_unrecovered step.action reason e)
          (kept s.service q.1),
    );
    runs_out = λ s q. inl (q.0, kept s.service q.1);
  }

  sequenced-Ends :
      (x : Option (RecoverySagaResult × PortState h time)) (s : PortState h time)
      → P s.service
      → EndsWell port config c saga-SequenceRule x
      → let end = sequenced_result h time x s in
        Ends (λ r t. Q (ends_as_recovered r.status) t.service) (λ t. P t.service) end.0 end.1
  sequenced-Ends none s p e = p
  sequenced-Ends (some x) s p e = ends x.0 x.1 e

  -- The same for a sequenced saga.
  pub sequence_workflow-Triple :
      Triple
        (λ s. Running s)
        (recovery_sequence_workflow h time shadow config c)
        (λ r t. Q (ends_as_recovered r.status) t.service)
        (λ t. P t.service)
  unfolding recovery_sequence_workflow
  sequence_workflow-Triple = record {
    run = λ s q. sequenced-Ends (run_sequenced_recovery_saga port config c s) s q.1 (
        run_sequenced_recovery_saga-EndsWell port config c saga-SequenceRule (sequence_case h time)
          s refl (sequence-Sequenced s q));
  }
