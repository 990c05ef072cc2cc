-- ===== src/RecoveryCase/Sagas/Recovers.antt =====
-- What a whole saga over the case service recovers (packages/scheduler/src/temporal/workflow.ts,
-- `recoveryWorkflow`).
use ax10m.Common.{◌≡◌, refl, sym, ◌∙◌, Bool, true, false, String, some}
use ax10m.Common.Int.{ℤ, ◌+ℤ◌}
use ax10m.Common.Action.{Ends, Ends-same}
use ax10m.Scheduler.{SchedulerConfig}
use ax10m.Reversals.{net_recovered_for_invoice}
use ax10m.RecoveryCase.{Host}
use ax10m.RecoveryCase.Keeps.{plan_attempt-Keeps, plan_sequence-Keeps}
use ax10m.RecoveryCase.Recovered.{gain, Nets, Nets-Calm, add_zero, execute_recovery-Nets}
use ax10m.RecoveryCase.Shadow.{traces, Leaves, Leaves-Calm, execute-Leaves}
use ax10m.RecoveryCase.Port.{
  Temporal, recovery_sequence_workflow, SagaCase, PortState, recovery_workflow, execute_input,
}
use ax10m.RecoveryCase.Sagas.{workflow-Triple, sequence_workflow-Triple}
use ax10m.RecoveryCase.Verdicts.{ends_as_recovered}

module _ (h : Host) (time : Temporal) where
  -- A whole sequenced saga over the case service, in which an activity that throws is run up to five
  -- times and one that has returned is not run again: if it has a result, the net recovered amount of
  -- its invoice has risen by the amount of the invoice, once, if the status is recovered, and by nothing
  -- otherwise; if an activity threw five times, it is as before the saga. Every other invoice's is as
  -- before.
  pub recovery_sequence_workflow-recovers :
      (shadow : Bool) (config : SchedulerConfig) (c : SagaCase) (s : PortState h time)
      → s.broken ≡ false
      → let end = recovery_sequence_workflow h time shadow config c s in
        Ends
          (λ r t.
            (k : String)
            → net_recovered_for_invoice k t.service.ledger
              ≡ net_recovered_for_invoice k s.service.ledger
                +ℤ gain c.invoice (ends_as_recovered r.status) k)
          (λ t.
            (k : String)
            → net_recovered_for_invoice k t.service.ledger
              ≡ net_recovered_for_invoice k s.service.ledger)
          end.0
          end.1
  recovery_sequence_workflow-recovers shadow config c s e =
      (sequence_workflow-Triple h time shadow config c (Nets h net)
          (λ won. Nets h (λ k. net k +ℤ gain c.invoice won k))
          (λ n. plan_attempt-Keeps h (Nets-Calm h net) c.invoice (some c.method) c.decline n)
          (plan_sequence-Keeps h (Nets-Calm h net) c.invoice c.method c.decline 1)
          (λ n at. execute_recovery-Nets h (execute_input shadow c n at) net)
          (λ t q k. q k ∙ add_zero (net k)) (λ t q k. q k ∙ sym (add_zero (net k)))).run
        s (e, λ k. refl)
    where
      net : String → ℤ
      net k = net_recovered_for_invoice k s.service.ledger

  -- A whole saga, whatever the policy, the processor and the clock do, in which an activity that throws
  -- is run up to five times and one that has returned is not run again: if it has a result, the net
  -- recovered amount of its invoice has risen by the amount of the invoice, once, if the status is
  -- recovered, and by nothing otherwise; if an activity threw five times, it is as before the saga.
  -- Every other invoice's is as before.
  pub recovery_workflow-recovers :
      (shadow : Bool) (config : SchedulerConfig) (c : SagaCase) (s : PortState h time)
      → s.broken ≡ false
      → let end = recovery_workflow h time shadow config c s in
        Ends
          (λ r t.
            (k : String)
            → net_recovered_for_invoice k t.service.ledger
              ≡ net_recovered_for_invoice k s.service.ledger
                +ℤ gain c.invoice (ends_as_recovered r.status) k)
          (λ t.
            (k : String)
            → net_recovered_for_invoice k t.service.ledger
              ≡ net_recovered_for_invoice k s.service.ledger)
          end.0
          end.1
  recovery_workflow-recovers shadow config c s e =
      (workflow-Triple h time shadow config c (Nets h net)
          (λ won. Nets h (λ k. net k +ℤ gain c.invoice won k))
          (λ n. plan_attempt-Keeps h (Nets-Calm h net) c.invoice (some c.method) c.decline n)
          (plan_sequence-Keeps h (Nets-Calm h net) c.invoice c.method c.decline 1)
          (λ n at. execute_recovery-Nets h (execute_input shadow c n at) net)
          (λ t q k. q k ∙ add_zero (net k)) (λ t q k. q k ∙ sym (add_zero (net k)))).run
        s (e, λ k. refl)
    where
      net : String → ℤ
      net k = net_recovered_for_invoice k s.service.ledger

  -- A whole saga in shadow, whether it has a result or throws, calls neither the processor nor the
  -- message sender nor the dispatcher, counts no attempt, and adds no report of a charge, a recovery, a
  -- reversal or an opened case to the ledger.
  pub recovery_workflow-shadow :
      (config : SchedulerConfig) (c : SagaCase) (s : PortState h time)
      → s.broken ≡ false
      → traces h (recovery_workflow h time true config c s).1.service ≡ traces h s.service
  recovery_workflow-shadow config c s e =
      let v = traces h s.service in
      let end = recovery_workflow h time true config c s in
      Ends-same (λ t. traces h t.service ≡ traces h s.service) end.0 end.1
        ((workflow-Triple h time true config c (Leaves h v) (λ won. Leaves h v)
            (λ n. plan_attempt-Keeps h (Leaves-Calm h v) c.invoice (some c.method) c.decline n)
            (plan_sequence-Keeps h (Leaves-Calm h v) c.invoice c.method c.decline 1)
            (λ n at. execute-Leaves h v (execute_input true c n at) refl) (λ t q. q) (λ t q. q)).run
          s (e, refl))
