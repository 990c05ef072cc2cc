-- ===== src/RecoveryCase/Calls.antt =====
-- The calls of the recovery case service, one after another (recovery-case.service.ts).
use ax10m.Common.{ℕ, Option, List}
use ax10m.RecoveryCase.{Invoice, PaymentMethod, DeclineEvent, Host, CaseState}
use ax10m.RecoveryCase.Plan.{plan_attempt}
use ax10m.RecoveryCase.Intake.{CanonicalEvent, ingest}
use ax10m.RecoveryCase.Fresh.{ExecuteInput}
use ax10m.RecoveryCase.Execute.{execute_recovery}

module _ (h : Host) where
  -- The calls of the service that lead from one state to another, whether they return or throw.
  pub data Leads (s : CaseState h) : CaseState h → Type 0 where
    none_yet : Leads s s
    ingested : {t : CaseState h} (es : List CanonicalEvent) → Leads s t → Leads s (ingest h es t).1
    planned :
        {t : CaseState h} (invoice : Invoice) (m : Option PaymentMethod) (d : Option DeclineEvent)
        (n : ℕ)
        → Leads s t
        → Leads s (plan_attempt h invoice m d n t).1
    executed : {t : CaseState h} (p : ExecuteInput) → Leads s t → Leads s (execute_recovery h p t).1
