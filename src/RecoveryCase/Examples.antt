-- ===== src/RecoveryCase/Examples.antt =====
-- Instances of the theorems on the recovery case service, with a processor that answers every charge with
-- success, and as a replay from the second call on.
use ax10m.Common.{
  ℕ, ◌+◌, ◌-◌, ◌*◌, ◌≡◌, ◌≤◌, refl, true, false, String, some, none, [], ◌∷◌, ltb, min, max,
}
use ax10m.Common.Int.{pos, pos_part, ◌+ℤ◌}
use ax10m.Common.Action.{ok, thrown, Ends}
use ax10m.Common.Action
use ax10m.Guardrail.{evaluate}
use ax10m.Reversals.{sum_from}
use ax10m.RecoveryEngine.FeatureStore.{enrich, record_outcome, bin_lookup, first_match}
use ax10m.RecoveryCase.{read_clock, note}
use ax10m.RecoveryCase.Plan.{features_for, ask_policy, decide_at}
use ax10m.RecoveryCase.Attempt.{
  attempt_recovery, charge, call_processor, settle, report, learn_from,
}
use ax10m.RecoveryCase.Fresh.{read_window, execute_credential_recovery, try_processor, charge_fresh}
use ax10m.RecoveryCase.Execute.{update_credential}
use ax10m.Scheduler.{pending, card_update_comms}
use ax10m.Common.{if◌then◌else◌}
use ax10m.RecoveryCase.Execute.{retry_credential}
use ax10m.RecoveryCase.Deliver.{send_once, call_sender}
use ax10m.Scheduler.{default_scheduler_config}
use ax10m.RecoveryCase.Port.{
  Temporal, SagaCase, PortState, recovery_workflow, recovery_sequence_workflow,
}
use ax10m.RecoveryCase.Verdicts.{ends_as_recovered}
use ax10m.RecoveryCase.Sagas.Recovers.{
  recovery_workflow-recovers, recovery_sequence_workflow-recovers, recovery_workflow-shadow,
}
use ax10m.Common.Dict.{str_eq}
use ax10m.Canonical.{do_not_honor, lost_card, family_of}
use ax10m.Billing.{Numbers}
use ax10m.Comms.{email, sent, plain_result, DunningMessage}
use ax10m.Scheduler.{retry, RecoveryActionKind, succeeded}
use ax10m.Reversals.{net_recovered_for_invoice}
use ax10m.RecoveryCase.{Invoice, PaymentMethod, Customer, DeclineEvent, Host, CaseState}
use ax10m.RecoveryCase.Intake.{CanonicalEvent, invoice_failed, ingest}
use ax10m.RecoveryCase.Deliver.{deliver_dunning, delivered, DunningDelivery}
use ax10m.RecoveryCase.Fresh.{ExecuteInput, has_succeeded}
use ax10m.RecoveryCase.Execute.{execute_recovery}
use ax10m.RecoveryCase.Calls.{Leads, none_yet, ingested, executed}
use ax10m.RecoveryCase.Shadow.{traces}
use ax10m.RecoveryCase.Recovered.{gain}
use ax10m.RecoveryCase.Recovered.{execute_recovery-recovers}
use ax10m.RecoveryCase.Books.{Books}
use ax10m.RecoveryCase.Reached.{IsNew}
use ax10m.RecoveryCase.Credentials.{attempts_on}
use ax10m.RecoveryCase.Charged.{watched, charges_on, Leads-Charged}
use ax10m.RecoveryCase.Once.{deliver_dunning-once, is_delivered}

abbrev numbers : Numbers
numbers = record {
  Real = ℕ;
  of_int = pos_part;
  ratio = λ a b. min a 1 * 100;
  sub = λ a b. a - b;
  mul = λ a b. a * b;
  div = λ a b. a;
  min_of = min;
  max_of = max;
  lt = ltb;
  round = pos;
}

abbrev notice : DunningMessage
notice = record { channel = email; subject = some "Update your card"; body = "Please." }

abbrev refreshed_card : PaymentMethod
refreshed_card = record {
  id = "pm_1";
  processor_ref = "card_1";
  token = "tok_2";
  brand = some "visa";
  last4 = some "4242";
  bin = some "424242";
  auto_updated = some true;
}

abbrev backup_card : PaymentMethod
backup_card = record refreshed_card { id = "pm_2"; token = "tok_3" }

abbrev host : Host
host = record {
  numbers = numbers;
  add = λ a b. a + b;
  hashed = record { join = λ s parts. s; top_bits = λ material. 50 };
  idempotency_digest = λ s. s;
  tests = record { is_blank = λ s. str_eq s ""; contains_pan_like = λ s b. false };
  lower_case = λ s. s;
  decimal = λ n. "1";
  holdout = record { control_fraction = 10; salt = "v1" };
  features_config = record {
    customer_prior = record { alpha = 1; beta = 1 };
    issuer_prior = record { alpha = 1; beta = 1 };
    region_index = [];
  };
  Processor = ℕ;
  processor_id = "stripe";
  attempt_charge = λ invoice m key calls. (
    ok (record {
      outcome = if str_eq m.token "tok_2" then pending else succeeded;
      idempotent_replay = ltb 0 calls;
      decline_code = none;
    }),
    calls + 1,
  );
  fetch_updated_card = λ m calls. (ok (some refreshed_card), calls);
  list_payment_methods = λ c calls. (ok (backup_card ∷ []), calls);
  Policy = RecoveryActionKind;
  decide = λ f context p. (record { action = p; retry_at = none }, p);
  update = λ f d reward p. p;
  model = λ f. 100;
  Clock = ℕ;
  tick = λ now. (now, now + 60000);
  Mail = ℕ;
  sender = some (λ posted m r. (posted + 1, plain_result sent m.channel "relay"));
  compose = λ context. ok notice;
  dunning_config = none;
  live_comms = true;
  Dispatched = ℕ;
  dispatch = λ request n. (ok tt, n + 1);
  durable_recovery = true;
  live_charging = true;
}

abbrev start : CaseState host
start = record {
  ledger = [];
  opened_invoices = [];
  attempts = [];
  credential_attempts = [];
  sent_keys = [];
  features = record { customers = []; issuers = [] };
  merchants = [];
  processor = 0;
  policy = retry;
  clock = 1800000000000;
  mail = 0;
  dispatched = 0;
}

abbrev invoice : Invoice
invoice = record {
  id = "in_1";
  merchant_id = "m_1";
  customer_id = "c_1";
  amount = 4900;
  currency = "USD";
  first_failed_at = some (some 1799990000000);
}

abbrev card : PaymentMethod
card = record refreshed_card { token = "tok_1"; auto_updated = none }

abbrev payer : Customer
payer = record {
  id = "c_1";
  email_address = some "a@b.co";
  phone = none;
  created_at = some 1700000000000;
  consent = record { email_consent = true; sms_consent = false; globally_opted_out = false };
}

abbrev declined : DeclineEvent
declined = record { code = do_not_honor; family = family_of do_not_honor }

abbrev attempt : ExecuteInput
attempt = record {
  invoice = invoice;
  method = card;
  decline = some declined;
  attempt_number = 1;
  local_hour = some 10;
  minutes_since_last_attempt = none;
  customer = some payer;
  now_iso = none;
  shadow = false;
}

abbrev failure : CanonicalEvent
failure = record {
  merchant_id = "m_1";
  occurred_at = some 1799990000000;
  payload = invoice_failed (record {
    invoice = some invoice;
    decline = some declined;
    method = some card;
    customer = some payer;
  });
}

execute_recovery-recovers_example :
    let end = execute_recovery host attempt start in
    Ends
      (λ o t.
        (k : String)
        → net_recovered_for_invoice k t.ledger
          ≡ net_recovered_for_invoice k [] +ℤ gain invoice (has_succeeded o.outcome) k)
      (λ t. (k : String) → net_recovered_for_invoice k t.ledger ≡ net_recovered_for_invoice k [])
      end.0
      end.1
execute_recovery-recovers_example = execute_recovery-recovers host attempt start

abbrev watched_start : CaseState (watched host)
watched_start = record {
  ledger = [];
  opened_invoices = [];
  attempts = [];
  credential_attempts = [];
  sent_keys = [];
  features = record { customers = []; issuers = [] };
  merchants = [];
  processor = (0, []);
  policy = retry;
  clock = 1800000000000;
  mail = 0;
  dispatched = 0;
}

watched_start-IsNew : IsNew (watched host) watched_start
watched_start-IsNew = record { no_entry = refl; no_attempt = refl; no_case = refl }

abbrev after_failure : CaseState (watched host)
after_failure = (ingest (watched host) (failure ∷ failure ∷ []) watched_start).1

abbrev after_attempt : CaseState (watched host)
after_attempt = (execute_recovery (watched host) attempt after_failure).1

attempt-Leads : Leads (watched host) watched_start after_attempt
attempt-Leads = executed attempt (ingested (failure ∷ failure ∷ []) none_yet)

Leads-Charged_example :
    ((k : String)
      → (charges_on k after_attempt.processor.1 ≡ attempts_on k after_attempt.credential_attempts)
        × (charges_on k after_attempt.processor.1 ≤ 15))
    × Books (watched host) 0 0 after_attempt
Leads-Charged_example = Leads-Charged host watched_start-IsNew refl attempt-Leads

-- An attempt that is carried out twice, the second time as a replay, is claimed twice.
abbrev once_charged : CaseState host
once_charged = (execute_recovery host attempt start).1

replayed_twice :
    net_recovered_for_invoice "in_1" (execute_recovery host attempt once_charged).1.ledger
    ≡ pos 9800
unfolding sum_from execute_recovery Action.◌>>=◌ features_for read_clock Action.gets read_window
    ask_policy note Action.modify retry_credential attempt_recovery evaluate enrich decide_at charge
    call_processor settle report learn_from record_outcome ◌+ℤ◌ family_of bin_lookup first_match
replayed_twice = refl

-- While the charge of the refreshed card is pending, the backup method is charged as well.
charged_beside_pending :
    (execute_recovery host attempt (record start { policy = card_update_comms })).1.processor ≡ 2
unfolding execute_recovery Action.◌>>=◌ features_for read_clock Action.gets read_window ask_policy
    note Action.modify update_credential execute_credential_recovery try_processor charge_fresh
    attempt_recovery evaluate enrich decide_at charge call_processor settle report learn_from
    record_outcome family_of bin_lookup first_match
charged_beside_pending = refl

-- A message that has left.
abbrev posted : CaseState host
posted = (deliver_dunning host notice invoice 1 lost_card (some payer) (some 10) start).1

abbrev answer : DunningDelivery
answer = delivered (plain_result sent email "relay")

was_sent :
    (deliver_dunning host notice invoice 1 lost_card (some payer) (some 10) start).0
    ≡ ok (some answer)
unfolding deliver_dunning Action.◌>>=◌ evaluate send_once Action.gets call_sender Action.modify
was_sent = refl

deliver_dunning-once_example :
    let again = deliver_dunning host notice invoice 1 lost_card (some payer) (some 11) posted in
    Ends
      (λ o' u. (is_delivered o' ≡ false) × (u.mail ≡ posted.mail))
      (λ u. u.mail ≡ posted.mail)
      again.0
      again.1
deliver_dunning-once_example =
    deliver_dunning-once host notice notice invoice 1 lost_card lost_card (some payer) (some payer)
      (some 10) (some 11) start posted (some answer) was_sent refl none_yet refl

abbrev saga_case : SagaCase
saga_case = record {
  invoice = invoice;
  method = card;
  decline = some declined;
  customer = some payer;
  local_hour = some 10;
  minutes_since_last_attempt = none;
}

-- An activity takes a second.
abbrev workflow_time : Temporal
workflow_time = record { Clock = ℕ; now = λ c. c; sleep = λ ms c. c + ms; spend = λ c. c + 1000 }

abbrev saga_start : PortState host workflow_time
saga_start = record { clock = 1800000000000; service = start; broken = false }

recovery_workflow-recovers_example :
    let end =
      recovery_workflow host workflow_time false default_scheduler_config saga_case saga_start in
    Ends
      (λ r t.
        (k : String)
        → net_recovered_for_invoice k t.service.ledger
          ≡ net_recovered_for_invoice k [] +ℤ gain invoice (ends_as_recovered r.status) k)
      (λ t.
        (k : String)
        → net_recovered_for_invoice k t.service.ledger ≡ net_recovered_for_invoice k [])
      end.0
      end.1
recovery_workflow-recovers_example =
    recovery_workflow-recovers host workflow_time false default_scheduler_config saga_case
      saga_start refl

recovery_sequence_workflow-recovers_example :
    let end =
      recovery_sequence_workflow host workflow_time false default_scheduler_config saga_case
        saga_start in
    Ends
      (λ r t.
        (k : String)
        → net_recovered_for_invoice k t.service.ledger
          ≡ net_recovered_for_invoice k [] +ℤ gain invoice (ends_as_recovered r.status) k)
      (λ t.
        (k : String)
        → net_recovered_for_invoice k t.service.ledger ≡ net_recovered_for_invoice k [])
      end.0
      end.1
recovery_sequence_workflow-recovers_example =
    recovery_sequence_workflow-recovers host workflow_time false default_scheduler_config saga_case
      saga_start refl

recovery_workflow-shadow_example :
    traces host
      (recovery_workflow host workflow_time true default_scheduler_config saga_case
        saga_start).1.service
    ≡ traces host start
recovery_workflow-shadow_example =
    recovery_workflow-shadow host workflow_time default_scheduler_config saga_case saga_start refl
