-- ===== src/Lib.antt =====
-- A model of AX10M, the failed-payment recovery engine, and the theorems that make it correct.
--
-- A declined invoice becomes a recovery case. The canonical decline taxonomy (Canonical:
-- packages/canonical/src/decline-taxonomy.ts) says what kind of failure it is. The scheduler
-- (Scheduler: packages/scheduler/src) asks for a plan, sleeps and has charges executed, until a
-- terminal reason is reached; each charge passes the compliance guardrail (Guardrail:
-- packages/guardrail/src), which no policy overrides. Which attempts are worth planning, and what to
-- do about a dead credential, is decided by the recovery engine (RecoveryEngine:
-- packages/recovery-engine/src). What happens is written to the hash-chained ledger (Ledger:
-- packages/attribution/src/ledger.ts), whose persisted form has many writers (Persistence:
-- packages/persistence/src/ledger-repo.ts), and what is claimed as recovered is tied out against the
-- processor's payout report (Reconciliation: packages/attribution/src/reconciliation.ts). The opt-in
-- of a merchant, its signed acceptance of the terms, the fee, its invoice and the reminders for it are
-- those of Billing (packages/billing/src), and the monthly run over all merchants reads the ledger back
-- and writes its statements to it (BillingRun:
-- apps/api/src/billing). A merchant joins through the onboarding lifecycle (Onboarding:
-- packages/onboarding/src/lifecycle.ts), and its customers are drawn into the arms of the holdout
-- (Assignment: packages/attribution/src/holdout.ts). Messages to customers leave through the
-- transport of Comms (packages/comms/src/sender.ts). Refunds, chargebacks and won disputes of what was
-- recovered are Reversals. The recovery case service (RecoveryCase:
-- apps/api/src/recovery/recovery-case.service.ts) puts these together: it opens a case for a failure
-- (Intake), has the engine plan (Plan), and carries an attempt out (Execute) through the guardrail and
-- the processor (Attempt), with a fresh credential for a dead one (Fresh), or a message to the customer
-- (Deliver); it reads features from the feature store (RecoveryEngine.FeatureStore) and feeds the
-- onboarding of merchants in shadow (Onboarding.Shadow). As the port of the scheduler (Port:
-- apps/api/src/recovery/recovery-case.port.ts) it is run by whole sagas (Sagas:
-- packages/scheduler/src/temporal/workflow.ts).
-- The profit-and-loss report over the ledger is Analytics (apps/api/src/analytics/pnl.ts).
--
-- How the model is written:
--   * Instants are milliseconds since the epoch; a text that `Date.parse` rejects is `none`.
--   * Counts and times are natural numbers, amounts in minor units are integers where they can fall
--     below zero. JavaScript's numbers are exact on both in the ranges that the program uses.
--   * Message and rationale texts that are only shown to people are left out; reasons that a caller
--     can test are constructors.
--   * SHA-256 and `JSON.stringify` are parameters (Ledger.Hashing), as are the port, the runtime and
--     the processor behind the scheduler (Scheduler.World): a theorem about a saga holds for all.
--   * Scores of the recovery engine are any type with a comparison (RecoveryEngine.Scores), and the
--     scoring model is any function on the features.
--   * Fractional numbers of the fee are any type with the operations that the code uses
--     (Billing.Numbers); a theorem that needs more of them says so (Billing.Invoice.Accrual.Monotone).
--   * The adaptive driver's `for` loop is recursion on fuel `maxAttempts + 2`, its own bound;
--     Scheduler.Driver.Termination shows that the loop never runs out of it. Every other loop is
--     structural recursion.
--   * A call of the case service is an action on its state that ends in a result or a throw
--     (Common.Action); a throw keeps the state it was reached in. What a call keeps is proved once per
--     call for any property that its own steps leave alone (RecoveryCase.Keeps, Active, Arrivals), and
--     the histories of a service are the relation RecoveryCase.Calls.Leads. The calls do not overlap.
--   * Where a theorem is about what is called and not only about what is kept, the world or host is
--     wrapped so that it logs the calls beside its own state (`watched` in Scheduler.Calls,
--     RecoveryCase.Charged and BillingRun.Run.Charges); the code under it is the same.
--   * The workflows (packages/scheduler/src/temporal/workflow.ts) run an activity up to five times while
--     it throws, and their time is a parameter (RecoveryCase.Port.Temporal). An activity that has
--     returned is not run again, as it would be when its worker is lost before Temporal hears of it.
--   * The writers of the persisted ledger take their steps in any order that a list of turns gives;
--     17 turns are two for each of the 8 transactions and one to give up.
--   * Billing takes the signer, SHA-256 and the regular expressions on texts as parameters
--     (Billing.Acceptance.Signing, Billing.OptIn.Texts).
--   * Not modelled: the estimators of the uplift and the learning of the recovery engine (floating
--     point), the flush of what a bandit has learned, the persistence of the case service apart from
--     the ledger, the composition of messages, the adapters of the processors, and the user interface.
pub mod Common
pub mod Canonical
pub mod Guardrail
pub mod Ledger
pub mod Scheduler
pub mod Reconciliation
pub mod RecoveryEngine
pub mod Billing
pub mod BillingRun
pub mod Onboarding
pub mod Assignment
pub mod Comms
pub mod Reversals
pub mod RecoveryCase
pub mod Persistence
pub mod Analytics
