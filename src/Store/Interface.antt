-- ===== src/Store/Interface.antt =====
-- internal/store/store.go: the interface `Store`, and the store in memory as one.
use payment_ledger_platform.Base.{ℕ, Bool, String, List}
use payment_ledger_platform.Base.Dict.{Dict}
use payment_ledger_platform.Error.{Done, Exec}
use payment_ledger_platform.Amount.{Decimal}
use payment_ledger_platform.Domain.Payment.{PaymentStatus, Payment}
use payment_ledger_platform.Domain.Ledger.{LedgerEntry}
use payment_ledger_platform.Domain.Outbox.{OutboxEvent, PaymentCommand}
use payment_ledger_platform.Domain.Payout.{PayoutStatus, Payout}
use payment_ledger_platform.Domain.Dispute.{DisputeStatus, Dispute}
use payment_ledger_platform.Store.State.{MemoryStore}
use payment_ledger_platform.Store.Memory.Payments
use payment_ledger_platform.Store.Memory.Outbox
use payment_ledger_platform.Store.Memory.Payouts
use payment_ledger_platform.Store.Memory.Disputes

-- `S` is the state of whatever implements the interface.
pub record Store (S A : Type 0) : Type 0 where
  pub create_payment : Payment A → String → Exec S (Payment A × Bool)
  pub get_payment : String → Exec S (Payment A)
  pub get_payment_by_provider_reference : String → Exec S (Payment A)
  pub transition : String → PaymentStatus → String → Exec S (Payment A)
  pub apply_amount : String → PaymentStatus → A → Exec S (Payment A)
  pub append_ledger : List (LedgerEntry A) → Exec S Done
  pub enqueue : OutboxEvent → Exec S Done
  pub claim_outbox : ℕ → Exec S (List OutboxEvent)
  pub mark_published : String → Exec S Done
  pub register_webhook : String → Exec S Bool
  pub commit_payment_command : PaymentCommand A → Exec S (Payment A)
  pub create_payout : Payout A → List (LedgerEntry A) → OutboxEvent → Exec S (Payout A)
  pub get_payout : String → Exec S (Payout A)
  pub available_balance : String → String → Exec S A
  pub transition_payout :
      String → PayoutStatus → String → List (LedgerEntry A) → OutboxEvent → Exec S (Payout A)
  pub create_dispute : Dispute A → List (LedgerEntry A) → OutboxEvent → Exec S (Dispute A)
  pub get_dispute : String → Exec S (Dispute A)
  pub resolve_dispute :
      String → DisputeStatus → List (LedgerEntry A) → OutboxEvent → Exec S (Dispute A)

-- The orders in which Go visits the maps of a store, which the language leaves open.
pub record Visits (A : Type 0) : Type 0 where
  pub payments : Dict (Payment A) → Dict (Payment A)
  pub outbox : Dict OutboxEvent → Dict OutboxEvent

module _ {A : Type 0} ⦃d : Decimal A⦄ where
  abbrev pub memory : Visits A → Store (MemoryStore A) A
  memory visits = record {
    create_payment = Payments.create_payment;
    get_payment = Payments.get_payment;
    get_payment_by_provider_reference = Payments.get_payment_by_provider_reference visits.payments;
    transition = Payments.transition;
    apply_amount = Payments.apply_amount;
    append_ledger = Payments.append_ledger;
    enqueue = Outbox.enqueue;
    claim_outbox = Outbox.claim_outbox visits.outbox;
    mark_published = Outbox.mark_published;
    register_webhook = Outbox.register_webhook;
    commit_payment_command = Payments.commit_payment_command;
    create_payout = Payouts.create_payout;
    get_payout = Payouts.get_payout;
    available_balance = Payouts.available_balance;
    transition_payout = Payouts.transition_payout;
    create_dispute = Disputes.create_dispute;
    get_dispute = Disputes.get_dispute;
    resolve_dispute = Disputes.resolve_dispute;
  }
