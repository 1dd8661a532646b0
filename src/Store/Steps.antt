-- ===== src/Store/Steps.antt =====
-- internal/store/store.go: the calls of `MemoryStore` that can change it, as data. Each method
-- holds the mutex throughout, so any use of the store by any number of goroutines is a list of
-- such calls, in the order in which they took the mutex.
use payment_ledger_platform.Base.{String, List, [], ◌∷◌}
use payment_ledger_platform.Amount.{Decimal}
use payment_ledger_platform.Domain.Payment.{PaymentStatus, Payment}
use payment_ledger_platform.Domain.Ledger.{LedgerEntry}
use payment_ledger_platform.Domain.Outbox.{OutboxEvent, PaymentCommand}
use payment_ledger_platform.Domain.Payout.{PayoutStatus, Payout}
use payment_ledger_platform.Domain.Dispute.{DisputeStatus, Dispute}
use payment_ledger_platform.Store.State.{MemoryStore}
use payment_ledger_platform.Store.Memory.Payments.{
  create_payment, transition, apply_amount, append_ledger, commit_payment_command,
}
use payment_ledger_platform.Store.Memory.Outbox.{enqueue, mark_published, register_webhook}
use payment_ledger_platform.Store.Memory.Payouts.{create_payout, transition_payout}
use payment_ledger_platform.Store.Memory.Disputes.{create_dispute, resolve_dispute}

pub data StoreCall (A : Type 0) : Type 0 where
  creates_payment : Payment A → String → StoreCall A
  transitions : String → PaymentStatus → String → StoreCall A
  applies_amount : String → PaymentStatus → A → StoreCall A
  appends_ledger : List (LedgerEntry A) → StoreCall A
  enqueues : OutboxEvent → StoreCall A
  marks_published : String → StoreCall A
  registers_webhook : String → StoreCall A
  commits : PaymentCommand A → StoreCall A
  creates_payout : Payout A → List (LedgerEntry A) → OutboxEvent → StoreCall A
  transitions_payout :
      String → PayoutStatus → String → List (LedgerEntry A) → OutboxEvent → StoreCall A
  creates_dispute : Dispute A → List (LedgerEntry A) → OutboxEvent → StoreCall A
  resolves_dispute : String → DisputeStatus → List (LedgerEntry A) → OutboxEvent → StoreCall A

module _ {A : Type 0} ⦃d : Decimal A⦄ where
  -- The store after the call, whatever it returns.
  unfoldable pub step : StoreCall A → MemoryStore A → MemoryStore A
  step (creates_payment p key) s = (create_payment p key s).1
  step (transitions id to reference) s = (transition id to reference s).1
  step (applies_amount id action amount) s = (apply_amount id action amount s).1
  step (appends_ledger entries) s = (append_ledger entries s).1
  step (enqueues event) s = (enqueue event s).1
  step (marks_published id) s = (mark_published id s).1
  step (registers_webhook id) s = (register_webhook id s).1
  step (commits command) s = (commit_payment_command command s).1
  step (creates_payout p entries event) s = (create_payout p entries event s).1
  step (transitions_payout id status reference entries event) s =
      (transition_payout id status reference entries event s).1
  step (creates_dispute dispute entries event) s = (create_dispute dispute entries event s).1
  step (resolves_dispute id status entries event) s = (resolve_dispute id status entries event s).1

  unfoldable pub run : List (StoreCall A) → MemoryStore A → MemoryStore A
  run [] s = s
  run (c ∷ cs) s = run cs (step c s)
