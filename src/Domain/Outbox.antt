-- ===== src/Domain/Outbox.antt =====
-- internal/domain/payment.go: outbox events, and the command that commits a change of a payment.
use payment_ledger_platform.Base.{Bool, String, List}
use payment_ledger_platform.Domain.Payment.{PaymentStatus}
use payment_ledger_platform.Domain.Ledger.{LedgerEntry}

pub record OutboxEvent : Type 0 where
  pub id : String
  pub aggregate_id : String
  pub event_type : String
  pub payload : String
  pub published : Bool

pub record PaymentCommand (A : Type 0) : Type 0 where
  pub payment_id : String
  pub provider_reference : String
  pub event_type : String
  pub status : PaymentStatus
  pub amount : A
  pub ledger : List (LedgerEntry A)
  pub event : OutboxEvent
