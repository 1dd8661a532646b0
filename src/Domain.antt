-- ===== src/Domain.antt =====
-- internal/domain/payment.go: the data of the platform and the checks on it. Identifiers from
-- `uuid.NewString` are arguments of the constructors.
pub mod Payment
pub mod Ledger
pub mod Outbox
pub mod Payout
pub mod Dispute
