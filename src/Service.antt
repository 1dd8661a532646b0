-- ===== src/Service.antt =====
-- internal/service: what the API and the worker do with a store.
pub mod Payments
pub mod Fakes
pub mod Reconciliation
pub mod Metrics
pub mod Outbox
pub mod Payouts
pub mod Disputes
pub mod Journal
