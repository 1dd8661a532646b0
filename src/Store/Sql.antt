-- ===== src/Store/Sql.antt =====
-- internal/store/postgres.go: the store in PostgreSQL, over the tables of migrations/*.sql.
pub mod Tables
pub mod Rows
pub mod Inserts
pub mod Updates
pub mod Payments
pub mod Outbox
pub mod Payouts
pub mod Disputes
pub mod Instance
pub mod Atomic
pub mod Abstract
pub mod Refines
pub mod Replay
pub mod Claims
pub mod Leases
pub mod Accepts
pub mod Complete
