-- ===== src/Store/Sql/Refines.antt =====
-- internal/store/postgres.go against internal/store/store.go: what each call that succeeds does.
pub mod Values
pub mod Inserts
pub mod Payments
pub mod Entries
pub mod Commits
pub mod Disputes
pub mod Balance
pub mod Payouts
pub mod Outbox
pub mod History
pub mod Reads
pub mod ReadBack
