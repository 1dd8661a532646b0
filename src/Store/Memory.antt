-- ===== src/Store/Memory.antt =====
-- internal/store/store.go: the store in memory. Every method holds the store's mutex from its
-- first line to its return, so a method is one step of the store, and what runs at the same time
-- is some sequence of such steps.
pub mod Payments
pub mod Outbox
pub mod Payouts
pub mod Disputes
