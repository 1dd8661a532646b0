-- ===== src/Store.antt =====
-- internal/store: what the services ask of a store, and the store in memory.
pub mod State
pub mod Memory
pub mod Steps
pub mod WellFormed
pub mod History
pub mod Interface
pub mod Balance
pub mod Answers
pub mod Sql
pub mod Claims
