-- ===== src/Examples.antt =====
-- Concrete data, runs of the code on it, and the theorems at inputs that meet their hypotheses.
pub mod Cents
pub mod Data
mod Scenarios
mod PaymentWitnesses
mod ServiceWitnesses
mod TransferWitnesses
mod WorkerWitnesses
mod EdgeWitnesses
pub mod SqlData
mod SqlWitnesses
mod MigrateWitnesses
mod RedisWitnesses
