-- ===== src/Bank.antt =====
-- The bank module: modules/bank.
pub mod Messages
pub mod Handlers
