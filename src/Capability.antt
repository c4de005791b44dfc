-- ===== src/Capability.antt =====
-- The capabilities that modules are given: the files of capability/.
pub mod Balances
pub mod Accounts
pub mod Validators
pub mod Manager
