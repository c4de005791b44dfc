-- ===== src/Staking.antt =====
-- The module for validators and delegations, modules/staking.
pub mod Messages
pub mod Handlers
pub mod Queries
pub mod Pool
