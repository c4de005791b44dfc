-- ===== src/Auth.antt =====
-- The module for accounts, modules/auth.
pub mod Messages
pub mod Handlers
pub mod Validation
