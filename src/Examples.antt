-- ===== src/Examples.antt =====
-- Runs of the theorems at concrete inputs.
mod Types
mod Effects
mod Money
mod Stores
mod Calls
mod Modules
mod Signing
