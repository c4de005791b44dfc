-- ===== src/Store.antt =====
-- The stores: the objects behind the interface of store/store.go, the cached store that implements it, the
-- stores of bytes, and the stores of balances, accounts and validators.
pub mod Objects
pub mod Cache
pub mod Levels
pub mod Memory
pub mod Prefix
pub mod Cached
pub mod Balance
pub mod Accounts
pub mod Validators
