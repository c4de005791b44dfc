-- ===== src/Types.antt =====
-- The data model: types/coin.go, types/account.go, types/authorization.go, types/multisign.go and
-- types/transaction.go.
pub mod Coin
pub mod Coins
pub mod AccountName
pub mod Authority
pub mod Signature
pub mod Authorization
pub mod Coordinator
pub mod Transaction
