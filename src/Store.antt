-- ===== src/Store.antt =====
-- app/store/store.go
pub mod Requests
pub mod Queries
pub mod Updates
pub mod Inserts
pub mod Balances
pub mod Accounts
pub mod Transactions
pub mod Validity
