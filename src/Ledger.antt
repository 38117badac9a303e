-- ===== src/Ledger.antt =====
-- app/consumer/mongo_ledger.go: the ledger that is kept in MongoDB.
pub mod Retry
pub mod Entries
pub mod Sums
pub mod Balance
pub mod Accounts
pub mod Indexes
pub mod Copies
pub mod Duplicates
