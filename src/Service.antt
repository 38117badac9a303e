-- ===== src/Service.antt =====
-- app/service: the gRPC services over the store and the broker.
pub mod Bank
pub mod Calls
pub mod Transactions
pub mod Sessions
pub mod Interleaving
pub mod Accounts
