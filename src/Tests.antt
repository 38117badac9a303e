-- ===== src/Tests.antt =====
-- Concrete environments and runs of the modelled code: pkg/dbx, app/store, app/service, app/consumer.
mod World
mod Transfers
mod Accounts
mod Ledger
mod Server
mod Names
mod Flow
mod Sessions
mod Interleaving
mod Api
mod Commands
mod Overwriting
mod Conserved
mod Opening
mod Web
mod InFlight
