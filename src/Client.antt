-- ===== src/Client.antt =====
-- The payloads of the read API, as the terminal client holds them.
pub mod Transactions
pub mod Accounts
pub mod Contracts
