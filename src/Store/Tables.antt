-- ===== src/Store/Tables.antt =====
-- The tables of internal/infra/db/migrations/000001_initial_schema.up.sql as lists of rows, and the
-- SQL statements of internal/infra/db/postgres on them, with the constraints that they meet.
pub mod Rows
pub mod Keys
pub mod Wallets
pub mod Transactions
pub mod Entries
pub mod Messages
pub mod Paging
pub mod Laws
