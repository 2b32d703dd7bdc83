-- ===== src/Store.antt =====
-- The database behind internal/application/port, as internal/infra/db uses it.
pub mod Session
pub mod Repos
pub mod Ensures
pub mod Writes
pub mod Relates
pub mod Inside
pub mod Reads
pub mod Atomic
pub mod Balance
pub mod Tables
