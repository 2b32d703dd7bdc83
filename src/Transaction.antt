-- ===== src/Transaction.antt =====
-- internal/domain/transaction/transaction.go: a wager transaction, its kinds and its life cycle.
pub mod Defs
pub mod Lifecycle
