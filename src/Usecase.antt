-- ===== src/Usecase.antt =====
-- internal/application/usecase
pub mod Hash
pub mod Emit
pub mod ProcessWager
pub mod Inside
pub mod OpenWallet
pub mod RetryPending
pub mod Reconcile
