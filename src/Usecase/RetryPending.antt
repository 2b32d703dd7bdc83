-- ===== src/Usecase/RetryPending.antt =====
-- internal/application/usecase/retry_pending_ref.go
pub mod Defs
pub mod Backoff
pub mod Ends
pub mod Resolve
pub mod Settle
pub mod Batch
