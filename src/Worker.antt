-- ===== src/Worker.antt =====
-- What runs beside the HTTP server: internal/worker.
pub mod Consumer
pub mod Outbox
pub mod Lifecycle
pub mod PendingRef
