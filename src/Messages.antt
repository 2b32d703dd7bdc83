-- ===== src/Messages.antt =====
-- internal/domain/events, internal/domain/outbox and internal/domain/inbox: what the service tells
-- others, the rows that carry it, and the record of what it has consumed.
pub mod Events
pub mod Outbox
pub mod Inbox
pub mod Queue
pub mod Dto
