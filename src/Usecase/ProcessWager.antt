-- ===== src/Usecase/ProcessWager.antt =====
-- internal/application/usecase/process_wager.go
pub mod Defs
pub mod Steps
pub mod Execute
pub mod Operate
pub mod Effect
pub mod Refines
pub mod Correct
pub mod Idempotent
pub mod Guards
pub mod Runs
pub mod Covered
pub mod Accepts
pub mod Inside
pub mod Replays
pub mod Outcome
pub mod Complete
pub mod Posting
