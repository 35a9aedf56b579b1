-- ===== src/Worker.antt =====
-- The transaction worker: transaction_management/tworker.c and tworker.h.
pub mod State
pub mod Record
pub mod Send
pub mod Coordinator
pub mod Command
pub mod Restart
pub mod Boot
pub mod Ports
pub mod Life
pub mod LifeTests
pub mod Tests
pub mod Rollback
pub mod Recovery
pub mod Persist
pub mod Commits
pub mod Decisions
pub mod Abort
pub mod Undo
pub mod Slots
