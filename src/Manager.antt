-- ===== src/Manager.antt =====
-- The transaction manager: transaction_management/tmanager.c and tmanager.h.
pub mod State
pub mod Table
pub mod Votes
pub mod Handle
pub mod Restart
pub mod Boot
pub mod Closed
pub mod Keeps
pub mod Runs
pub mod Slots
pub mod Broadcast
pub mod Reach
pub mod Starts
pub mod StartTests
pub mod Safety
pub mod WriteAhead
pub mod Recovery
pub mod Tests
pub mod Decision
pub mod Ballot
pub mod Count
pub mod Progress
pub mod Disagreement
pub mod Conflict
