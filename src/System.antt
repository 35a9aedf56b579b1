-- ===== src/System.antt =====
-- The manager and its workers together: transaction_management as a system of processes.
pub mod Run
pub mod Agreement
pub mod Ballot
pub mod BallotTests
pub mod Tests
