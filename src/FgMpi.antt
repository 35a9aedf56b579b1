-- ===== src/FgMpi.antt =====
-- A node of the bully election on FG-MPI: bully_algorithm_fg_mpi/bully.c.
pub mod State
pub mod Send
pub mod Handle
pub mod Closed
pub mod Runs
pub mod Rounds
pub mod Stamps
pub mod Direction
pub mod Start
pub mod Program
pub mod Silence
pub mod Liveness
pub mod Highest
pub mod Tests
