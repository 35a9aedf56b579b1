-- ===== src/Bully.antt =====
-- A node of the bully election: bully_algorithm/node.c and bully_algorithm/msg.h.
pub mod State
pub mod Wire
pub mod Elect
pub mod Handle
pub mod Start
pub mod Group
pub mod Boot
pub mod Reading
pub mod Joining
pub mod JoiningTests
pub mod Order
pub mod Directed
pub mod Safety
pub mod Loops
pub mod Election
pub mod Launch
pub mod Merge
pub mod Roundtrip
pub mod Tests
