-- ===== src/Server.antt =====
-- The threaded server: client_server/mtserver.c.
pub mod Client
pub mod Parse
pub mod Threads
pub mod Bound
pub mod Turns
pub mod Total
pub mod Commands
pub mod Numbers
pub mod Tests
