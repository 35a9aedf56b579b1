-- ===== src/Dump.antt =====
-- What is printed of messages, objects and logs: transaction_management/dumpObject.c, and the printing
-- functions of transaction_management/helper.c.
pub mod Print
pub mod Files
pub mod Records
pub mod Exact
pub mod Tests
