-- ===== src/Trace.antt =====
-- The text of a vector time in the ShiViz logs.
pub mod Write
pub mod Decimal
pub mod Entries
pub mod Exact
pub mod Events
pub mod Lines
pub mod Tests
