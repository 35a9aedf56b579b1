-- ===== src/Cmd.antt =====
-- The command program: transaction_management/cmd.c.
pub mod Program
pub mod Delivery
pub mod Heard
pub mod Joined
pub mod Refusal
pub mod Tests
