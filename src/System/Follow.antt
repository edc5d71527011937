-- ===== src/System/Follow.antt =====
-- The ticks of src/system.c, with each server seen as the machine of Server.Machine.
pub mod Served
pub mod Joined
pub mod Rounds
pub mod Run
pub mod Order
