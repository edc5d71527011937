-- ===== src/System.antt =====
-- The simulated system of include/system.h and src/system.c.
pub mod Types
pub mod Assign
pub mod Tick
pub mod Totals
pub mod Simulate
pub mod Round
pub mod Success
pub mod Within
pub mod Drained
pub mod Idle
pub mod Served
pub mod Chosen
pub mod Choice
pub mod Receive
pub mod Arrive
pub mod Admit
pub mod Run
pub mod Kept
pub mod Follow
pub mod Counts
pub mod Total
pub mod Means
pub mod Reported
pub mod Waits
pub mod Rounds
pub mod Counted
pub mod Bounded
