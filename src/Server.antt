-- ===== src/Server.antt =====
-- The servers of include/server.h and src/server.c.
pub mod Types
pub mod Table
pub mod Load
pub mod Serve
pub mod Accounts
pub mod Print
pub mod Held
pub mod Kin
pub mod Left
pub mod Drain
pub mod Counters
pub mod Turn
pub mod First
pub mod Next
pub mod Ticked
pub mod Finish
pub mod Stats
pub mod Overflow
pub mod Machine
pub mod Views
pub mod Parted
pub mod Enter
pub mod Refused
pub mod Times
pub mod Made
pub mod Release
