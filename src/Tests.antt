-- ===== src/Tests.antt =====
-- Concrete data, runs of the model on it, and the theorems at that data.
pub mod Samples
pub mod Servers
pub mod Queues
pub mod Desks
pub mod Banks
pub mod Clients
pub mod Days
pub mod Closing
pub mod Flags
