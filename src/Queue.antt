-- ===== src/Queue.antt =====
-- The growable FIFO of include/queue.h and src/queue.c.
pub mod Array
pub mod Ops
pub mod Layout
pub mod Resize
pub mod Refine
pub mod Refused
pub mod Fill
pub mod Script
pub mod Iterate
