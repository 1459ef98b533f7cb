-- ===== src/Sync.antt =====
-- network/src/sync: how the node downloads the blocks that it misses.
pub mod Batch
pub mod State
pub mod Download
pub mod Message
pub mod Range
pub mod Manager
