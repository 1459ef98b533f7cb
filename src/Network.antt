-- ===== src/Network.antt =====
-- network/src: what the node says to other nodes, and how it answers them.
pub mod Message
pub mod Context
pub mod Status
pub mod Processor
pub mod Handler
pub mod Codec
pub mod Request
pub mod Substreams
pub mod Topic
pub mod Service
