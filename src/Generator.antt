-- ===== src/Generator.antt =====
-- generator/src: who proposes a block, and the block that is proposed.
pub mod Epoch
pub mod Committee
pub mod Proposal
pub mod Clock
