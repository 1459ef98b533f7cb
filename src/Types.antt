-- ===== src/Types.antt =====
-- The data of the node: core/src/types.rs, and the records of core/src/balance.rs,
-- core/src/staking.rs, core/src/storage.rs, core/src/transaction.rs and core/src/block.rs.
pub mod Hash
pub mod Ledger
pub mod Message
pub mod Block
