-- ===== src/Examples.antt =====
-- The theorems at concrete inputs, over packages that are small enough to compute with.
pub mod Wire
pub mod Sample
pub mod Accounts
pub mod Blocks
pub mod Validators
pub mod Chains
pub mod Pools
pub mod Signatures
pub mod Versions
pub mod Growing
pub mod Lotteries
pub mod Proposals
pub mod Peers
pub mod Downloads
pub mod Streams
pub mod Handlers
pub mod Nodes
pub mod Services
