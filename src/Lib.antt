-- ===== src/Lib.antt =====
-- The node of MAP Protocol keeps a chain of blocks. A block's transactions move money between
-- accounts; accounts and validators are kept in a state, a trie of hashed keys whose root the
-- block's header names. This library models the state and what changes it, the executor of blocks,
-- the chain and its store, the proof of authority, the pool of waiting transactions, the proposers
-- of blocks with their lottery, and how nodes answer each other and download the blocks they miss.
--
-- Files and what they model:
--   Base                names shared by all, lists, tests on numbers, dictionaries
--   Types               core/src/types.rs, and the records of core/src/balance.rs,
--                       core/src/staking.rs, core/src/storage.rs, core/src/transaction.rs and
--                       core/src/block.rs
--   External            the packages that are parameters: bincode, the trie over its node database
--                       (trie-db, where an empty value removes its key), memory_db, the key-value store, blake2b, ed25519
--   Crypto              common/hash/src/lib.rs
--   Signing, BlockHash  the hashes of transactions and blocks, and the check of signatures
--   State               StateDB of core/src/state.rs; State/Storage and State/Commit are about what
--                       it shows after changes and after a commit, State/Archive and
--                       State/Caching are ArchiveDB and CachingDB
--   Balance             Balance of core/src/balance.rs; Balance/Accounts, Funds, Transfer and Moves
--                       are about single accounts and the sum of money
--   Staking             Staking of core/src/staking.rs, a doubly linked list in the state;
--                       Staking/Linked says what it means that a state holds a list of validators,
--                       and the files beside it are about one method each
--   Executor            executor/src/lib.rs, with Executor/Supply, Errors, Overflow and
--                       Unsigned (blocks with a transaction that is not signed)
--   MemoryKv            MemoryKV of common/store/src/lib.rs
--   Runtime             Interpreter::call of core/src/runtime.rs
--   Consensus           POA of consensus/src/poa.rs
--   Genesis             core/src/genesis.rs
--   Chain               chain/src/blockchain.rs, with chain/src/store.rs in Chain/Store;
--                       Chain/Growth, Outcomes and Start are about imports and starts
--   Pool                pool/src/tx_pool.rs
--   Vrf                 common/crypto/src/vrf.rs over an abstract curve, with Vrf/Proofs
--   Generator           generator/src: Generator/Epoch for generator/src/types.rs and the epochs,
--                       Committee for generator/src/apos.rs, Proposal and Clock for
--                       generator/src/epoch.rs
--   Network             Network/Message for the messages of network/src/p2p, Context for the channel
--                       to the network service, Status and Processor for
--                       network/src/handler_processor.rs, Handler for network/src/handler.rs,
--                       Codec for network/src/p2p/codec, Request for
--                       network/src/p2p/protocol.rs, Substreams for network/src/p2p/handler.rs over
--                       the parameter Transport (framed streams and delay queues, whose removal of
--                       a key that is gone panics), Topic for network/src/topics.rs, Service for
--                       network/src/service.rs;
--                       Processor/Ranges and Processor/Gossip are about requests and gossip
--   Sync                network/src/sync: Sync/Batch, Download (range_sync/chain.rs), Range, Message
--                       (block_processor.rs) and Manager; the files below Download are about the
--                       plan of batches, the loop of requests and a download that stalls
--   Examples            small packages to compute with, and the theorems at concrete inputs
--
-- Methods keep the names of the source. A method that changes an object takes and returns the
-- state; objects that share the state by reference pass it on. A panic is `none`, a constructor
-- `panic` or `crashed`; an error is a value that carries the state it leaves.
--
-- An array of bytes of a fixed width stands for the number that it spells, most significant byte
-- first. Sums and differences of u128 and u64 wrap, as in a release build. A `HashMap` is a
-- dictionary in some order of iteration. The heap of the pool is searched for a cheapest entry.
--
-- Fuel: `validator_set` walks a list of n validators with fuel n + 1. `activate_deposit` takes a
-- fuel because its loop may go on for ever. `setup_height` recurs on the height. The loop of
-- `request_batches` has two rounds more than the target's number; each round plans a batch of the
-- numbers that are left. The answer to a range request takes a fuel, for which two more than the
-- head's height is enough; the pass over the queue of gossip takes one entry out each round. A stream of a
-- connection is looked at once more than its queue is long, and the delay queue of a connection is
-- asked once more than it has entries.
--
-- Collisions: the theorems about staking assume `KeysApart`, that the storage keys which are hashed
-- from addresses in different ways do not collide; those about the chain assume that a new block's
-- hash is none of the chain's.
--
-- Threads: the chain is passed to the sync manager, the processor of batches and the handler of
-- messages one after the other, as its lock lets them in. A thread that is started is an entry of
-- what was spawned, and what it sends back is a message.
--
-- Not modelled: failing writes of the disk, logging, locks and threads, the codec of trie nodes
-- (core/src/trie.rs), transactions' signing, the Merkle
-- tree of common/mtree, the transport, discovery and bans of the network, rpc, the command line, and
-- pool/src/transaction_pool, which is a library of another project.
pub mod Base
pub mod Types
pub mod External
pub mod Crypto
pub mod State
pub mod Balance
pub mod Signing
pub mod Executor
pub mod Staking
pub mod BlockHash
pub mod Genesis
pub mod Chain
pub mod MemoryKv
pub mod Runtime
pub mod Consensus
pub mod Pool
pub mod Network
pub mod Sync
pub mod Vrf
pub mod Generator
pub mod Examples
