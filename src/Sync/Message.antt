-- ===== src/Sync/Message.antt =====
-- `SyncMessage` of network/src/sync/manager.rs and the processor of
-- network/src/sync/block_processor.rs, which imports the blocks of a batch in a thread of its own.
pub mod Results
use ori.Base.{ℕ, Option, none, some, List, [], ◌∷◌, Bool, true, false, ◌>>=◌}
use ori.Types.Block.{Block}
use ori.External.{External}
use ori.Chain.{BlockChain, imported, refused, crashed, current_block, import_block}
use ori.Network.Message.{PeerId, RequestId}
use ori.Network.Status.{PeerSyncInfo}

-- `BatchProcessResult`
pub data BatchProcessResult : Type 0 where
  succeeded failed : BatchProcessResult

pub data SyncMessage : Type 0 where
  add_peer_message : PeerId → PeerSyncInfo → SyncMessage
  blocks_by_range_message : PeerId → RequestId → Option Block → SyncMessage
  blocks_by_hash_message : PeerId → RequestId → Option Block → SyncMessage
  orphan_block : PeerId → Block → SyncMessage
  disconnect_message : PeerId → SyncMessage
  rpc_error : PeerId → RequestId → SyncMessage
  batch_processed : ℕ → List Block → BatchProcessResult → SyncMessage

module _ (ext : External) where
  -- The loop of `process_blocks`: the first block that is refused ends it. `none` is a panic, which
  -- ends the thread.
  unfoldable pub process_all : List Block → BlockChain ext → Option (BlockChain ext)
  process_all [] c = some c
  process_all (b ∷ bs) c = elim (import_block ext b c) [
    | imported c' ↦ process_all bs c'
    | refused e c' ↦ some c'
    | crashed ↦ none
  ]

  -- `process_blocks`, with whether it is `Ok`. A chain without a head is a panic.
  unfoldable pub process_blocks : List Block → BlockChain ext → Option (BlockChain ext × Bool)
  process_blocks downloaded_blocks c = do
    current ← current_block ext c
    c' ← process_all downloaded_blocks c
    some (c', true)

  -- The message to the manager, made of what the processing gives.
  abbrev pub report :
      ℕ → List Block → Option (BlockChain ext × Bool) → Option (BlockChain ext × SyncMessage)
  report batch_id downloaded_blocks none = none
  report batch_id downloaded_blocks (some (c, true)) =
      some (c, batch_processed batch_id downloaded_blocks succeeded)
  report batch_id downloaded_blocks (some (c, false)) =
      some (c, batch_processed batch_id downloaded_blocks failed)

  -- `spawn_block_processor`, with the message that the thread sends in the end
  unfoldable pub spawn_block_processor :
      ℕ → List Block → BlockChain ext → Option (BlockChain ext × SyncMessage)
  spawn_block_processor batch_id downloaded_blocks c =
      report batch_id downloaded_blocks (process_blocks downloaded_blocks c)
