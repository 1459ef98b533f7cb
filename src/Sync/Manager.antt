-- ===== src/Sync/Manager.antt =====
-- `SyncManager` of network/src/sync/manager.rs: the thread that owns the range sync and the orphans
-- and answers the messages of the handler and of the processor.
use ori.Base.{
  ℕ, ◌+◌, ◌-◌, ◌%◌, Option, none, some, List, [], ◌∷◌, ◌++◌, Bool, true, false, not, ltb, ◌==◌,
  if◌then◌else◌, ◌>>=◌, is_some, add, discard,
}
use ori.Base.Dict.{Dict, lookup}
use ori.Types.Hash.{Hash}
use ori.Types.Block.{Block}
use ori.External.{External}
use ori.Balance.{u64}
use ori.BlockHash.{header_hash, block_hash}
use ori.Chain.Store.{get_block}
use ori.Chain.{BlockChain, Import, imported, refused, crashed, current_block, import_block}
use ori.Network.Message.{PeerId, RequestId}
use ori.Network.Context.{SyncNetworkContext, blocks_by_hash_request}
use ori.Network.Status.{PeerSyncInfo, from_chain}
use ori.Sync.Message.{
  SyncMessage, add_peer_message, blocks_by_range_message, blocks_by_hash_message, orphan_block,
  disconnect_message, rpc_error, batch_processed,
}
use ori.Sync.Download.{is_syncing}
use ori.Sync.Range
use ori.Sync.Range.{
  RangeSync, Range, new_range, blocks_by_range_response, handle_block_process_result,
}

-- `ParentRequests`: the blocks whose parents are asked for, the last in the end.
pub record ParentRequests : Type 0 where
  pub downloaded_blocks : List Block
  pub failed_attempts : ℕ

pub record OrphanPool : Type 0 where
  pub parents : ParentRequests
  pub block_roots : Dict Block

abbrev pub new_orphans : OrphanPool
new_orphans = record {
  parents = record { downloaded_blocks = []; failed_attempts = 0 };
  block_roots = [];
}

pub data ManagerState : Type 0 where
  syncing regular stalled : ManagerState

pub record SyncManager (ext : External) : Type 0 where
  pub chain : BlockChain ext
  pub state : ManagerState
  pub network : SyncNetworkContext
  pub range_sync : RangeSync
  pub pool : OrphanPool
  pub full_peers : List PeerId

-- `SLOT_IMPORT_TOLERANCE`
abbrev pub slot_import_tolerance : ℕ
slot_import_tolerance = 20

abbrev pub reversed {ℓ} : {A : Type ℓ} → List A → List A
reversed [] = []
reversed (x ∷ xs) = reversed xs ++ x ∷ []

abbrev pub is_empty {ℓ} : {A : Type ℓ} → List A → Bool
is_empty [] = true
is_empty (x ∷ xs) = false

abbrev pub set_parents : List Block → OrphanPool → OrphanPool
set_parents blocks p = record p { parents = record (p.parents) { downloaded_blocks = blocks } }

module _ (ext : External) where
  -- The state of a manager when it starts, as `spawn` builds it.
  abbrev pub new_manager : BlockChain ext → SyncNetworkContext → Option (SyncManager ext)
  new_manager block_chain network = do
    range_sync ← new_range ext block_chain
    some (record {
      chain = block_chain;
      state = stalled;
      network = network;
      range_sync = range_sync;
      pool = new_orphans;
      full_peers = [];
    })

  abbrev with_range : Range → SyncManager ext → SyncManager ext
  with_range (r, n) m = record m { range_sync = r; network = n }

  abbrev pub add_full_peer : PeerId → SyncManager ext → SyncManager ext
  add_full_peer peer_id m = record m { full_peers = add peer_id m.full_peers }

  pub update_state : SyncManager ext → SyncManager ext
  update_state m = record m {
    state =
        (if is_syncing m.range_sync.chains.state
          then syncing
          else if not (is_empty m.full_peers)
          then regular
          else stalled);
  }

  pub peer_disconnect : PeerId → SyncManager ext → SyncManager ext
  peer_disconnect peer_id m =
      let m₁ = with_range (Range.peer_disconnect peer_id (m.range_sync, m.network)) m in
      update_state (record m₁ { full_peers = discard peer_id m₁.full_peers })

  abbrev pub request_for_block : PeerId → Hash → SyncManager ext → SyncManager ext
  request_for_block peer_id hash m = record m {
    network = (blocks_by_hash_request peer_id (record { block_roots = hash ∷ [] }) m.network).1;
  }

  -- `add_unknown_block`: of several orphans only the first one's parent is asked for.
  pub add_unknown_block : PeerId → Block → SyncManager ext → SyncManager ext
  add_unknown_block peer_id b m =
      if is_some (lookup (block_hash ext b) m.pool.block_roots)
      then m
      else if not (is_empty m.pool.parents.downloaded_blocks)
      then m
      else request_for_block peer_id b.header.parent_hash
          (record m { pool = set_parents (m.pool.parents.downloaded_blocks ++ b ∷ []) m.pool })

  -- The chain after an import whose error is only printed; `none` is a panic.
  abbrev pub survives : Import ext → Option (BlockChain ext)
  survives (imported c) = some c
  survives (refused e c) = some c
  survives crashed = none

  -- The loop that pops the orphans, over the list of them with the last first.
  pub import_orphans : List Block → BlockChain ext → Option (BlockChain ext)
  import_orphans [] c = some c
  import_orphans (b ∷ bs) c = do c' ← survives (import_block ext b c); import_orphans bs c'

  pub blocks_by_root_response :
      PeerId → RequestId → Option Block → SyncManager ext → Option (SyncManager ext)
  unfolding import_orphans
  blocks_by_root_response peer_id request_id none m = some m
  blocks_by_root_response peer_id request_id (some b) m = do
    known ← get_block ext m.chain.db (header_hash ext b.header)
    head ← current_block ext m.chain
    elim (b.header.parent_hash == header_hash ext head.header) [
      | true ↦ do
        c₁ ← survives (import_block ext b m.chain)
        c₂ ← import_orphans (reversed m.pool.parents.downloaded_blocks) c₁
        some (record m { chain = c₂; pool = set_parents [] m.pool })
      | false ↦ some (
          request_for_block peer_id b.header.parent_hash
            (record m { pool = set_parents (m.pool.parents.downloaded_blocks ++ b ∷ []) m.pool }))
    ]

  module _ (shuffle : ℕ → List PeerId → List PeerId) (batch_hash : List Block → ℕ) where
    pub add_peer : PeerId → PeerSyncInfo → SyncManager ext → Option (SyncManager ext)
    add_peer peer_id remote m = do
      local ← from_chain ext m.chain
      let ahead : ℕ = (remote.finalized_number + u64 - local.finalized_number) % u64
      let m₁ : SyncManager ext =
          (if ltb ahead slot_import_tolerance then add_full_peer peer_id m else m)
      s ← Range.add_peer ext shuffle batch_hash peer_id remote m₁.chain (m₁.range_sync, m₁.network)
      some (update_state (with_range s m₁))

    -- What `poll` does for a message.
    pub handle_sync : SyncMessage → SyncManager ext → Option (SyncManager ext)
    handle_sync (add_peer_message peer_id info) m = do
      m' ← add_peer peer_id info m
      some (update_state m')
    handle_sync (blocks_by_range_message peer_id request_id b) m = some (
        update_state (
          with_range
            (blocks_by_range_response ext shuffle batch_hash request_id b (m.range_sync, m.network))
            m))
    handle_sync (blocks_by_hash_message peer_id request_id b) m = do
      m' ← blocks_by_root_response peer_id request_id b m
      some (update_state m')
    handle_sync (disconnect_message peer_id) m = some (update_state (peer_disconnect peer_id m))
    handle_sync (rpc_error peer_id request_id) m = some (update_state m)
    handle_sync (orphan_block peer_id b) m = some (update_state (add_unknown_block peer_id b m))
    handle_sync (batch_processed batch_id blocks result) m = do
      s ←
          handle_block_process_result ext shuffle batch_hash batch_id blocks result m.chain
            (m.range_sync, m.network)
      some (update_state (with_range s m))
