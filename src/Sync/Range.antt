-- ===== src/Sync/Range.antt =====
-- `RangeSync` of network/src/sync/range_sync/range.rs: the one chain of batches, fed by the peers
-- and by the results of the processor.
use ori.Base.{ℕ, Option, none, some, List, [], true, false, ◌>>=◌, discard}
use ori.Types.Block.{Block}
use ori.External.{External}
use ori.BlockHash.{block_hash}
use ori.Chain.{BlockChain, current_block}
use ori.Network.Message.{PeerId, RequestId}
use ori.Network.Context.{SyncNetworkContext}
use ori.Network.Status.{PeerSyncInfo, status_message}
use ori.Sync.Message.{BatchProcessResult}
use ori.Sync.Download
use ori.Sync.Download.{
  SyncingChain, new_chain, stopped, Sync, ProcessingResult, keep_chain, remove_chain, is_syncing,
  on_block_response, on_batch_process_result, start_syncing, status_peers,
}

pub record RangeSync : Type 0 where
  pub chains : SyncingChain
  pub awaiting_head_peers : List PeerId

-- The range sync with the network that it talks to.
abbrev pub Range : Type 0
Range = RangeSync × SyncNetworkContext

abbrev on_chains : (Sync → Sync) → Range → Range
on_chains f (r, n) = let (c, n') = f (r.chains, n) in (record r { chains = c }, n')

-- `remove_peer`, which does nothing
pub remove_peer : PeerId → Range → Range
remove_peer peer_id r = r

-- `peer_disconnect`
pub peer_disconnect : PeerId → Range → Range
unfolding remove_peer
peer_disconnect peer_id (r, n) =
    remove_peer peer_id
      (record r { awaiting_head_peers = discard peer_id r.awaiting_head_peers }, n)

module _ (ext : External) where
  -- `RangeSync::new`
  abbrev pub new_range : BlockChain ext → Option RangeSync
  new_range block_chain = do
    current ← current_block ext block_chain
    some (record { chains = new_chain current.header.height 0 0; awaiting_head_peers = [] })

  module _ (shuffle : ℕ → List PeerId → List PeerId) (batch_hash : List Block → ℕ) where
    pub add_peer : PeerId → PeerSyncInfo → BlockChain ext → Range → Option Range
    unfolding remove_peer
    add_peer peer_id remote block_chain s =
        let (r, n) = remove_peer peer_id s in
        let aimed = record r {
          chains = record (r.chains) {
            target_head_slot = remote.finalized_number;
            target_head_root = remote.finalized_root;
          };
        } in
        let s₁ = on_chains (Download.add_peer shuffle batch_hash peer_id) (aimed, n) in
        do
          local ← current_block ext block_chain
          some (on_chains (start_syncing shuffle batch_hash local.header.height) s₁)

    pub blocks_by_range_response : RequestId → Option Block → Range → Range
    blocks_by_range_response request_id b =
        on_chains (λ s. (on_block_response shuffle batch_hash request_id b s).0)

    -- `SyncingChain::status_peers` with the status of the node's chain
    abbrev tell_peers : BlockChain ext → Range → Option Range
    tell_peers block_chain (r, n) = do
      message ← status_message ext block_chain
      some (r, status_peers message r.chains.peer_pool n)

    -- The verdict on a chain; `none` is asked a second time, with what the first left of the blocks.
    pub handle_block_process_result :
        ℕ → List Block → BatchProcessResult → BlockChain ext → Range → Option Range
    handle_block_process_result batch_id downloaded_blocks result block_chain (r, n) =
        let ((c, n₁), blocks, verdict) =
          on_batch_process_result shuffle batch_hash batch_id (some downloaded_blocks) result
            (r.chains, n) in
        let s₁ : Range = (record r { chains = c }, n₁) in
        elim verdict [
          | some remove_chain ↦ do
            (r₂, n₂) ← tell_peers block_chain s₁
            some (record r₂ { chains = record (r₂.chains) { state = stopped } }, n₂)
          | some keep_chain ↦ some s₁
          | none ↦ some (
              on_chains
                (λ s. (on_batch_process_result shuffle batch_hash batch_id blocks result s).0) s₁)
        ]

    -- `update_finalized`, which a running sync ignores
    pub update_finalized : Block → BlockChain ext → Range → Option Range
    update_finalized b block_chain (r, n) = elim (is_syncing r.chains.state) [
      | true ↦ some (r, n)
      | false ↦ do
        local ← current_block ext block_chain
        let aimed = record r {
          chains = record (r.chains) {
            target_head_slot = b.header.height;
            target_head_root = block_hash ext b;
          };
        }
        some (on_chains (start_syncing shuffle batch_hash local.header.height) (aimed, n))
    ]
