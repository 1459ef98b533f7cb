-- ===== src/Network/Processor.antt =====
-- `MessageProcessor` and `HandlerNetworkContext` of network/src/handler_processor.rs: the answers to the
-- requests of peers, and what gossip does to the chain and the pool. The channel to the network
-- service is the one that the handler holds as well.
pub mod Ranges
pub mod Gossip
use ori.Base.{
  ℕ, zero, suc, ◌+◌, ◌-◌, ◌*◌, ◌%◌, ◌^◌, ◌≡◌, ◌≤◌, ◌⊎◌, Option, none, some, List, [], ◌∷◌, ◌++◌,
  Bool, true, false, ◌&&◌, not, ltb, leb, ◌==◌, if◌then◌else◌, ◌>>=◌,
}
use ori.Types.Hash.{Hash}
use ori.Types.Block.{Block}
use ori.Types.Message.{Transaction}
use ori.External.{External, Codec}
use ori.Balance.{u64}
use ori.Chain.Store.{get_block, get_block_by_number}
use ori.Chain.{BlockChain, Import, imported, refused, crashed, current_block, import_block}
use ori.Staking.{Run, done, panic, out_of_fuel}
use ori.Pool.{TxPool, add_tx}
use ori.Network.Message.{
  PeerId, RequestId, GoodbyeReason, irrelevant_network, fault, BlocksByRangeRequest,
  BlocksByRootRequest, StatusMessage, P2PResponse, status_response, blocks_by_range_response,
  blocks_by_root_response, ResponseTermination, by_range, by_root, P2PErrorResponse, success,
  stream_termination, P2PRequest, goodbye, status, P2PEvent, request, response, NetworkMessage, p2p,
  publish, disconnect_peer, block_message,
}
use ori.Network.Context.{Channel, put}
use ori.Network.Status.{PeerSyncInfo, from_status, status_message, from_chain}
use ori.Sync.Message.{
  SyncMessage, add_peer_message, blocks_by_range_message, blocks_by_hash_message, orphan_block,
  disconnect_message, rpc_error,
}

-- The messages of `HandlerNetworkContext`, whose requests all have the number 0.
abbrev pub send_rpc_request : PeerId → P2PRequest → Channel → Channel
send_rpc_request peer_id rpc = put (p2p peer_id (request 0 rpc))

abbrev pub send_rpc_error_response : PeerId → RequestId → P2PErrorResponse → Channel → Channel
send_rpc_error_response peer_id request_id r = put (p2p peer_id (response request_id r))

abbrev pub send_rpc_response : PeerId → RequestId → P2PResponse → Channel → Channel
send_rpc_response peer_id request_id r = put (p2p peer_id (response request_id (success r)))

abbrev pub disconnect : PeerId → GoodbyeReason → Channel → Channel
disconnect peer_id reason n =
    put (disconnect_peer peer_id) (send_rpc_request peer_id (goodbye reason) n)

-- The channel to the sync thread.
pub record SyncChannel : Type 0 where
  pub posted : List SyncMessage
  pub is_open : Bool

-- A priority queue of the crate `priority_queue`, of blocks with priorities that are the bits of an
-- `i64`: the largest goes first.
abbrev pub rank : ℕ → ℕ
rank priority = (priority + 2 ^ 63) % u64

pub record BlockQueue : Type 1 where
  pub Queue : Type 0
  pub len : Queue → ℕ
  pub push : Block → ℕ → Queue → Queue
  pub pop : Queue → Option ((Block × ℕ) × Queue)
  pub Member : Queue → Block × ℕ → Type 0
  pub len-push : (b : Block) (p : ℕ) (q : Queue) → len (push b p q) ≤ suc (len q)
  pub Member-push :
      (b : Block) (p : ℕ) (q : Queue) (e : Block × ℕ)
      → Member (push b p q) e
      → (e ≡ (b, p)) ⊎ Member q e
  pub len-pop : (q q' : Queue) (e : Block × ℕ) → pop q ≡ some (e, q') → len q ≡ suc (len q')
  pub Member-popped : (q q' : Queue) (e : Block × ℕ) → pop q ≡ some (e, q') → Member q e
  pub Member-pop :
      (q q' : Queue) (e d : Block × ℕ) → pop q ≡ some (e, q') → Member q' d → Member q d

pub record MessageProcessor (ext : External) (queues : BlockQueue) : Type 0 where
  pub chain : BlockChain ext
  pub tx_pool : TxPool
  pub sync_send : SyncChannel
  pub network : Channel
  pub queue : queues.Queue

-- What is left of an `i64` below zero when its sign is turned and it is read as a u64.
abbrev pub negated : ℕ → ℕ
negated h = (u64 - h % u64) % u64

-- `QUEUE_GOSSIP_BLOCK`
abbrev pub queue_gossip_block : ℕ
queue_gossip_block = 512

-- `SLOT_IMPORT_TOLERANCE`
abbrev pub slot_import_tolerance : ℕ
slot_import_tolerance = 20

module _ (ext : External) (queues : BlockQueue) where
  abbrev Processor : Type 0
  Processor = MessageProcessor ext queues

  abbrev pub send_to_sync : SyncMessage → Processor → Processor
  send_to_sync message p = record p {
    sync_send =
        if p.sync_send.is_open
        then record (p.sync_send) { posted = p.sync_send.posted ++ message ∷ [] }
        else p.sync_send;
  }

  abbrev with_network : (Channel → Channel) → Processor → Processor
  with_network f p = record p { network = f p.network }

  pub on_disconnect : PeerId → Processor → Processor
  on_disconnect peer_id p = send_to_sync (disconnect_message peer_id) p

  pub on_rpc_error : PeerId → RequestId → Processor → Processor
  on_rpc_error peer_id request_id p = send_to_sync (rpc_error peer_id request_id) p

  pub on_connect : PeerId → Processor → Option Processor
  on_connect peer_id p = do
    message ← status_message ext p.chain
    some (with_network (send_rpc_request peer_id (status message)) p)

  pub process_status : PeerId → StatusMessage → Processor → Option Processor
  process_status peer_id m p = do
    local ← from_chain ext p.chain
    let remote = from_status m
    some (
        if not (local.network_id == remote.network_id)
        then with_network (disconnect peer_id irrelevant_network) p
        else if ltb remote.finalized_number local.finalized_number
        then p
        else send_to_sync (add_peer_message peer_id remote) p)

  pub on_status_request : PeerId → RequestId → StatusMessage → Processor → Option Processor
  unfolding process_status
  on_status_request peer_id request_id m p = do
    message ← status_message ext p.chain
    process_status peer_id m
        (with_network (send_rpc_response peer_id request_id (status_response message)) p)

  pub on_status_response : PeerId → StatusMessage → Processor → Option Processor
  unfolding process_status
  on_status_response peer_id m p = process_status peer_id m p

  -- The loop of `on_blocks_by_range_request`, with the number of blocks that were sent.
  pub range_loop :
      ℕ → ℕ → PeerId → RequestId → BlocksByRangeRequest → ℕ → ℕ → Processor → Option Processor
  range_loop zero current peer_id request_id req start sent p = none
  range_loop (suc fuel) current peer_id request_id req start sent p =
      elim (ltb start current && (sent == req.count)) [
        | true ↦ some p
        | false ↦ elim (get_block_by_number ext p.chain.db start) [
          | none ↦ none
          | some none ↦ some p
          | some (some b) ↦
              range_loop fuel current peer_id request_id req ((start + req.step) % u64) (sent + 1) (
                with_network
                  (send_rpc_response peer_id request_id
                    (blocks_by_range_response (ext.codecs.block.serialize b)))
                  p)
        ]
      ]

  pub on_blocks_by_range_request :
      ℕ → PeerId → RequestId → BlocksByRangeRequest → Processor → Option Processor
  unfolding range_loop
  on_blocks_by_range_request fuel peer_id request_id req p =
      if req.step == 0 then some (with_network (disconnect peer_id fault) p) else (do
        current ← current_block ext p.chain
        p' ← range_loop fuel current.header.height peer_id request_id req req.start_slot 0 p
        some (
            with_network (send_rpc_error_response peer_id request_id (stream_termination by_range))
              p'))

  pub on_blocks_by_range_response : PeerId → RequestId → Option Block → Processor → Processor
  on_blocks_by_range_response peer_id request_id b p =
      send_to_sync (blocks_by_range_message peer_id request_id b) p

  pub on_blocks_by_root_response : PeerId → RequestId → Option Block → Processor → Processor
  on_blocks_by_root_response peer_id request_id b p =
      send_to_sync (blocks_by_hash_message peer_id request_id b) p

  pub root_loop : PeerId → RequestId → List Hash → Processor → Option Processor
  root_loop peer_id request_id [] p = some p
  root_loop peer_id request_id (root ∷ roots) p = elim (get_block ext p.chain.db root) [
    | none ↦ none
    | some none ↦ root_loop peer_id request_id roots p
    | some (some b) ↦ root_loop peer_id request_id roots (
        with_network
          (send_rpc_response peer_id request_id
            (blocks_by_root_response (ext.codecs.block.serialize b)))
          p)
  ]

  pub on_blocks_by_root_request :
      PeerId → RequestId → BlocksByRootRequest → Processor → Option Processor
  unfolding root_loop
  on_blocks_by_root_request peer_id request_id req p = do
    p' ← root_loop peer_id request_id req.block_roots p
    some (with_network (send_rpc_error_response peer_id request_id (stream_termination by_root)) p')

  abbrev pub broadcast_block : Block → Processor → Processor
  broadcast_block b = with_network (put (publish (block_message (ext.codecs.block.serialize b))))

  -- The loop over the queue, for a block that came when the head had this height, with whether the
  -- block is to be forwarded.
  pub queue_loop : ℕ → PeerId → Block → ℕ → Bool → Processor → Run (Processor × Bool)
  queue_loop zero peer_id b current find p = out_of_fuel
  queue_loop (suc fuel) peer_id b current find p = elim (queues.pop p.queue) [
    | none ↦ done (p, find)
    | some ((low, priority), rest) ↦
        let height = b.header.height in
        let height_low = negated priority in
        let p₁ : Processor = record p { queue = rest } in
        elim (ltb ((current + 1) % u64) height_low) [
          | true ↦
              let p₂ : Processor = record p { queue = queues.push low priority rest } in
              done (
                if ltb ((current + slot_import_tolerance) % u64) height
                    then send_to_sync (orphan_block peer_id b) p₂
                    else p₂,
                find,
              )
          | false ↦ elim (height_low == (current + 1) % u64) [
            | false ↦ queue_loop fuel peer_id b current find p₁
            | true ↦ elim (import_block ext low p.chain) [
              | crashed ↦ panic
              | refused e c ↦ done (record p₁ { chain = c }, find)
              | imported c ↦
                  queue_loop fuel peer_id b current (if height_low == height then true else find) (
                    if height_low == height
                    then record p₁ { chain = c }
                    else broadcast_block low (record p₁ { chain = c }))
            ]
          ]
        ]
  ]

  -- A pass over the queue takes an entry out each time, so the length of the queue is fuel enough.
  pub on_block_gossip : PeerId → Block → Processor → Run (Processor × Bool)
  unfolding queue_loop
  on_block_gossip peer_id b p = elim (current_block ext p.chain) [
    | none ↦ panic
    | some current ↦
        let height = b.header.height in
        let height_now = current.header.height in
        if ltb ((height + u64 - height_now) % u64) queue_gossip_block
        then queue_loop (suc (suc (queues.len p.queue))) peer_id b height_now false
            (record p { queue = queues.push b (negated height) p.queue })
        else done (p, false)
  ]

  pub on_transaction_gossip : Transaction → Processor → Option (Processor × Bool)
  on_transaction_gossip tx p = do
    (pool, is_added) ← add_tx ext p.chain tx p.tx_pool
    some (record p { tx_pool = pool }, is_added)
