-- ===== src/Network/Handler.antt =====
-- `MessageHandler` of network/src/handler.rs: a message of the network service is decoded and handed to
-- the processor of messages. Log lines are left out.
use ori.Base.{ℕ, Option, none, some, ◌>>=◌, if◌then◌else◌}
use ori.Types.Message.{Transaction}
use ori.External.{External, Codec}
use ori.Staking.{finished}
use ori.Network.Message.{
  PeerId, RequestId, status_response, blocks_by_range_response, blocks_by_root_response, by_range,
  by_root, P2PErrorResponse, success, invalid_request, server_error, unknown, stream_termination,
  P2PRequest, goodbye, status, blocks_by_range, blocks_by_root, P2PEvent, request, response, error,
  PubsubMessage, block_message, transaction_message, unknown_message, propagate,
}
use ori.Network.Context.{put}
use ori.Network.Processor.{
  BlockQueue, MessageProcessor, on_connect, on_disconnect, on_rpc_error, on_status_request,
  on_status_response, on_blocks_by_range_request, on_blocks_by_range_response,
  on_blocks_by_root_request, on_blocks_by_root_response, on_block_gossip, on_transaction_gossip,
}

pub data HandlerMessage : Type 0 where
  peer_dialed peer_disconnected : PeerId → HandlerMessage
  rpc : PeerId → P2PEvent → HandlerMessage
  pubsub : ℕ → PeerId → PubsubMessage → HandlerMessage

module _ (ext : External) (queues : BlockQueue) (transaction : Codec Transaction) (fuel : ℕ) where
  abbrev Handler : Type 0
  Handler = MessageProcessor ext queues

  abbrev handle_rpc_error : PeerId → RequestId → Handler → Handler
  handle_rpc_error peer_id request_id h = on_rpc_error ext queues peer_id request_id h

  pub handle_rpc_request : PeerId → RequestId → P2PRequest → Handler → Option Handler
  handle_rpc_request peer_id request_id (status m) h =
      on_status_request ext queues peer_id request_id m h
  handle_rpc_request peer_id request_id (goodbye reason) h =
      some (on_disconnect ext queues peer_id h)
  handle_rpc_request peer_id request_id (blocks_by_range req) h =
      on_blocks_by_range_request ext queues fuel peer_id request_id req h
  handle_rpc_request peer_id request_id (blocks_by_root req) h =
      on_blocks_by_root_request ext queues peer_id request_id req h

  pub handle_rpc_response : PeerId → RequestId → P2PErrorResponse → Handler → Option Handler
  handle_rpc_response peer_id request_id (invalid_request e) h =
      some (handle_rpc_error peer_id request_id h)
  handle_rpc_response peer_id request_id (server_error e) h =
      some (handle_rpc_error peer_id request_id h)
  handle_rpc_response peer_id request_id (unknown e) h =
      some (handle_rpc_error peer_id request_id h)
  handle_rpc_response peer_id request_id (success (status_response m)) h =
      on_status_response ext queues peer_id m h
  handle_rpc_response peer_id request_id (success (blocks_by_range_response bytes)) h =
      elim (ext.codecs.block.deserialize bytes) [
        | none ↦ some h
        | some b ↦ some (on_blocks_by_range_response ext queues peer_id request_id (some b) h)
      ]
  handle_rpc_response peer_id request_id (success (blocks_by_root_response bytes)) h =
      elim (ext.codecs.block.deserialize bytes) [
        | none ↦ some h
        | some b ↦ some (on_blocks_by_root_response ext queues peer_id request_id (some b) h)
      ]
  handle_rpc_response peer_id request_id (stream_termination by_range) h =
      some (on_blocks_by_range_response ext queues peer_id request_id none h)
  handle_rpc_response peer_id request_id (stream_termination by_root) h =
      some (on_blocks_by_root_response ext queues peer_id request_id none h)

  pub handle_rpc_message : PeerId → P2PEvent → Handler → Option Handler
  handle_rpc_message peer_id (request id req) h = handle_rpc_request peer_id id req h
  handle_rpc_message peer_id (response id resp) h = handle_rpc_response peer_id id resp h
  handle_rpc_message peer_id (error id _) h = some (handle_rpc_error peer_id id h)

  abbrev propagate_message : ℕ → PeerId → Handler → Handler
  propagate_message id peer_id h = record h { network = put (propagate peer_id id) h.network }

  pub handle_gossip : ℕ → PeerId → PubsubMessage → Handler → Option Handler
  handle_gossip id peer_id (block_message bytes) h = elim (ext.codecs.block.deserialize bytes) [
    | none ↦ some h
    | some b ↦ finished (on_block_gossip ext queues peer_id b h) (λ (h₁, should_forward_on).
        some (if should_forward_on then propagate_message id peer_id h₁ else h₁))
  ]
  handle_gossip id peer_id (transaction_message bytes) h = elim (transaction.deserialize bytes) [
    | none ↦ some h
    | some tx ↦ do (h₁, is_added) ← on_transaction_gossip ext queues tx h; some h₁
  ]
  handle_gossip id peer_id (unknown_message bytes) h = some h

  pub handle_message : HandlerMessage → Handler → Option Handler
  unfolding handle_rpc_message handle_rpc_request handle_rpc_response handle_gossip
  handle_message (peer_dialed peer_id) h = on_connect ext queues peer_id h
  handle_message (peer_disconnected peer_id) h = some (on_disconnect ext queues peer_id h)
  handle_message (rpc peer_id event) h = handle_rpc_message peer_id event h
  handle_message (pubsub id peer_id gossip) h = handle_gossip id peer_id gossip h
