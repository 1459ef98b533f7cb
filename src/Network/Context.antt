-- ===== src/Network/Context.antt =====
-- `SyncNetworkContext` of network/src/sync/network_context.rs and `HandlerNetworkContext` of
-- network/src/handler_processor.rs: the channel to the network service with the number of the next
-- request. A send fails when the service is gone.
use ori.Base.{◌+◌, ◌%◌, Bool, Option, none, some, List, [], ◌∷◌, ◌++◌, if◌then◌else◌}
use ori.Balance.{u64}
use ori.Network.Message.{
  PeerId, RequestId, GoodbyeReason, fault, BlocksByRangeRequest, BlocksByRootRequest, StatusMessage,
  P2PRequest, goodbye, status, blocks_by_range, blocks_by_root, request, NetworkMessage, p2p,
  disconnect_peer,
}

-- What was sent, the last in the end, and whether the service still listens.
pub record Channel : Type 0 where
  pub sent : List NetworkMessage
  pub is_open : Bool

abbrev pub put : NetworkMessage → Channel → Channel
put m c = if c.is_open then record c { sent = c.sent ++ m ∷ [] } else c

pub record SyncNetworkContext : Type 0 where
  pub network_send : Channel
  pub request_id : RequestId

-- `send_rpc_request`, which counts a request that is not sent as well
abbrev pub send_rpc_request :
    PeerId → P2PRequest → SyncNetworkContext → Option RequestId × SyncNetworkContext
send_rpc_request peer_id rpc n = (
  if n.network_send.is_open then some n.request_id else none,
  record {
    network_send = put (p2p peer_id (request n.request_id rpc)) n.network_send;
    request_id = (n.request_id + 1) % u64;
  },
)

abbrev pub blocks_by_range_request :
    PeerId → BlocksByRangeRequest → SyncNetworkContext → Option RequestId × SyncNetworkContext
blocks_by_range_request peer_id req n = send_rpc_request peer_id (blocks_by_range req) n

abbrev pub blocks_by_hash_request :
    PeerId → BlocksByRootRequest → SyncNetworkContext → Option RequestId × SyncNetworkContext
blocks_by_hash_request peer_id req n = send_rpc_request peer_id (blocks_by_root req) n

-- `disconnect`, for a reason
abbrev pub disconnect : PeerId → GoodbyeReason → SyncNetworkContext → SyncNetworkContext
disconnect peer_id reason n =
    let (_, n₁) = send_rpc_request peer_id (goodbye reason) n in
    record n₁ { network_send = put (disconnect_peer peer_id) n₁.network_send }

abbrev pub downvote_peer : PeerId → SyncNetworkContext → SyncNetworkContext
downvote_peer peer_id n = disconnect peer_id fault n

abbrev pub status_peer : StatusMessage → PeerId → SyncNetworkContext → SyncNetworkContext
status_peer message peer_id n = (send_rpc_request peer_id (status message) n).1
