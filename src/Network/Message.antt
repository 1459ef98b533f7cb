-- ===== src/Network/Message.antt =====
-- The messages of network/src/p2p/methods.rs, network/src/p2p/protocol.rs, network/src/p2p/mod.rs and
-- network/src/manager.rs. A peer's identity is a number that stands for its bytes.
use ori.Base.{ℕ, Bool, true, false, Option, none, some, List, ◌==◌, if◌then◌else◌}
use ori.Types.Hash.{Bytes, Hash}

abbrev pub PeerId : Type 0
PeerId = ℕ

abbrev pub RequestId : Type 0
RequestId = ℕ

pub record StatusMessage : Type 0 where
  pub genesis_hash : Hash
  pub finalized_root : Hash
  pub finalized_number : ℕ
  pub head_root : Hash
  pub network_id : ℕ

pub data GoodbyeReason : Type 0 where
  client_shutdown irrelevant_network fault unknown_reason : GoodbyeReason

-- `From<u64>` and `Into<u64>` of `GoodbyeReason`
unfoldable pub goodbye_from : ℕ → GoodbyeReason
goodbye_from id =
    if id == 1
    then client_shutdown
    else if id == 2
    then irrelevant_network
    else if id == 3
    then fault
    else unknown_reason

unfoldable pub goodbye_into : GoodbyeReason → ℕ
goodbye_into client_shutdown = 1
goodbye_into irrelevant_network = 2
goodbye_into fault = 3
goodbye_into unknown_reason = 0

pub record BlocksByRangeRequest : Type 0 where
  pub head_block_root : Hash
  pub start_slot : ℕ
  pub count : ℕ
  pub step : ℕ

pub record BlocksByRootRequest : Type 0 where
  pub block_roots : List Hash

pub data P2PResponse : Type 0 where
  status_response : StatusMessage → P2PResponse
  blocks_by_range_response : Bytes → P2PResponse
  blocks_by_root_response : Bytes → P2PResponse

pub data ResponseTermination : Type 0 where
  by_range by_root : ResponseTermination

pub data P2PErrorResponse : Type 0 where
  success : P2PResponse → P2PErrorResponse
  invalid_request server_error unknown : Bytes → P2PErrorResponse
  stream_termination : ResponseTermination → P2PErrorResponse

-- `P2PErrorResponse::as_u8`
unfoldable pub as_u8 : P2PErrorResponse → Option ℕ
as_u8 (success _) = some 0
as_u8 (invalid_request _) = some 1
as_u8 (server_error _) = some 2
as_u8 (unknown _) = some 255
as_u8 (stream_termination _) = none

unfoldable pub is_response : ℕ → Bool
is_response response_code = response_code == 0

unfoldable pub from_error : ℕ → Bytes → P2PErrorResponse
from_error response_code err =
    if response_code == 1
    then invalid_request err
    else if response_code == 2
    then server_error err
    else unknown err

pub multiple_responses : P2PErrorResponse → Bool
multiple_responses (success (status_response _)) = false
multiple_responses _ = true

pub is_error : P2PErrorResponse → Bool
is_error (success _) = false
is_error _ = true

pub data P2PRequest : Type 0 where
  status : StatusMessage → P2PRequest
  goodbye : GoodbyeReason → P2PRequest
  blocks_by_range : BlocksByRangeRequest → P2PRequest
  blocks_by_root : BlocksByRootRequest → P2PRequest

-- A text of an error is its bytes.
pub data P2PError : Type 0 where
  read_error invalid_protocol io_error custom : Bytes → P2PError
  stream_timeout response_error : P2PError

pub data P2PEvent : Type 0 where
  request : RequestId → P2PRequest → P2PEvent
  response : RequestId → P2PErrorResponse → P2PEvent
  error : RequestId → P2PError → P2PEvent

pub data PubsubMessage : Type 0 where
  block_message transaction_message unknown_message : Bytes → PubsubMessage

pub data NetworkMessage : Type 0 where
  p2p : PeerId → P2PEvent → NetworkMessage
  publish : PubsubMessage → NetworkMessage
  propagate : PeerId → ℕ → NetworkMessage
  disconnect_peer : PeerId → NetworkMessage
