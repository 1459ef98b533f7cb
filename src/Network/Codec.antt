-- ===== src/Network/Codec.antt =====
-- network/src/p2p/codec/base.rs and network/src/p2p/codec/bin.rs: requests and responses as bytes on a stream.
-- The protocol of a stream is negotiated, so it is one of the four, at version 1; `UviBytes`, which
-- puts the length in front of a packet, is a parameter.
pub mod RoundTrip
use ori.Base.{
  ℕ, ◌<◌, ◌≤◌, ◌≡◌, ◌&&◌, Bool, true, false, Option, none, some, List, [], ◌∷◌, ◌++◌, ◌>>=◌, ◌==◌,
  leb, if◌then◌else◌, length,
}
use ori.Types.Hash.{Bytes, same_bytes}
use ori.External.{Codec}
use ori.Network.Message.{
  StatusMessage, GoodbyeReason, BlocksByRangeRequest, BlocksByRootRequest, P2PResponse,
  status_response, blocks_by_range_response, blocks_by_root_response, P2PErrorResponse, success,
  invalid_request, server_error, unknown, stream_termination, P2PRequest, status, goodbye,
  blocks_by_range, blocks_by_root, as_u8, is_response, from_error,
}

-- `RPC_STATUS`, `RPC_GOODBYE`, `RPC_BLOCKS_BY_RANGE` and `RPC_BLOCKS_BY_ROOT`
pub data Protocol : Type 0 where
  rpc_status rpc_goodbye rpc_blocks_by_range rpc_blocks_by_root : Protocol

-- What `UviBytes` makes of a buffer: it waits for more, takes a packet off the front, or fails.
pub data Framed (S : Type 0) : Type 0 where
  waiting : S → Bytes → Framed S
  packet : Bytes → S → Bytes → Framed S
  broken : Framed S

-- `UviBytes`: `frame` is what it appends for a packet, if that is not too long.
pub record Framing : Type 1 where
  pub State : Type 0
  pub start : State
  pub frame : Bytes → Option Bytes
  pub unframe : State → Bytes → Framed State
  pub longer : (p bs : Bytes) → frame p ≡ some bs → length p < length bs
  pub unframe-frame :
      (p bs rest : Bytes) → frame p ≡ some bs → unframe start (bs ++ rest) ≡ packet p start rest

-- The encodings of `bincode`; a structure of one field is encoded as the field.
pub record MessageCodecs : Type 0 where
  pub status_codec : Codec StatusMessage
  pub goodbye_codec : Codec GoodbyeReason
  pub range_codec : Codec BlocksByRangeRequest
  pub root_codec : Codec BlocksByRootRequest
  pub error_codec : Codec Bytes

-- The outcome of decoding: nothing yet, an item, an error of the stream, or a panic.
pub data Decoded (A : Type 0) : Type 0 where
  waits : Decoded A
  item : A → Decoded A
  failed panics : Decoded A

module _ (framing : Framing) (codecs : MessageCodecs) where
  -- `BINOutboundCodec::encode`
  pub encode_request : P2PRequest → Option Bytes
  encode_request (status m) = framing.frame (codecs.status_codec.serialize m)
  encode_request (goodbye r) = framing.frame (codecs.goodbye_codec.serialize r)
  encode_request (blocks_by_range r) = framing.frame (codecs.range_codec.serialize r)
  encode_request (blocks_by_root r) = framing.frame (codecs.root_codec.serialize r)

  -- An `unwrap` of what `bincode` decodes.
  abbrev pub unwrapped : {A B : Type 0} → (A → B) → Option A → Decoded B
  unwrapped f (some a) = item (f a)
  unwrapped f none = panics

  abbrev pub read_request : Protocol → Bytes → Decoded P2PRequest
  read_request rpc_status p = unwrapped status (codecs.status_codec.deserialize p)
  read_request rpc_goodbye p = unwrapped goodbye (codecs.goodbye_codec.deserialize p)
  read_request rpc_blocks_by_range p = unwrapped blocks_by_range (codecs.range_codec.deserialize p)
  read_request rpc_blocks_by_root p = unwrapped blocks_by_root (codecs.root_codec.deserialize p)

  abbrev pub Inbound : Type 0
  Inbound = Decoded P2PRequest × framing.State × Bytes

  abbrev pub request_of : Protocol → Framed framing.State → Inbound
  request_of protocol (waiting s src) = (waits, s, src)
  request_of protocol (packet p s src) = (read_request protocol p, s, src)
  request_of protocol broken = (failed, framing.start, [])

  -- `BINInboundCodec::decode`
  pub decode_request : Protocol → framing.State → Bytes → Inbound
  decode_request protocol s src = request_of protocol (framing.unframe s src)

  -- The bytes of a response; `none` is the panic at the end of a stream.
  abbrev pub payload : P2PErrorResponse → Option Bytes
  payload (success (status_response m)) = some (codecs.status_codec.serialize m)
  payload (success (blocks_by_range_response bytes)) = some bytes
  payload (success (blocks_by_root_response bytes)) = some bytes
  payload (invalid_request err) = some (codecs.error_codec.serialize err)
  payload (server_error err) = some (codecs.error_codec.serialize err)
  payload (unknown err) = some (codecs.error_codec.serialize err)
  payload (stream_termination t) = none

  -- `BINInboundCodec::encode`, without the response code
  abbrev pub framed_payload : Bytes → Option Bytes
  framed_payload [] = some (0 ∷ [])
  framed_payload (b ∷ bs) = framing.frame (b ∷ bs)

  -- `BaseInboundCodec::encode`, which clears the buffer; `none` is an error or a panic.
  unfoldable pub encode_response : P2PErrorResponse → Option Bytes
  encode_response r = do
    code ← as_u8 r
    bytes ← payload r
    framed ← framed_payload bytes
    some (code ∷ framed)

  -- The state of an outbound stream: the code of the chunk that is read, and the framing's.
  pub record Outbound : Type 0 where
    pub current_response_code : Option ℕ
    pub inner : framing.State

  abbrev pub empty_response : Protocol → Decoded P2PResponse
  empty_response rpc_status = failed
  empty_response rpc_goodbye = failed
  empty_response rpc_blocks_by_range = item (blocks_by_range_response [])
  empty_response rpc_blocks_by_root = item (blocks_by_root_response [])

  abbrev pub read_response : Protocol → Bytes → Decoded P2PResponse
  read_response rpc_status p = unwrapped status_response (codecs.status_codec.deserialize p)
  read_response rpc_goodbye p = failed
  read_response rpc_blocks_by_range p = item (blocks_by_range_response p)
  read_response rpc_blocks_by_root p = item (blocks_by_root_response p)

  abbrev pub response_of :
      Protocol → Framed framing.State → Decoded P2PResponse × framing.State × Bytes
  response_of protocol (waiting s src) = (waits, s, src)
  response_of protocol (packet p s src) = (read_response protocol p, s, src)
  response_of protocol broken = (failed, framing.start, [])

  -- `BINOutboundCodec::decode`
  pub decode_payload :
      Protocol → framing.State → Bytes → Decoded P2PResponse × framing.State × Bytes
  decode_payload protocol s src =
      if same_bytes src (0 ∷ [])
      then (empty_response protocol, s, [])
      else response_of protocol (framing.unframe s src)

  abbrev pub error_of : Framed framing.State → Decoded Bytes × framing.State × Bytes
  error_of (waiting s src) = (waits, s, src)
  error_of (packet p s src) = (unwrapped (λ e. e) (codecs.error_codec.deserialize p), s, src)
  error_of broken = (failed, framing.start, [])

  -- `BINOutboundCodec::decode_error`
  abbrev pub decode_error : framing.State → Bytes → Decoded Bytes × framing.State × Bytes
  decode_error s src = error_of (framing.unframe s src)

  -- The end of `BaseOutboundCodec::decode`: a chunk that is complete resets the code.
  abbrev pub settle :
      {A : Type 0}
      → ℕ
      → (A → P2PErrorResponse)
      → Decoded A × framing.State × Bytes
      → Decoded P2PErrorResponse × Outbound × Bytes
  settle code f (item a, s, src) =
      (item (f a), record { current_response_code = none; inner = s }, src)
  settle code f (waits, s, src) =
      (waits, record { current_response_code = some code; inner = s }, src)
  settle code f (failed, s, src) =
      (failed, record { current_response_code = some code; inner = s }, src)
  settle code f (panics, s, src) =
      (panics, record { current_response_code = some code; inner = s }, src)

  abbrev pub decode_chunk :
      Protocol → ℕ → framing.State → Bytes → Decoded P2PErrorResponse × Outbound × Bytes
  decode_chunk protocol code s src =
      if is_response code
      then settle code success (decode_payload protocol s src)
      else settle code (from_error code) (decode_error s src)

  -- `BaseOutboundCodec::decode`
  pub decode_response : Protocol → Outbound → Bytes → Decoded P2PErrorResponse × Outbound × Bytes
  decode_response protocol o [] = (waits, o, [])
  decode_response protocol o (c ∷ []) = (waits, o, c ∷ [])
  decode_response protocol o (c ∷ d ∷ src) = elim o.current_response_code [
    | none ↦ decode_chunk protocol c o.inner (d ∷ src)
    | some code ↦ decode_chunk protocol code o.inner (c ∷ d ∷ src)
  ]
