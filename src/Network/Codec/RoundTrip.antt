-- ===== src/Network/Codec/RoundTrip.antt =====
-- Encoding and decoding of network/src/p2p/codec, one after the other.
use ori.Base.{
  ℕ, ◌≡◌, refl, sym, ap, ◌∙◌, Bool, true, false, Option, none, some, [], ◌∷◌, ◌++◌, arith, inl, inr,
  Option-cases,
}
use ori.Types.Hash.{Bytes, same_bytes}
use ori.Network.Message.{
  P2PResponse, status_response, blocks_by_range_response, blocks_by_root_response, P2PErrorResponse,
  success, invalid_request, server_error, unknown, stream_termination, P2PRequest, status, goodbye,
  blocks_by_range, blocks_by_root, as_u8, is_response, from_error,
}
use ori.Network.Codec.{
  Protocol, rpc_status, rpc_goodbye, rpc_blocks_by_range, rpc_blocks_by_root, Framing,
  MessageCodecs, item, panics, Outbound, decode_request, payload, encode_response, read_response,
  decode_payload, decode_error, decode_chunk, decode_response,
}

-- The protocol of a request's stream.
abbrev pub protocol_of : P2PRequest → Protocol
protocol_of (status m) = rpc_status
protocol_of (goodbye r) = rpc_goodbye
protocol_of (blocks_by_range r) = rpc_blocks_by_range
protocol_of (blocks_by_root r) = rpc_blocks_by_root

-- Whether a response can answer on a stream of the protocol.
abbrev pub answers : Protocol → P2PErrorResponse → Bool
answers rpc_status (success (status_response m)) = true
answers rpc_blocks_by_range (success (blocks_by_range_response bytes)) = true
answers rpc_blocks_by_root (success (blocks_by_root_response bytes)) = true
answers protocol (invalid_request err) = true
answers protocol (server_error err) = true
answers protocol (unknown err) = true
answers protocol r = false

module _ (framing : Framing) (codecs : MessageCodecs) where
  abbrev pub fresh : Outbound framing codecs
  fresh = record { current_response_code = none; inner = framing.start }

  -- A frame is longer than its packet, so it is no empty object and the code does not end the buffer.
  chunk-frame :
      (protocol : Protocol) (code b : ℕ) (p f rest : Bytes)
      → framing.frame (b ∷ p) ≡ some f
      → decode_response framing codecs protocol fresh (code ∷ (f ++ rest))
        ≡ decode_chunk framing codecs protocol code framing.start (f ++ rest)
  unfolding decode_response
  chunk-frame protocol code b p [] rest e = absurd (omega (arith, framing.longer (b ∷ p) [] e))
  chunk-frame protocol code b p (x ∷ f) rest e = refl

  payload-frame :
      (protocol : Protocol) (b : ℕ) (p f rest : Bytes)
      → framing.frame (b ∷ p) ≡ some f
      → decode_payload framing codecs protocol framing.start (f ++ rest)
        ≡ (read_response framing codecs protocol (b ∷ p), framing.start, rest)
  unfolding decode_payload
  payload-frame protocol b p [] rest e = absurd (omega (arith, framing.longer (b ∷ p) [] e))
  payload-frame protocol b p (x ∷ []) rest e =
      absurd (omega (arith, framing.longer (b ∷ p) (x ∷ []) e))
  payload-frame protocol b p (x ∷ y ∷ f) rest e =
      let long : same_bytes (x ∷ y ∷ (f ++ rest)) (0 ∷ []) ≡ false = ground arith in
      rw (decode_payload, long, framing.unframe-frame (b ∷ p) (x ∷ y ∷ f) rest e) refl

  decode-success :
      (protocol : Protocol) (r : P2PResponse) (b : ℕ) (p f rest : Bytes)
      → framing.frame (b ∷ p) ≡ some f
      → read_response framing codecs protocol (b ∷ p) ≡ item r
      → decode_response framing codecs protocol fresh (0 ∷ (f ++ rest))
        ≡ (item (success r), fresh, rest)
  unfolding is_response
  decode-success protocol r b p f rest e read =
      rw
        (
          chunk-frame protocol 0 b p f rest e,
          decode_chunk,
          payload-frame protocol b p f rest e,
          read,
        )
        refl

  decode-error :
      (protocol : Protocol) (code b : ℕ) (err p f rest : Bytes)
      → is_response code ≡ false
      → framing.frame (b ∷ p) ≡ some f
      → codecs.error_codec.deserialize (b ∷ p) ≡ some err
      → decode_response framing codecs protocol fresh (code ∷ (f ++ rest))
        ≡ (item (from_error code err), fresh, rest)
  decode-error protocol code b err p f rest other e read =
      rw
        (
          chunk-frame protocol code b p f rest e,
          decode_chunk,
          other,
          decode_error,
          framing.unframe-frame (b ∷ p) f rest e,
          read,
        )
        refl

  bytes_or : Bytes → Option Bytes → Bytes
  bytes_or d none = d
  bytes_or d (some bs) = bs

  some_bytes : {a c : Bytes} → some a ≡ some c → a ≡ c
  unfolding bytes_or
  some_bytes e = ap (bytes_or []) e

  read-payload :
      (protocol : Protocol) (r : P2PResponse) (b : ℕ) (p : Bytes)
      → answers protocol (success r) ≡ true
      → payload framing codecs (success r) ≡ some (b ∷ p)
      → read_response framing codecs protocol (b ∷ p) ≡ item r
  read-payload rpc_status (status_response m) b p a e =
      rw (sym (some_bytes e), codecs.status_codec.deserialize-serialize m) refl
  read-payload rpc_status (blocks_by_range_response bytes) b p a e = cc
  read-payload rpc_status (blocks_by_root_response bytes) b p a e = cc
  read-payload rpc_goodbye (status_response m) b p a e = cc
  read-payload rpc_goodbye (blocks_by_range_response bytes) b p a e = cc
  read-payload rpc_goodbye (blocks_by_root_response bytes) b p a e = cc
  read-payload rpc_blocks_by_range (status_response m) b p a e = cc
  read-payload rpc_blocks_by_range (blocks_by_range_response bytes) b p a e = rw (some_bytes e) refl
  read-payload rpc_blocks_by_range (blocks_by_root_response bytes) b p a e = cc
  read-payload rpc_blocks_by_root (status_response m) b p a e = cc
  read-payload rpc_blocks_by_root (blocks_by_range_response bytes) b p a e = cc
  read-payload rpc_blocks_by_root (blocks_by_root_response bytes) b p a e = rw (some_bytes e) refl

  error-payload :
      (err : Bytes) (b : ℕ) (p : Bytes)
      → some (codecs.error_codec.serialize err) ≡ some (b ∷ p)
      → codecs.error_codec.deserialize (b ∷ p) ≡ some err
  error-payload err b p e =
      rw (sym (some_bytes e), codecs.error_codec.deserialize-serialize err) refl

  encode_response_frames :
      (r : P2PErrorResponse) (code b : ℕ) (p bs : Bytes)
      → as_u8 r ≡ some code
      → payload framing codecs r ≡ some (b ∷ p)
      → encode_response framing codecs r ≡ some bs
      → (f : Bytes) × (framing.frame (b ∷ p) ≡ some f) × (bs ≡ code ∷ f)
  unfolding encode_response
  encode_response_frames r code b p bs coded paid e = elim (Option-cases (framing.frame (b ∷ p))) [
    | inl gone ↦
        let no_bytes : encode_response framing codecs r ≡ none =
          (rw (encode_response, coded, paid, gone) refl) in
        cc
    | inr (f, framed) ↦
        let made : encode_response framing codecs r ≡ some (code ∷ f) =
          (rw (encode_response, coded, paid, framed) refl) in
        (f, framed, some_bytes (sym e ∙ made))
  ]

  -- A response with a payload that is not empty, on a stream whose protocol it can answer: if it is
  -- encoded, its bytes are decoded to it whatever follows them, the rest stays in the buffer, and the
  -- stream is ready for the next chunk.
  pub decode_response-encode_response :
      (protocol : Protocol) (r : P2PErrorResponse) (b : ℕ) (p bs rest : Bytes)
      → answers protocol r ≡ true
      → payload framing codecs r ≡ some (b ∷ p)
      → encode_response framing codecs r ≡ some bs
      → decode_response framing codecs protocol fresh (bs ++ rest) ≡ (item r, fresh, rest)
  unfolding as_u8 is_response from_error
  decode_response-encode_response protocol (success r) b p bs rest a paid e =
      let (f, framed, made) = encode_response_frames (success r) 0 b p bs refl paid e in
      rw made (decode-success protocol r b p f rest framed (read-payload protocol r b p a paid))
  decode_response-encode_response protocol (invalid_request err) b p bs rest a paid e =
      let (f, framed, made) = encode_response_frames (invalid_request err) 1 b p bs refl paid e in
      rw made (decode-error protocol 1 b err p f rest refl framed (error-payload err b p paid))
  decode_response-encode_response protocol (server_error err) b p bs rest a paid e =
      let (f, framed, made) = encode_response_frames (server_error err) 2 b p bs refl paid e in
      rw made (decode-error protocol 2 b err p f rest refl framed (error-payload err b p paid))
  decode_response-encode_response protocol (unknown err) b p bs rest a paid e =
      let (f, framed, made) = encode_response_frames (unknown err) 255 b p bs refl paid e in
      rw made (decode-error protocol 255 b err p f rest refl framed (error-payload err b p paid))
  decode_response-encode_response protocol (stream_termination t) b p bs rest a paid e = cc

  -- A packet that does not decode as the protocol's request makes the receiver panic.
  decode_request_panics :
      (bs p rest : Bytes)
      → framing.frame p ≡ some bs
      → codecs.range_codec.deserialize p ≡ none
      → (decode_request framing codecs rpc_blocks_by_range framing.start (bs ++ rest)).0 ≡ panics
  unfolding decode_request
  decode_request_panics bs p rest framed bad =
      rw (decode_request, framing.unframe-frame p bs rest framed, bad) refl
