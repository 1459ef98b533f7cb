-- ===== src/Examples/Streams.antt =====
-- A framing with one byte for the length, and a response that refuses a request.
use ori.Base.{
  ◌<◌, ◌≡◌, refl, sym, ◌∙◌, ap, false, Option, none, some, [], ◌∷◌, ◌++◌, arith, ltb, if◌then◌else◌,
  length, take, drop, Bool-cases, inl, inr, length-append,
}
use ori.Types.Hash.{Bytes}
use ori.Network.Message.{
  StatusMessage, GoodbyeReason, client_shutdown, irrelevant_network, fault, unknown_reason,
  BlocksByRangeRequest, BlocksByRootRequest, invalid_request, goodbye_from, goodbye_into, as_u8,
}
use ori.Network.Codec.{
  Framed, waiting, packet, Framing, MessageCodecs, rpc_blocks_by_range, item, encode_response,
  decode_response,
}
use ori.Network.Codec.RoundTrip.{fresh, decode_response-encode_response}
use ori.Examples.Wire.{Wire, nat_wire, ◌&◌, iso_wire, list_wire, codec}

abbrev frame : Bytes → Option Bytes
frame p = if ltb (length p) 128 then some (length p ∷ p) else none

abbrev unframe : Unit {0} → Bytes → Framed (Unit {0})
unframe s [] = waiting s []
unframe s (n ∷ src) =
    if ltb (length src) n then waiting s (n ∷ src) else packet (take n src) s (drop n src)

take-length : (p rest : Bytes) → take (length p) (p ++ rest) ≡ p
take-length [] rest = refl
take-length (b ∷ p) rest = ap (λ (t : Bytes). b ∷ t) (take-length p rest)

drop-length : (p rest : Bytes) → drop (length p) (p ++ rest) ≡ rest
drop-length [] rest = refl
drop-length (b ∷ p) rest = drop-length p rest

framed_is : (p bs : Bytes) → frame p ≡ some bs → bs ≡ length p ∷ p
framed_is p bs e = elim (Bool-cases (ltb (length p) 128)) [
  | inl short ↦
      let made : frame p ≡ some (length p ∷ p) = (rw (frame, short) refl) in
      ap bytes_of (sym e ∙ made)
  | inr long ↦ let gone : frame p ≡ none = (rw (frame, long) refl) in cc
]
  where
    bytes_of : Option Bytes → Bytes
    bytes_of none = []
    bytes_of (some x) = x

pub frame-longer : (p bs : Bytes) → frame p ≡ some bs → length p < length bs
frame-longer p bs e = rw (framed_is p bs e) (omega arith)

pub unframe_frame :
    (p bs rest : Bytes) → frame p ≡ some bs → unframe tt (bs ++ rest) ≡ packet p tt rest
unframe_frame p bs rest e =
    let enough : ltb (length (p ++ rest)) (length p) ≡ false =
      ground (arith, length-append p rest) in
    rw (framed_is p bs e, unframe, enough, take-length p rest, drop-length p rest) refl

abbrev framing : Framing
framing = record {
  State = Unit {0};
  start = tt;
  frame = frame;
  unframe = unframe;
  longer = frame-longer;
  unframe-frame = unframe_frame;
}

goodbye_from-goodbye_into : (r : GoodbyeReason) → goodbye_from (goodbye_into r) ≡ r
unfolding goodbye_from goodbye_into
goodbye_from-goodbye_into client_shutdown = refl
goodbye_from-goodbye_into irrelevant_network = refl
goodbye_from-goodbye_into fault = refl
goodbye_from-goodbye_into unknown_reason = refl

abbrev status_wire : Wire StatusMessage
status_wire =
    iso_wire
      (λ m. (m.genesis_hash, (m.finalized_root, (m.finalized_number, (m.head_root, m.network_id)))))
      (λ (g, (f, (n, (h, i)))). record {
        genesis_hash = g;
        finalized_root = f;
        finalized_number = n;
        head_root = h;
        network_id = i;
      })
      (λ m. refl) (nat_wire & nat_wire & nat_wire & nat_wire & nat_wire)

abbrev range_wire : Wire BlocksByRangeRequest
range_wire =
    iso_wire (λ r. (r.head_block_root, (r.start_slot, (r.count, r.step))))
      (λ (h, (s, (c, p))). record { head_block_root = h; start_slot = s; count = c; step = p })
      (λ r. refl) (nat_wire & nat_wire & nat_wire & nat_wire)

abbrev root_wire : Wire BlocksByRootRequest
root_wire =
    iso_wire (λ r. r.block_roots) (λ l. record { block_roots = l }) (λ r. refl) (list_wire nat_wire)

abbrev message_codecs : MessageCodecs
message_codecs = record {
  status_codec = codec status_wire;
  goodbye_codec = codec (iso_wire goodbye_into goodbye_from goodbye_from-goodbye_into nat_wire);
  range_codec = codec range_wire;
  root_codec = codec root_wire;
  error_codec = codec (list_wire nat_wire);
}

refused_sent :
    encode_response framing message_codecs (invalid_request (104 ∷ 105 ∷ []))
    ≡ some (1 ∷ 3 ∷ 2 ∷ 104 ∷ 105 ∷ [])
unfolding encode_response as_u8
refused_sent = refl

decode_response-encode_response_example :
    decode_response framing message_codecs rpc_blocks_by_range
      (fresh framing message_codecs)
      ((1 ∷ 3 ∷ 2 ∷ 104 ∷ 105 ∷ []) ++ 7 ∷ [])
    ≡ (item (invalid_request (104 ∷ 105 ∷ [])), fresh framing message_codecs, 7 ∷ [])
decode_response-encode_response_example =
    decode_response-encode_response framing message_codecs rpc_blocks_by_range
      (invalid_request (104 ∷ 105 ∷ [])) 2 (104 ∷ 105 ∷ []) (1 ∷ 3 ∷ 2 ∷ 104 ∷ 105 ∷ []) (7 ∷ [])
      refl refl refused_sent
