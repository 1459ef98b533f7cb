-- ===== src/Network/Substreams/Requests.antt =====
-- The requests that a peer sends over streams of its own, of network/src/p2p/handler.rs.
use ori.Base.{
  ℕ, ◌≡◌, refl, ◌+◌, ◌<◌, true, false, Option, some, [], ◌∷◌, ◌++◌, if◌then◌else◌, has, ◌==◌, arith,
}
use ori.Base.Dict.{Dict, keys, lookup, lookup-insert}
use ori.Base.Every.{Every}
use ori.Balance.{u64}
use ori.Network.Message.{P2PRequest, goodbye, status, blocks_by_range, blocks_by_root, request}
use ori.Network.Request
use ori.Network.Substreams.{Transport, InboundState, response_idle, P2PHandler, KeepAlive}
use ori.Network.Substreams.Calls.{store_inbound, accept, put_off, inject_fully_negotiated_inbound}
use ori.Network.Substreams.Invariant.{inbound_ok, Inv}

module _ {t : Transport} where
  Every-fresh :
      (next : ℕ) (delays : t.Delays) (d : Dict (InboundState t × Option t.Key))
      → Every (inbound_ok next delays) d
      → has next (keys d) ≡ false
  Every-fresh next delays [] h = refl
  Every-fresh next delays ((k, v) ∷ d) h = ground (arith, h.0, Every-fresh next delays d h.1)

  -- What a new request leaves: it is told to the application under an id that no stream has, which is
  -- below the next one, and its stream is stored under that id, beside the others.
  pub record Opened (h h' : P2PHandler t) (req : P2PRequest) (substream : t.In) : Type 0 where
    pub unused : has h.current_inbound_substream_id (keys h.inbound_substreams) ≡ false
    pub told : h'.events_out ≡ h.events_out ++ (request h.current_inbound_substream_id req ∷ [])
    pub stored :
        (j : ℕ)
        → lookup j h'.inbound_substreams ≡ (
            if j == h.current_inbound_substream_id
            then some (
              response_idle substream,
              some (t.insert_delay h.current_inbound_substream_id h.inbound_substreams_delay).0,
            )
            else lookup j h.inbound_substreams)
    pub next_id : h'.current_inbound_substream_id ≡ h.current_inbound_substream_id + 1

  store_inbound-Opened :
      (req : P2PRequest) (substream : t.In) (h : P2PHandler t)
      → Inv h
      → h.current_inbound_substream_id + 1 < u64
      → Opened h
          (store_inbound req substream
            (t.insert_delay h.current_inbound_substream_id h.inbound_substreams_delay)
            h)
          req
          substream
  store_inbound-Opened req substream h v room = record {
    unused =
        Every-fresh h.current_inbound_substream_id h.inbound_substreams_delay h.inbound_substreams
          v.inbound_sound;
    told = refl;
    stored = λ j. lookup-insert j h.current_inbound_substream_id _ h.inbound_substreams;
    next_id = omega (arith, room);
  }

  keep_alive-Opened :
      (keep : KeepAlive) (h h' : P2PHandler t) (req : P2PRequest) (substream : t.In)
      → Opened (record h { keep_alive = keep }) h' req substream
      → Opened h h' req substream
  keep_alive-Opened keep h h' req substream o = record {
    unused = o.unused;
    told = o.told;
    stored = o.stored;
    next_id = o.next_id;
  }

  -- A request that expects a response, on a new stream of a handler with the invariant: the application
  -- is told of it under an id that no inbound stream has, the stream waits under that id for the
  -- response, every other stream is left as it was, and the next id is the one above.
  pub inject_fully_negotiated_inbound-Opened :
      (now : ℕ) (req : P2PRequest) (substream : t.In) (h : P2PHandler t)
      → Inv h
      → h.current_inbound_substream_id + 1 < u64
      → Request.expect_response req ≡ true
      → Opened h (inject_fully_negotiated_inbound now req substream h) req substream
  unfolding inject_fully_negotiated_inbound accept Request.expect_response
  inject_fully_negotiated_inbound-Opened now (goodbye reason) substream h v room e = cc
  inject_fully_negotiated_inbound-Opened now (status m) substream h v room e =
      keep_alive-Opened _ h _ (status m) substream (
        store_inbound-Opened (status m) substream
          (record h { keep_alive = put_off now h.inactive_timeout h.keep_alive }) v room)
  inject_fully_negotiated_inbound-Opened now (blocks_by_range r) substream h v room e =
      keep_alive-Opened _ h _ (blocks_by_range r) substream (
        store_inbound-Opened (blocks_by_range r) substream
          (record h { keep_alive = put_off now h.inactive_timeout h.keep_alive }) v room)
  inject_fully_negotiated_inbound-Opened now (blocks_by_root r) substream h v room e =
      keep_alive-Opened _ h _ (blocks_by_root r) substream (
        store_inbound-Opened (blocks_by_root r) substream
          (record h { keep_alive = put_off now h.inactive_timeout h.keep_alive }) v room)
