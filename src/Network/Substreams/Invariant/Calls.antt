-- ===== src/Network/Substreams/Invariant/Calls.antt =====
-- Every call of the swarm keeps the invariant of network/src/p2p/handler.rs, and none of them panics.
use ori.Base.{
  ℕ, ◌≡◌, refl, ◌+◌, ◌<◌, ◌%◌, ◌^◌, true, Option, some, List, [], ◌∷◌, ◌++◌, if◌then◌else◌, arith,
  ◌>>=◌, inl, inr, Bool-cases, Option-cases, ltb, length,
}
use ori.Base.Dict.{lookup, insert, insert-Distinct}
use ori.Base.Every.{Every-mono, Every-lookup, Every-insert}
use ori.Balance.{u64}
use ori.Network.Message.{
  P2PRequest, goodbye, status, blocks_by_range, blocks_by_root, P2PErrorResponse, success,
  invalid_request, server_error, unknown, stream_termination, multiple_responses, P2PEvent, request,
  response, error,
}
use ori.Network.Request
use ori.Network.Substreams.{
  Transport, UpgradeError, InboundState, pending_send, response_idle, closing_in, poisoned_in,
  pending_response, P2PHandler, PollResult, io_error_retries,
}
use ori.Network.Substreams.Inbound.{queue_of, put_queue}
use ori.Network.Substreams.Calls.{
  new_inbound, accept, inject_fully_negotiated_inbound, store_outbound, await_response,
  inject_fully_negotiated_outbound, respond, respond_idle, inject_response, inject_event,
  send_request, is_io_error, inject_dial_upgrade_error, Call, negotiated_inbound,
  negotiated_outbound, injects, dial_fails, polls, step, results, run, run_cons,
}
use ori.Network.Substreams.Invariant.{
  is_sound_in, key_held, inbound_ok, inbound_ok_mono, outbound_ok, outbound_ok_mono, Inv, Ends,
  Ends-some,
}
use ori.Network.Substreams.Invariant.Polling.{Kept, poll-Kept}
use ori.Network.Substreams.Invariant.Inbound.{keeps-Good}
use ori.Network.Substreams.Invariant.Expiry.{Shrinking}

module _ (t : Transport) where
  store_inbound-Kept :
      (req : P2PRequest) (substream : t.In) (h : P2PHandler t)
      → Inv h
      → h.current_inbound_substream_id + 1 < u64
      → Kept t h (new_inbound req substream h)
  store_inbound-Kept req substream h v room = record {
    inv = record {
      inbound_keys =
          insert-Distinct next (response_idle substream, some made.0) h.inbound_substreams
            v.inbound_keys;
      outbound_keys = v.outbound_keys;
      queue_keys = v.queue_keys;
      inbound_sound =
          Every-insert (inbound_ok ((next + 1) % u64) made.1) next
            (response_idle substream, some made.0) h.inbound_substreams
            (ground (arith, wrap, v.next_positive, t.insert-holds next h.inbound_substreams_delay))
            (Every-mono (inbound_ok next h.inbound_substreams_delay)
              (inbound_ok ((next + 1) % u64) made.1) h.inbound_substreams later v.inbound_sound);
      outbound_sound = v.outbound_sound;
      next_positive = omega (arith, wrap);
    };
    next_most = omega (arith, wrap);
  }
    where
      next : ℕ
      next = h.current_inbound_substream_id

      made : t.Key × t.Delays
      made = t.insert_delay next h.inbound_substreams_delay

      wrap : (next + 1) % u64 ≡ next + 1
      wrap = omega (arith, room)

      later :
          (j : ℕ) (entry : InboundState t × Option t.Key)
          → inbound_ok next h.inbound_substreams_delay j entry ≡ true
          → inbound_ok ((next + 1) % u64) made.1 j entry ≡ true
      later j entry ok =
          let same =
            inbound_ok_mono next h.inbound_substreams_delay made.1
              (t.insert-keeps next h.inbound_substreams_delay) j entry ok in
          ground (arith, wrap, same)

  accept-Kept :
      (req : P2PRequest) (substream : t.In) (h : P2PHandler t)
      → Inv h
      → h.current_inbound_substream_id + 1 < u64
      → Kept t h (accept req substream h)
  unfolding accept
  accept-Kept (goodbye reason) substream h v room = record { inv = v; next_most = omega arith }
  accept-Kept (status m) substream h v room = store_inbound-Kept (status m) substream h v room
  accept-Kept (blocks_by_range r) substream h v room =
      store_inbound-Kept (blocks_by_range r) substream h v room
  accept-Kept (blocks_by_root r) substream h v room =
      store_inbound-Kept (blocks_by_root r) substream h v room

  store_outbound-Kept :
      (id : ℕ) (req : P2PRequest) (substream : t.Out) (h : P2PHandler t)
      → Inv h
      → Kept t h (store_outbound id req substream (t.insert_delay id h.outbound_substreams_delay) h)
  store_outbound-Kept id req substream h v =
      let (key, delays) = t.insert_delay id h.outbound_substreams_delay in
      record {
        inv = record {
          inbound_keys = v.inbound_keys;
          outbound_keys =
              insert-Distinct id (pending_response substream req, key) h.outbound_substreams
                v.outbound_keys;
          queue_keys = v.queue_keys;
          inbound_sound = v.inbound_sound;
          outbound_sound =
              Every-insert (outbound_ok delays) id (pending_response substream req, key)
                h.outbound_substreams (t.insert-holds id h.outbound_substreams_delay)
                (Every-mono (outbound_ok h.outbound_substreams_delay) (outbound_ok delays)
                  h.outbound_substreams
                  (outbound_ok_mono h.outbound_substreams_delay delays
                    (t.insert-keeps id h.outbound_substreams_delay))
                  v.outbound_sound);
          next_positive = v.next_positive;
        };
        next_most = omega arith;
      }

  await_response-Kept :
      (e : P2PEvent) (substream : t.Out) (h : P2PHandler t)
      → Inv h
      → Kept t h (await_response e substream h)
  unfolding await_response
  await_response-Kept (request id req) substream h v =
      elim (Bool-cases (Request.expect_response req)) [
        | inl e ↦ rw e (store_outbound-Kept id req substream h v)
        | inr e ↦ rw e (record { inv = v; next_most = omega arith })
      ]
  await_response-Kept (response _ _) substream h v = record { inv = v; next_most = omega arith }
  await_response-Kept (error _ _) substream h v = record { inv = v; next_most = omega arith }

  respond_idle_sound :
      (resp : P2PErrorResponse) (substream : t.In)
      → is_sound_in (respond_idle {t = t} resp substream) ≡ true
  unfolding respond_idle
  respond_idle_sound (success _) substream = refl
  respond_idle_sound (invalid_request _) substream = refl
  respond_idle_sound (server_error _) substream = refl
  respond_idle_sound (unknown _) substream = refl
  respond_idle_sound (stream_termination _) substream = refl

  respond_sound :
      (resp : P2PErrorResponse) (st : InboundState t) (queue : Option (List P2PErrorResponse))
      → is_sound_in st ≡ true
      → (s : InboundState t × Option (List P2PErrorResponse)) × (respond resp st queue ≡ some s)
        × (is_sound_in s.0 ≡ true)
  unfolding respond
  respond_sound resp (response_idle substream) queue e =
      (_, refl, respond_idle_sound resp substream)
  respond_sound resp (pending_send substream closing) queue e = (
    if multiple_responses resp
        then (pending_send substream closing, some (queue_of queue ++ (resp ∷ [])))
        else (pending_send substream true, queue),
    refl,
    ground arith,
  )
  respond_sound resp (closing_in substream) queue e = (_, refl, refl)
  respond_sound resp poisoned_in queue e = cc

  inject_response-Kept :
      (id : ℕ) (resp : P2PErrorResponse) (h : P2PHandler t)
      → Inv h
      → (h' : P2PHandler t) × (inject_response id resp h ≡ some h') × Kept t h h'
  unfolding inject_response
  inject_response-Kept id resp h v = elim (Option-cases (lookup id h.inbound_substreams)) [
    | inl e ↦ (h, rw (e, inject_response) refl, record { inv = v; next_most = omega arith })
    | inr (entry, e) ↦
        let was : inbound_ok h.current_inbound_substream_id h.inbound_substreams_delay id entry
            ≡ true =
          Every-lookup (inbound_ok h.current_inbound_substream_id h.inbound_substreams_delay) id
            entry h.inbound_substreams v.inbound_sound e in
        let held : key_held t id entry.1 h.inbound_substreams_delay ≡ true = ground (arith, was) in
        let sound : is_sound_in entry.0 ≡ true = ground (arith, was) in
        let (s, c, ok) = respond_sound resp entry.0 (lookup id h.queued_outbound_items) sound in
        (
          record h {
            inbound_substreams = insert id (s.0, entry.1) h.inbound_substreams;
            queued_outbound_items = put_queue id s.1 h.queued_outbound_items;
          },
          rw (e, inject_response, c, ◌>>=◌) refl,
          record {
            inv =
                (keeps-Good t h id s.0 entry.1 s.1 entry v e ok h.inbound_substreams_delay held
                  (λ m j ne x. x)).inv;
            next_most = omega arith;
          },
        )
  ]

  pub inject_event-Kept :
      (e : P2PEvent) (h : P2PHandler t)
      → Inv h
      → (h' : P2PHandler t) × (inject_event e h ≡ some h') × Kept t h h'
  unfolding inject_event send_request
  inject_event-Kept (request id req) h v = (_, refl, record { inv = v; next_most = omega arith })
  inject_event-Kept (response id resp) h v = inject_response-Kept id resp h v
  inject_event-Kept (error _ _) h v = (h, refl, record { inv = v; next_most = omega arith })

  dial_fails-Kept :
      (e : P2PEvent) (err : UpgradeError) (h : P2PHandler t)
      → Inv h
      → Kept t h (inject_dial_upgrade_error e err h)
  unfolding inject_dial_upgrade_error send_request
  dial_fails-Kept e err h v = elim (Bool-cases (is_io_error err)) [
    | inl io ↦
        elim (Bool-cases (ltb ((h.outbound_io_error_retries + 1) % 2 ^ 8) io_error_retries)) [
          | inl few ↦ rw (io, few) (record { inv = v; next_most = omega arith })
          | inr many ↦ rw (io, many) (record { inv = v; next_most = omega arith })
        ]
    | inr other ↦ rw other (record { inv = v; next_most = omega arith })
  ]

  -- One call of the swarm, whichever it is, is answered without a panic and keeps the invariant, as
  -- long as the inbound ids have room.
  pub step-Kept :
      (now : ℕ) (c : Call t) (h : P2PHandler t)
      → Shrinking t
      → Inv h
      → h.current_inbound_substream_id + 1 < u64
      → Ends (λ h' r. Kept t h h') (step now c h)
  unfolding step inject_fully_negotiated_inbound inject_fully_negotiated_outbound
  step-Kept now (negotiated_inbound req substream) h shrinks v room =
      accept-Kept req substream _ v room
  step-Kept now (negotiated_outbound substream e) h shrinks v room =
      await_response-Kept e substream _ v
  step-Kept now (injects e) h shrinks v room =
      let (h', eq, k) = inject_event-Kept e h v in rw (eq, ◌>>=◌) k
  step-Kept now (dial_fails e err) h shrinks v room = dial_fails-Kept e err h v
  step-Kept now polls h shrinks v room = poll-Kept t now h shrinks v

  -- A run of any calls on a handler with the invariant, over delay queues whose polls take out what
  -- they yield, as long as the inbound ids have room: no call panics, not for a delay that is gone
  -- from its queue either, or runs on for ever, and the invariant holds at the end.
  pub run-Inv :
      (cs : List (ℕ × Call t)) (h : P2PHandler t)
      → Shrinking t
      → Inv h
      → h.current_inbound_substream_id + length cs < u64
      → (h' : P2PHandler t) × (rs : List PollResult) × (run cs h ≡ some (h', rs)) × Inv h'
  unfolding run
  run-Inv [] h shrinks v room = (h, [], refl, v)
  run-Inv ((now, c) ∷ cs) h shrinks v room =
      let (h', r, e, k) =
        Ends-some (λ h' r. Kept t h h') (step now c h)
          (step-Kept now c h shrinks v (omega (arith, room))) in
      let (h'', rs, e', v') = run-Inv cs h' shrinks k.inv (omega (arith, room, k.next_most)) in
      (h'', results r ++ rs, run_cons now c cs h h' h'' r rs e e', v')
