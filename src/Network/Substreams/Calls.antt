-- ===== src/Network/Substreams/Calls.antt =====
-- The calls of the swarm of network/src/p2p/handler.rs, other than its poll.
use ori.Base.{
  ℕ, ◌≡◌, refl, Bool, true, false, not, ◌&&◌, ◌||◌, Option, none, some, List, [], ◌∷◌, ◌++◌, ◌+◌,
  ◌-◌, ◌%◌, ◌^◌, ◌==◌, if◌then◌else◌, ◌>>=◌, ltb, length,
}
use ori.Base.Dict.{lookup, insert}
use ori.Balance.{u64}
use ori.Network.Message.{
  P2PRequest, goodbye, status, blocks_by_range, blocks_by_root, P2PErrorResponse,
  stream_termination, P2PEvent, request, response, error, io_error, is_error, multiple_responses,
  RequestId,
}
use ori.Network.Request
use ori.Network.Substreams.{
  Transport, KeepAlive, yes_keep, until, UpgradeError, apply, InboundState, pending_send,
  response_idle, closing_in, poisoned_in, pending_response, P2PHandler, io_error_retries,
  PollResult, Stage,
}
use ori.Network.Substreams.Inbound.{is_empty, queue_of, put_queue}
use ori.Network.Substreams.Poll.{poll}

-- A deadline that is put off
abbrev pub put_off : ℕ → ℕ → KeepAlive → KeepAlive
put_off now duration yes_keep = yes_keep
put_off now duration (until _) = until (now + duration)

abbrev pub is_io_error : UpgradeError → Bool
is_io_error (apply (io_error _)) = true
is_io_error _ = false

abbrev pub request_id_of : P2PEvent → RequestId
request_id_of (request id _) = id
request_id_of _ = 0

module _ {t : Transport} where
  unfoldable pub pending_requests : P2PHandler t → ℕ
  pending_requests h = (h.dial_negotiated + length h.dial_queue % 2 ^ 32) % 2 ^ 32

  unfoldable pub send_request : P2PEvent → P2PHandler t → P2PHandler t
  send_request e h = record h { keep_alive = yes_keep; dial_queue = h.dial_queue ++ (e ∷ []) }

  abbrev pub store_inbound : P2PRequest → t.In → t.Key × t.Delays → P2PHandler t → P2PHandler t
  store_inbound req substream (key, delays) h = record h {
    inbound_substreams_delay = delays;
    inbound_substreams =
        insert h.current_inbound_substream_id (response_idle substream, some key)
          h.inbound_substreams;
    events_out = h.events_out ++ (request h.current_inbound_substream_id req ∷ []);
    current_inbound_substream_id = (h.current_inbound_substream_id + 1) % u64;
  }

  abbrev pub new_inbound : P2PRequest → t.In → P2PHandler t → P2PHandler t
  new_inbound req substream h =
      store_inbound req substream
        (t.insert_delay h.current_inbound_substream_id h.inbound_substreams_delay) h

  -- What is done with the request of a new stream.
  unfoldable pub accept : P2PRequest → t.In → P2PHandler t → P2PHandler t
  accept (goodbye reason) substream h = record h {
    events_out = h.events_out ++ (request 0 (goodbye reason) ∷ []);
  }
  accept (status m) substream h = new_inbound (status m) substream h
  accept (blocks_by_range r) substream h = new_inbound (blocks_by_range r) substream h
  accept (blocks_by_root r) substream h = new_inbound (blocks_by_root r) substream h

  unfoldable pub inject_fully_negotiated_inbound :
      ℕ → P2PRequest → t.In → P2PHandler t → P2PHandler t
  inject_fully_negotiated_inbound now req substream h =
      accept req substream (record h { keep_alive = put_off now h.inactive_timeout h.keep_alive })

  abbrev pub store_outbound :
      RequestId → P2PRequest → t.Out → t.Key × t.Delays → P2PHandler t → P2PHandler t
  store_outbound id req substream (key, delays) h = record h {
    outbound_substreams_delay = delays;
    outbound_substreams = insert id (pending_response substream req, key) h.outbound_substreams;
  }

  -- The stream of a request that has been opened, which is dropped when no response is expected.
  unfoldable pub await_response : P2PEvent → t.Out → P2PHandler t → P2PHandler t
  await_response (request id req) substream h =
      if Request.expect_response req
      then store_outbound id req substream (t.insert_delay id h.outbound_substreams_delay) h
      else h
  await_response (response _ _) substream h = h
  await_response (error _ _) substream h = h

  unfoldable pub inject_fully_negotiated_outbound :
      ℕ → t.Out → P2PEvent → P2PHandler t → P2PHandler t
  inject_fully_negotiated_outbound now substream e h =
      let left = (h.dial_negotiated + 2 ^ 32 - 1) % 2 ^ 32 in
      await_response e substream (record h {
        dial_negotiated = left;
        keep_alive =
            if left == 0 && is_empty h.dial_queue && is_empty h.outbound_substreams
            then until (now + h.inactive_timeout)
            else yes_keep;
      })

  -- An idle stream is given a response to send, after which it closes unless more of them are due.
  unfoldable pub respond_idle : P2PErrorResponse → t.In → InboundState t
  respond_idle (stream_termination k) substream = closing_in substream
  respond_idle resp substream =
      pending_send (t.send substream resp) (not (multiple_responses resp) || is_error resp)

  -- What a response of the application does to its stream, with the queue; `none` is a panic.
  unfoldable pub respond :
      P2PErrorResponse
      → InboundState t
      → Option (List P2PErrorResponse)
      → Option (InboundState t × Option (List P2PErrorResponse))
  respond resp (response_idle substream) queue = some (respond_idle resp substream, queue)
  respond resp (pending_send substream closing) queue = some (
      if multiple_responses resp
      then (pending_send substream closing, some (queue_of queue ++ (resp ∷ [])))
      else (pending_send substream true, queue))
  respond resp (closing_in substream) queue = some (closing_in substream, queue)
  respond resp poisoned_in queue = none

  unfoldable pub inject_response :
      RequestId → P2PErrorResponse → P2PHandler t → Option (P2PHandler t)
  inject_response rpc_id resp h = elim (lookup rpc_id h.inbound_substreams) [
    | none ↦ some h
    | some entry ↦ do
      (st, queue) ← respond resp entry.0 (lookup rpc_id h.queued_outbound_items)
      some (record h {
        inbound_substreams = insert rpc_id (st, entry.1) h.inbound_substreams;
        queued_outbound_items = put_queue rpc_id queue h.queued_outbound_items;
      })
  ]

  unfoldable pub inject_event : P2PEvent → P2PHandler t → Option (P2PHandler t)
  inject_event (request id req) h = some (send_request (request id req) h)
  inject_event (response rpc_id resp) h = inject_response rpc_id resp h
  inject_event (error _ _) h = some h

  abbrev pub fail_request : P2PEvent → UpgradeError → P2PHandler t → P2PHandler t
  fail_request e err h = record h {
    outbound_io_error_retries = 0;
    pending_error = (request_id_of e, err) ∷ h.pending_error;
  }

  unfoldable pub inject_dial_upgrade_error : P2PEvent → UpgradeError → P2PHandler t → P2PHandler t
  inject_dial_upgrade_error e err h =
      let retries = (h.outbound_io_error_retries + 1) % 2 ^ 8 in
      if is_io_error err
      then if ltb retries io_error_retries
        then send_request e (record h { outbound_io_error_retries = retries })
        else fail_request e err (record h { outbound_io_error_retries = retries })
      else fail_request e err h

-- What the swarm asks of the handler
pub data Call (t : Transport) : Type 0 where
  negotiated_inbound : P2PRequest → t.In → Call t
  negotiated_outbound : t.Out → P2PEvent → Call t
  injects : P2PEvent → Call t
  dial_fails : P2PEvent → UpgradeError → Call t
  polls : Call t

abbrev pub results : Option PollResult → List PollResult
results none = []
results (some r) = r ∷ []

module _ {t : Transport} where
  -- A call at a time, with the result of a poll; `none` is a panic.
  unfoldable pub step : ℕ → Call t → P2PHandler t → Stage t
  step now (negotiated_inbound req substream) h =
      some (inject_fully_negotiated_inbound now req substream h, none)
  step now (negotiated_outbound substream e) h =
      some (inject_fully_negotiated_outbound now substream e h, none)
  step now (injects e) h = do h' ← inject_event e h; some (h', none)
  step now (dial_fails e err) h = some (inject_dial_upgrade_error e err h, none)
  step now polls h = poll now h

  -- A history of calls, with the results of its polls
  unfoldable pub run : List (ℕ × Call t) → P2PHandler t → Option (P2PHandler t × List PollResult)
  run [] h = some (h, [])
  run ((now, c) ∷ cs) h = do
    (h', r) ← step now c h
    (h'', rs) ← run cs h'
    some (h'', results r ++ rs)

  -- A run whose first call is answered, and whose rest is.
  pub run_cons :
      (now : ℕ) (c : Call t) (cs : List (ℕ × Call t)) (h h' h'' : P2PHandler t)
      (r : Option PollResult) (rs : List PollResult)
      → step now c h ≡ some (h', r)
      → run cs h' ≡ some (h'', rs)
      → run ((now, c) ∷ cs) h ≡ some (h'', results r ++ rs)
  unfolding run
  run_cons now c cs h h' h'' r rs e e' = rw (e, ◌>>=◌, e', ◌>>=◌) refl
