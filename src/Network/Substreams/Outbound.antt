-- ===== src/Network/Substreams/Outbound.antt =====
-- The outbound streams of network/src/p2p/handler.rs: the responses that a poll reads, the streams that
-- have timed out, and the requests that wait for a stream.
use mathlib.Core.Option
use ori.Base.{
  ℕ, not, ◌&&◌, Option, none, some, List, [], ◌∷◌, ◌+◌, ◌%◌, ◌^◌, if◌then◌else◌, ◌>>=◌, ltb,
}
use ori.Base.Dict.{lookup, insert, erase}
use ori.Types.Hash.{Bytes}
use ori.Network.Message.{
  P2PRequest, P2PErrorResponse, stream_termination, P2PEvent, request, response, error, custom,
  is_error, RequestId,
}
use ori.Network.Request
use ori.Network.Substreams.{
  Transport, OutPoll, answer, ended, silent, out_failed, Expiry, waiting, expired, timer_failed,
  OutboundState, pending_response, closing_out, poisoned_out, P2PHandler, PollResult, report,
  open_substream, not_ready, poll_failed, Stage, ◌>>>◌,
}
use ori.Network.Substreams.Inbound.{relax}

-- "Stream closed early. Empty response"
abbrev pub stream_closed_early : Bytes
stream_closed_early =
    83 ∷ 116 ∷ 114 ∷ 101 ∷ 97 ∷ 109 ∷ 32 ∷ 99 ∷ 108 ∷ 111 ∷ 115 ∷ 101 ∷ 100 ∷ 32 ∷ 101 ∷ 97 ∷ 114
    ∷ 108 ∷ 121 ∷ 46 ∷ 32 ∷ 69 ∷ 109 ∷ 112 ∷ 116 ∷ 121 ∷ 32 ∷ 114 ∷ 101 ∷ 115 ∷ 112 ∷ 111 ∷ 110
    ∷ 115 ∷ 101 ∷ []

-- "Stream timed out"
abbrev pub stream_timed_out : Bytes
stream_timed_out =
    83 ∷ 116 ∷ 114 ∷ 101 ∷ 97 ∷ 109 ∷ 32 ∷ 116 ∷ 105 ∷ 109 ∷ 101 ∷ 100 ∷ 32 ∷ 111 ∷ 117 ∷ 116 ∷ []

-- What the application is told of a stream that the peer has closed.
unfoldable pub end_event : RequestId → P2PRequest → Option P2PEvent
end_event id req =
    if Request.multiple_responses req
    then Option.map (λ k. response id (stream_termination k)) (Request.termination_of req)
    else some (error id (custom stream_closed_early))

module _ {t : Transport} where
  abbrev pub drop_stream : RequestId → t.Key → P2PHandler t → Option (P2PHandler t)
  drop_stream id key h = do
    delays ← t.remove_delay key h.outbound_substreams_delay
    some (record h {
      outbound_substreams_delay = delays;
      outbound_substreams = erase id h.outbound_substreams;
    })

  abbrev pub keep_stream : RequestId → OutboundState t → t.Key → P2PHandler t → P2PHandler t
  keep_stream id st key h = record h {
    outbound_substreams = insert id (st, key) h.outbound_substreams;
  }

  -- A response, which ends the stream unless the request has more of them.
  unfoldable pub take_answer :
      RequestId
      → P2PRequest
      → t.Key
      → P2PErrorResponse
      → t.Out
      → P2PHandler t
      → Option (P2PHandler t)
  take_answer id req key resp substream h =
      if Request.multiple_responses req && not (is_error resp)
      then (do
        delays ← t.reset_delay key h.outbound_substreams_delay
        some (record (keep_stream id (pending_response substream req) key h) {
          outbound_substreams_delay = delays;
        }))
      else some (keep_stream id (closing_out substream) key h)

  unfoldable pub drive_response :
      RequestId → P2PRequest → t.Key → OutPoll t.Out → P2PHandler t → Stage t
  drive_response id req key (answer resp substream) h = do
    h' ← take_answer id req key resp substream h
    some (h', some (report (response id resp)))
  drive_response id req key ended h = do
    e ← end_event id req
    h' ← drop_stream id key h
    some (h', some (report e))
  drive_response id req key (silent substream) h =
      some (keep_stream id (pending_response substream req) key h, none)
  drive_response id req key (out_failed e) h = do
    h' ← drop_stream id key h
    some (h', some (report (error id e)))

  unfoldable pub drive_closing : ℕ → RequestId → t.Key → Option t.Out → P2PHandler t → Stage t
  drive_closing now id key none h = do h' ← drop_stream id key h; some (relax now h', none)
  drive_closing now id key (some substream) h =
      some (keep_stream id (closing_out substream) key h, none)

  unfoldable pub drive_state_out : ℕ → RequestId → t.Key → OutboundState t → P2PHandler t → Stage t
  drive_state_out now id key (pending_response substream req) h =
      drive_response id req key (t.poll_out substream) h
  drive_state_out now id key (closing_out substream) h =
      drive_closing now id key (t.close_out substream) h
  drive_state_out now id key poisoned_out h = none

  unfoldable pub drive_outbound : ℕ → RequestId → P2PHandler t → Stage t
  drive_outbound now id h = do
    entry ← lookup id h.outbound_substreams
    drive_state_out now id entry.1 entry.0 h

  unfoldable pub drive_all_outbound : ℕ → List RequestId → P2PHandler t → Stage t
  drive_all_outbound now [] h = some (h, none)
  drive_all_outbound now (id ∷ ids) h = drive_outbound now id h >>> drive_all_outbound now ids

  -- An outbound stream that has timed out
  unfoldable pub purge_outbound : Expiry × t.Delays → P2PHandler t → Stage t
  purge_outbound (waiting, delays) h = some (record h { outbound_substreams_delay = delays }, none)
  purge_outbound (timer_failed, delays) h =
      some (record h { outbound_substreams_delay = delays }, some poll_failed)
  purge_outbound (expired id, delays) h = some (
    record h {
      outbound_substreams_delay = delays;
      outbound_substreams = erase id h.outbound_substreams;
    },
    some (report (error id (custom stream_timed_out))),
  )

  -- A request that waits for a stream, when fewer than the allowed number are opened.
  unfoldable pub dial : List P2PEvent → P2PHandler t → P2PHandler t × PollResult
  dial [] h = (h, not_ready)
  dial (e ∷ es) h =
      if ltb h.dial_negotiated h.max_dial_negotiated
      then dial_event e
          (record h { dial_negotiated = (h.dial_negotiated + 1) % 2 ^ 32; dial_queue = es })
      else (h, not_ready)
    where
      dial_event : P2PEvent → P2PHandler t → P2PHandler t × PollResult
      dial_event (request id req) h = (h, open_substream id req)
      dial_event (response _ _) h = (h, not_ready)
      dial_event (error _ _) h = (h, not_ready)
