-- ===== src/Network/Substreams/Inbound.antt =====
-- The inbound streams of network/src/p2p/handler.rs: a stream that has timed out, and the streams that
-- a poll drives on.
use ori.Base.{
  ℕ, zero, suc, Bool, true, false, ◌&&◌, Option, none, some, List, [], ◌∷◌, ◌++◌, ◌+◌, length,
  if◌then◌else◌, ◌>>=◌,
}
use ori.Base.Dict.{Dict, lookup, insert, erase}
use ori.Types.Hash.{Bytes}
use ori.Network.Message.{
  P2PErrorResponse, server_error, stream_termination, by_range, error, P2PError, RequestId,
}
use ori.Network.Substreams.{
  Transport, SendPoll, sent, unsent, send_failed, Expiry, waiting, expired, timer_failed, until,
  InboundState, pending_send, response_idle, closing_in, poisoned_in, P2PHandler, PollResult,
  report, poll_failed, Stage, ◌>>>◌,
}

-- "Request timed out"
abbrev pub request_timed_out : Bytes
request_timed_out =
    82 ∷ 101 ∷ 113 ∷ 117 ∷ 101 ∷ 115 ∷ 116 ∷ 32 ∷ 116 ∷ 105 ∷ 109 ∷ 101 ∷ 100 ∷ 32 ∷ 111 ∷ 117 ∷ 116
    ∷ []

-- What closing an idle stream does after the poll that asks whether the peer has closed it.
unfoldable pub close_idle :
    {t : Transport} → Bool × t.In → List P2PErrorResponse → InboundState t × List P2PErrorResponse
close_idle (true, substream) queue = (closing_in substream, queue)
close_idle {t} (false, substream) queue =
    (pending_send (t.send substream (server_error request_timed_out)) true, queue)

-- `InboundSubstreamState::close`, with the queue
unfoldable pub close :
    {t : Transport}
    → InboundState t
    → List P2PErrorResponse
    → Option (InboundState t × List P2PErrorResponse)
close (pending_send substream true) queue = some (pending_send substream true, queue)
close (pending_send substream false) queue = some (
  pending_send substream false,
  queue ++ (server_error request_timed_out ∷ stream_termination by_range ∷ []),
)
close {t} (response_idle substream) queue = some (close_idle (t.poll_in substream) queue)
close (closing_in substream) queue = some (closing_in substream, queue)
close poisoned_in queue = none

-- What a look at an inbound stream comes to: its new state and queue, with whether another look is
-- due, or the end of the stream.
pub data Driven (t : Transport) : Type 0 where
  keeps : InboundState t → Option (List P2PErrorResponse) → Bool → Driven t
  breaks : P2PError → Driven t
  finishes : Driven t

abbrev pub remove_key : (t : Transport) → Option t.Key → t.Delays → Option t.Delays
remove_key t none d = some d
remove_key t (some k) d = t.remove_delay k d

abbrev pub put_queue :
    RequestId
    → Option (List P2PErrorResponse)
    → Dict (List P2PErrorResponse)
    → Dict (List P2PErrorResponse)
put_queue id none d = d
put_queue id (some queue) d = insert id queue d

abbrev pub is_empty {ℓ} : {A : Type ℓ} → List A → Bool
is_empty [] = true
is_empty (_ ∷ _) = false

-- The queue of a stream, which is made when there is none.
abbrev pub queue_of : Option (List P2PErrorResponse) → List P2PErrorResponse
queue_of none = []
queue_of (some queue) = queue

abbrev pub queue_length : Option (List P2PErrorResponse) → ℕ
queue_length none = 0
queue_length (some queue) = length queue

module _ {t : Transport} where
  -- `apply_queued_responses`
  unfoldable pub apply_queued_responses : t.In → Option (List P2PErrorResponse) → Driven t
  apply_queued_responses raw_substream none = keeps (response_idle raw_substream) none false
  apply_queued_responses raw_substream (some []) =
      keeps (response_idle raw_substream) (some []) false
  apply_queued_responses raw_substream (some (stream_termination _ ∷ queue)) =
      keeps (closing_in raw_substream) (some queue) true
  apply_queued_responses raw_substream (some (chunk ∷ queue)) =
      keeps (pending_send (t.send raw_substream chunk) false) (some queue) true

  -- What becomes of a stream after a poll of its sending.
  unfoldable pub drive_send :
      Bool → Option (List P2PErrorResponse) → SendPoll t.In t.Sending → Driven t
  drive_send true queue (sent raw_substream) = keeps (closing_in raw_substream) queue false
  drive_send false queue (sent raw_substream) = apply_queued_responses raw_substream queue
  drive_send closing queue (unsent substream) = keeps (pending_send substream closing) queue false
  drive_send closing queue (send_failed e) = breaks e

  unfoldable pub drive_close : Option (List P2PErrorResponse) → Option t.In → Driven t
  drive_close queue none = finishes
  drive_close queue (some substream) = keeps (closing_in substream) queue false

  unfoldable pub drive_state : InboundState t → Option (List P2PErrorResponse) → Option (Driven t)
  drive_state (pending_send substream closing) queue =
      some (drive_send closing queue (t.poll_send substream))
  drive_state (response_idle substream) queue = some (apply_queued_responses substream queue)
  drive_state (closing_in substream) queue = some (drive_close queue (t.close_in substream))
  drive_state poisoned_in queue = none

  -- The keep-alive after a stream is gone: a deadline when it was the last one.
  abbrev pub relax : ℕ → P2PHandler t → P2PHandler t
  relax now h = record h {
    keep_alive =
        if is_empty h.outbound_substreams && is_empty h.inbound_substreams
        then until (now + h.inactive_timeout)
        else h.keep_alive;
  }

  -- The handler after a look at a stream, the result of the poll if it returns, and whether another
  -- look is due; `none` is the panic on a delay that is not in its queue.
  unfoldable pub settle :
      ℕ
      → RequestId
      → Option t.Key
      → Driven t
      → P2PHandler t
      → Option (P2PHandler t × Option PollResult × Bool)
  settle now id key (keeps st queue again) h = some (
    record h {
      inbound_substreams = insert id (st, key) h.inbound_substreams;
      queued_outbound_items = put_queue id queue h.queued_outbound_items;
    },
    none,
    again,
  )
  settle now id key (breaks e) h = do
    delays ← remove_key t key h.inbound_substreams_delay
    some (
      record h {
        inbound_substreams_delay = delays;
        inbound_substreams = erase id h.inbound_substreams;
      },
      some (report (error 0 e)),
      false,
    )
  settle now id key finishes h = do
    delays ← remove_key t key h.inbound_substreams_delay
    some (
      relax now (record h {
        inbound_substreams_delay = delays;
        queued_outbound_items = erase id h.queued_outbound_items;
        inbound_substreams = erase id h.inbound_substreams;
      }),
      none,
      false,
    )

  -- One look at a stream
  unfoldable pub look :
      ℕ → RequestId → P2PHandler t → Option (P2PHandler t × Option PollResult × Bool)
  look now id h = do
    (st, key) ← lookup id h.inbound_substreams
    d ← drive_state st (lookup id h.queued_outbound_items)
    settle now id key d h

  abbrev pub look_on :
      Option (P2PHandler t × Option PollResult × Bool) → (P2PHandler t → Stage t) → Stage t
  look_on none k = none
  look_on (some (h, r, true)) k = k h
  look_on (some (h, r, false)) k = some (h, r)

  -- The looks at one stream, until none is due; `none` also when the fuel ends.
  unfoldable pub drive_inbound : ℕ → ℕ → RequestId → P2PHandler t → Stage t
  drive_inbound now zero id h = none
  drive_inbound now (suc fuel) id h = look_on (look now id h) (drive_inbound now fuel id)

  unfoldable pub drive_all_inbound : ℕ → List RequestId → P2PHandler t → Stage t
  drive_all_inbound now [] h = some (h, none)
  drive_all_inbound now (id ∷ ids) h =
      drive_inbound now (suc (queue_length (lookup id h.queued_outbound_items))) id h
      >>> drive_all_inbound now ids

  -- A stream that has timed out
  unfoldable pub time_out : RequestId → P2PHandler t → Option (P2PHandler t)
  time_out id h = elim (lookup id h.inbound_substreams) [
    | none ↦ some h
    | some entry ↦ do
      (st, queue) ← close entry.0 (queue_of (lookup id h.queued_outbound_items))
      some (record h {
        inbound_substreams = insert id (st, none) h.inbound_substreams;
        queued_outbound_items = insert id queue h.queued_outbound_items;
      })
  ]

  -- What the queue of the delays says, and the rest of the loop that asks it.
  unfoldable pub after_expiry :
      Expiry × t.Delays → (P2PHandler t → Stage t) → P2PHandler t → Stage t
  after_expiry (waiting, delays) k h = some (record h { inbound_substreams_delay = delays }, none)
  after_expiry (timer_failed, delays) k h =
      some (record h { inbound_substreams_delay = delays }, some poll_failed)
  after_expiry (expired id, delays) k h = do
    h' ← time_out id (record h { inbound_substreams_delay = delays })
    k h'

  unfoldable pub purge_inbound : ℕ → P2PHandler t → Stage t
  purge_inbound zero h = none
  purge_inbound (suc fuel) h =
      after_expiry (t.poll_delays h.inbound_substreams_delay) (purge_inbound fuel) h
