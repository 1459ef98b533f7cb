-- ===== src/Network/Substreams.antt =====
-- `P2PHandler` of network/src/p2p/handler.rs: the streams of one connection, each with one request and
-- its responses. libp2p's framed streams and tokio's delay queues are the parameter `Transport`. The
-- time is an argument of each call.
pub mod Inbound
pub mod Outbound
pub mod Poll
pub mod Calls
pub mod Invariant
pub mod Order
pub mod Dials
pub mod Requests
use ori.Base.{
  ◌≡◌, ◌==◌, not, false, ℕ, Bool, true, Option, none, some, List, [], ◌∷◌, ◌+◌, ◌%◌, ◌^◌, length,
}
use ori.Base.Dict.{Dict}
use ori.Types.Hash.{Bytes}
use ori.Network.Message.{P2PRequest, P2PErrorResponse, P2PEvent, P2PError, RequestId}

-- What a poll of the sending of a response gives.
pub data SendPoll (In Sending : Type 0) : Type 0 where
  sent : In → SendPoll In Sending
  unsent : Sending → SendPoll In Sending
  send_failed : P2PError → SendPoll In Sending

-- What a poll of a stream that awaits responses gives.
pub data OutPoll (Out : Type 0) : Type 0 where
  answer : P2PErrorResponse → Out → OutPoll Out
  ended : OutPoll Out
  silent : Out → OutPoll Out
  out_failed : P2PError → OutPoll Out

-- What a poll of a delay queue gives.
pub data Expiry : Type 0 where
  waiting : Expiry
  expired : RequestId → Expiry
  timer_failed : Expiry

-- An entry with this value stays in a queue whose poll gives this.
abbrev pub passes : Expiry → RequestId → Bool
passes waiting j = true
passes (expired id) j = not (j == id)
passes timer_failed j = true

pub record Transport : Type 1 where
  -- `InboundFramed`, its `Send` future, `OutboundFramed`, `DelayQueue` and its keys
  pub In : Type 0
  pub Sending : Type 0
  pub Out : Type 0
  pub Delays : Type 0
  pub Key : Type 0
  -- whether the peer has closed the stream
  pub poll_in : In → Bool × In
  pub send : In → P2PErrorResponse → Sending
  pub poll_send : Sending → SendPoll In Sending
  -- `none` when it is closed, also by an error
  pub close_in : In → Option In
  pub poll_out : Out → OutPoll Out
  pub close_out : Out → Option Out
  pub no_delays : Delays
  pub insert_delay : RequestId → Delays → Key × Delays
  -- `none` is the panic on a key that the queue does not have
  pub remove_delay : Key → Delays → Option Delays
  pub reset_delay : Key → Delays → Option Delays
  pub poll_delays : Delays → Expiry × Delays
  pub delays_len : Delays → ℕ
  -- whether the queue has the key, with this value
  pub holds : Key → RequestId → Delays → Bool
  pub insert-holds :
      (id : RequestId) (d : Delays) → let (k, d') = insert_delay id d in holds k id d' ≡ true
  pub insert-keeps :
      (id : RequestId) (d : Delays) (m : Key) (j : RequestId)
      → holds m j d ≡ true
      → let (k, d') = insert_delay id d in holds m j d' ≡ true
  pub remove-some :
      (k : Key) (id : RequestId) (d : Delays)
      → holds k id d ≡ true
      → (d' : Delays) × (remove_delay k d ≡ some d')
        × ((m : Key) (j : RequestId) → (j == id) ≡ false → holds m j d ≡ true → holds m j d' ≡ true)
  pub reset-some :
      (k : Key) (id : RequestId) (d : Delays)
      → holds k id d ≡ true
      → (d' : Delays) × (reset_delay k d ≡ some d')
        × ((m : Key) (j : RequestId) → holds m j d ≡ true → holds m j d' ≡ true)
  pub poll-keeps :
      (d : Delays) (m : Key) (j : RequestId)
      → holds m j d ≡ true
      → let (e, d') = poll_delays d in passes e j ≡ true → holds m j d' ≡ true

pub data KeepAlive : Type 0 where
  yes_keep : KeepAlive
  until : ℕ → KeepAlive

-- `ProtocolsHandlerUpgrErr`
pub data UpgradeError : Type 0 where
  timeout timer : UpgradeError
  apply : P2PError → UpgradeError
  -- with the text that the error prints
  select : Bytes → UpgradeError

pub data InboundState (t : Transport) : Type 0 where
  pending_send : t.Sending → Bool → InboundState t
  response_idle : t.In → InboundState t
  closing_in : t.In → InboundState t
  poisoned_in : InboundState t

pub data OutboundState (t : Transport) : Type 0 where
  pending_response : t.Out → P2PRequest → OutboundState t
  closing_out : t.Out → OutboundState t
  poisoned_out : OutboundState t

-- `pending_error` has its last element first.
pub record P2PHandler (t : Transport) : Type 0 where
  pub pending_error : List (RequestId × UpgradeError)
  pub events_out : List P2PEvent
  pub dial_queue : List P2PEvent
  pub dial_negotiated : ℕ
  pub inbound_substreams : Dict (InboundState t × Option t.Key)
  pub inbound_substreams_delay : t.Delays
  pub outbound_substreams : Dict (OutboundState t × t.Key)
  pub outbound_substreams_delay : t.Delays
  pub queued_outbound_items : Dict (List P2PErrorResponse)
  pub current_inbound_substream_id : RequestId
  pub max_dial_negotiated : ℕ
  pub keep_alive : KeepAlive
  pub inactive_timeout : ℕ
  pub outbound_io_error_retries : ℕ

abbrev pub io_error_retries : ℕ
io_error_retries = 3

unfoldable pub new_handler : (t : Transport) → ℕ → P2PHandler t
new_handler t inactive_timeout = record {
  pending_error = [];
  events_out = [];
  dial_queue = [];
  dial_negotiated = 0;
  queued_outbound_items = [];
  inbound_substreams = [];
  outbound_substreams = [];
  inbound_substreams_delay = t.no_delays;
  outbound_substreams_delay = t.no_delays;
  current_inbound_substream_id = 1;
  max_dial_negotiated = 8;
  keep_alive = yes_keep;
  inactive_timeout = inactive_timeout;
  outbound_io_error_retries = 0;
}

-- What a poll of the handler gives.
pub data PollResult : Type 0 where
  report : P2PEvent → PollResult
  open_substream : RequestId → P2PRequest → PollResult
  not_ready : PollResult
  poll_failed : PollResult

-- The handler after a part of a poll, and the result if the poll returns in it; `none` is a panic.
abbrev pub Stage : Transport → Type 0
Stage t = Option (P2PHandler t × Option PollResult)

infixl 5 ◌>>>◌
abbrev pub ◌>>>◌ : {t : Transport} → Stage t → (P2PHandler t → Stage t) → Stage t
none >>> k = none
some (h, some r) >>> k = some (h, some r)
some (h, none) >>> k = k h
