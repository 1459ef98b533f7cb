-- ===== src/Network/Substreams/Order.antt =====
-- The order of the responses on an inbound stream of network/src/p2p/handler.rs.
use ori.Base.{
  ◌≡◌, refl, sym, ◌⊎◌, inl, inr, Bool, true, false, Option, none, some, List, [], ◌∷◌, ◌++◌,
  if◌then◌else◌, Bool-cases,
}
use mathlib.Core.List.{append_assoc, append-nil}
use ori.Network.Message.{
  P2PErrorResponse, success, invalid_request, server_error, unknown, stream_termination,
  ResponseTermination, multiple_responses,
}
use ori.Network.Substreams.{
  Transport, SendPoll, sent, unsent, send_failed, InboundState, pending_send, response_idle,
  closing_in, poisoned_in,
}
use ori.Network.Substreams.Inbound.{
  Driven, keeps, breaks, finishes, apply_queued_responses, drive_send, drive_close, drive_state,
  queue_of,
}
use ori.Network.Substreams.Calls.{respond_idle, respond}
use ori.Network.Substreams.Invariant.{is_sound_in}

-- What libp2p's sinks promise: the responses that a stream has been given, in their order, and that a
-- send adds one, which is on the stream when the sending is done.
pub record Sinks (t : Transport) : Type 0 where
  pub written : t.In → List P2PErrorResponse
  pub writing : t.Sending → List P2PErrorResponse
  pub writing-send :
      (s : t.In) (r : P2PErrorResponse) → writing (t.send s r) ≡ written s ++ (r ∷ [])
  pub written-sent : (x : t.Sending) (s : t.In) → t.poll_send x ≡ sent s → written s ≡ writing x
  pub writing-unsent : (x y : t.Sending) → t.poll_send x ≡ unsent y → writing y ≡ writing x
  pub written-close : (s s' : t.In) → t.close_in s ≡ some s' → written s' ≡ written s

module _ {t : Transport} (w : Sinks t) where
  abbrev pub on_wire : InboundState t → List P2PErrorResponse
  on_wire (pending_send x closing) = w.writing x
  on_wire (response_idle s) = w.written s
  on_wire (closing_in s) = w.written s
  on_wire poisoned_in = []

  -- The responses of a stream: those that it has been given, then those that wait.
  abbrev pub log : InboundState t → Option (List P2PErrorResponse) → List P2PErrorResponse
  log st queue = on_wire st ++ queue_of queue

  -- A stream that goes on has the same responses, or has taken a termination off its queue to close.
  abbrev pub Follows : List P2PErrorResponse → Driven t → Type 0
  Follows responses (keeps (closing_in s) queue again) =
      (w.written s ++ queue_of queue ≡ responses)
      ⊎ ((k : ResponseTermination) × (responses
            ≡ w.written s ++ (stream_termination k ∷ queue_of queue)))
  Follows responses (keeps st queue again) = log st queue ≡ responses
  Follows responses (breaks e) = Unit
  Follows responses finishes = Unit

  send-log :
      (s : t.In) (r : P2PErrorResponse) (queue : List P2PErrorResponse)
      → w.writing (t.send s r) ++ queue ≡ w.written s ++ (r ∷ queue)
  send-log s r queue = rw (w.writing-send s r) (append_assoc (w.written s) (r ∷ []) queue)

  apply_queued_responses-Follows :
      (s : t.In) (queue : Option (List P2PErrorResponse))
      → Follows (w.written s ++ queue_of queue) (apply_queued_responses s queue)
  unfolding apply_queued_responses
  apply_queued_responses-Follows s none = refl
  apply_queued_responses-Follows s (some []) = refl
  apply_queued_responses-Follows s (some (success x ∷ queue)) = send-log s (success x) queue
  apply_queued_responses-Follows s (some (invalid_request x ∷ queue)) =
      send-log s (invalid_request x) queue
  apply_queued_responses-Follows s (some (server_error x ∷ queue)) =
      send-log s (server_error x) queue
  apply_queued_responses-Follows s (some (unknown x ∷ queue)) = send-log s (unknown x) queue
  apply_queued_responses-Follows s (some (stream_termination k ∷ queue)) = inr (k, refl)

  drive_send-Follows :
      (closing : Bool) (queue : Option (List P2PErrorResponse)) (x : t.Sending)
      (p : SendPoll t.In t.Sending)
      → t.poll_send x ≡ p
      → Follows (w.writing x ++ queue_of queue) (drive_send closing queue p)
  unfolding drive_send
  drive_send-Follows true queue x (sent s) e = inl (rw (w.written-sent x s e) refl)
  drive_send-Follows false queue x (sent s) e =
      rw (sym (w.written-sent x s e)) (apply_queued_responses-Follows s queue)
  drive_send-Follows closing queue x (unsent y) e = rw (w.writing-unsent x y e) refl
  drive_send-Follows closing queue x (send_failed err) e = tt

  drive_close-Follows :
      (queue : Option (List P2PErrorResponse)) (s : t.In) (p : Option t.In)
      → t.close_in s ≡ p
      → Follows (w.written s ++ queue_of queue) (drive_close queue p)
  unfolding drive_close
  drive_close-Follows queue s none e = tt
  drive_close-Follows queue s (some s') e = inl (rw (w.written-close s s' e) refl)

  -- A look at an inbound stream that is not poisoned never panics. It loses, repeats and reorders no
  -- response: those on the wire followed by those in the queue are the same after it, unless it took a
  -- termination off the queue and closes the stream, or the stream has ended or failed.
  pub drive_state-Follows :
      (st : InboundState t) (queue : Option (List P2PErrorResponse))
      → is_sound_in st ≡ true
      → (d : Driven t) × (drive_state st queue ≡ some d) × Follows (log st queue) d
  unfolding drive_state
  drive_state-Follows (pending_send x closing) queue e =
      (_, refl, drive_send-Follows closing queue x (t.poll_send x) refl)
  drive_state-Follows (response_idle s) queue e = (_, refl, apply_queued_responses-Follows s queue)
  drive_state-Follows (closing_in s) queue e =
      (_, refl, drive_close-Follows queue s (t.close_in s) refl)
  drive_state-Follows poisoned_in queue e = cc

  -- A stream takes a response: an idle one does unless it is a termination, a busy one if the response
  -- is one of several.
  abbrev pub takes : P2PErrorResponse → InboundState t → Bool
  takes (stream_termination _) (response_idle _) = false
  takes resp (response_idle _) = true
  takes resp (pending_send _ _) = multiple_responses resp
  takes resp (closing_in _) = false
  takes resp poisoned_in = false

  -- An idle stream has nothing in its queue.
  abbrev pub Calm : InboundState t → Option (List P2PErrorResponse) → Type 0
  Calm (response_idle _) queue = queue_of queue ≡ []
  Calm _ queue = Unit

  idle_send-log :
      (resp : P2PErrorResponse) (s : t.In) (queue : Option (List P2PErrorResponse))
      → queue_of queue ≡ []
      → w.writing (t.send s resp) ++ queue_of queue ≡ w.written s ++ queue_of queue ++ (resp ∷ [])
  idle_send-log resp s queue e =
      rw
        (e, append-nil (w.written s), append-nil (w.writing (t.send s resp)), w.writing-send s resp)
        refl

  idle-log :
      (resp : P2PErrorResponse) (s : t.In) (queue : Option (List P2PErrorResponse))
      → queue_of queue ≡ []
      → log (respond_idle resp s) queue ≡ (
          if takes resp (response_idle s)
          then w.written s ++ queue_of queue ++ (resp ∷ [])
          else w.written s ++ queue_of queue)
  unfolding respond_idle
  idle-log (success x) s queue e = idle_send-log (success x) s queue e
  idle-log (invalid_request x) s queue e = idle_send-log (invalid_request x) s queue e
  idle-log (server_error x) s queue e = idle_send-log (server_error x) s queue e
  idle-log (unknown x) s queue e = idle_send-log (unknown x) s queue e
  idle-log (stream_termination k) s queue e = refl

  idle-Calm :
      (resp : P2PErrorResponse) (s : t.In) (queue : Option (List P2PErrorResponse))
      → Calm (respond_idle resp s) queue
  unfolding respond_idle
  idle-Calm (success x) s queue = tt
  idle-Calm (invalid_request x) s queue = tt
  idle-Calm (server_error x) s queue = tt
  idle-Calm (unknown x) s queue = tt
  idle-Calm (stream_termination k) s queue = tt

  busy-log :
      (resp : P2PErrorResponse) (x : t.Sending) (closing : Bool)
      (queue : Option (List P2PErrorResponse))
      → (a : InboundState t × Option (List P2PErrorResponse)) × (respond resp
            (pending_send x closing)
            queue
          ≡ some a)
        × (log a.0 a.1 ≡ (
            if multiple_responses resp
            then w.writing x ++ queue_of queue ++ (resp ∷ [])
            else w.writing x ++ queue_of queue))
        × Calm a.0 a.1
  unfolding respond
  busy-log resp x closing queue = elim (Bool-cases (multiple_responses resp)) [
    | inl e ↦ (
      (pending_send x closing, some (queue_of queue ++ (resp ∷ []))),
      rw e refl,
      rw e (sym (append_assoc (w.writing x) (queue_of queue) (resp ∷ []))),
      tt,
    )
    | inr e ↦ ((pending_send x true, queue), rw e refl, rw e refl, tt)
  ]

  -- A response that the application gives an inbound stream, which is not poisoned and, if it is idle,
  -- has nothing queued, never panics. The responses of the stream have it as their last one, behind
  -- those that wait, if the stream takes it; else they are left as they were.
  pub respond-log :
      (resp : P2PErrorResponse) (st : InboundState t) (queue : Option (List P2PErrorResponse))
      → is_sound_in st ≡ true
      → Calm st queue
      → (a : InboundState t × Option (List P2PErrorResponse)) × (respond resp st queue ≡ some a)
        × (log a.0 a.1 ≡ (if takes resp st then log st queue ++ (resp ∷ []) else log st queue))
        × Calm a.0 a.1
  unfolding respond
  respond-log resp (response_idle s) queue e c =
      ((respond_idle resp s, queue), refl, idle-log resp s queue c, idle-Calm resp s queue)
  respond-log resp (pending_send x closing) queue e c = busy-log resp x closing queue
  respond-log resp (closing_in s) queue e c = ((closing_in s, queue), refl, refl, tt)
  respond-log resp poisoned_in queue e c = cc
