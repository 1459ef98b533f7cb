-- ===== src/Examples/Handlers.antt =====
-- The theorems on the streams of a connection, over streams that are lists: an inbound stream is what
-- has been written on it, an outbound one is what the peer will say.
use ori.Base.{
  ℕ, ◌≡◌, refl, ◌+◌, ◌≤◌, ◌==◌, ◌&&◌, has, Bool, true, false, Option, none, some, List, [], ◌∷◌,
  ◌++◌, length, arith, if◌then◌else◌,
}
use ori.Network.Message.{
  P2PRequest, blocks_by_range, P2PErrorResponse, success, blocks_by_range_response, request,
  response, custom,
}
use ori.Network.Request
use ori.Network.Substreams.{
  Transport, sent, OutPoll, answer, ended, Expiry, passes, waiting, expired, InboundState,
  pending_send, P2PHandler, new_handler, PollResult, apply,
}
use ori.Network.Substreams.Inbound.{Driven, drive_state}
use ori.Network.Substreams.Calls.{
  Call, negotiated_inbound, injects, dial_fails, polls, run, respond,
  inject_fully_negotiated_inbound,
}
use ori.Network.Substreams.Invariant.{Inv, new_handler-Inv}
use ori.Network.Substreams.Invariant.Expiry.{Shrinking}
use ori.Network.Substreams.Invariant.Calls.{run-Inv}
use ori.Network.Substreams.Order.{
  Sinks, log, Follows, takes, Calm, drive_state-Follows, respond-log,
}
use ori.Network.Substreams.Dials.{opened, negotiated, free, run-opened}
use ori.Network.Substreams.Requests.{Opened, inject_fully_negotiated_inbound-Opened}

-- A queue of delays has the ids of its streams, which are the keys as well.
next_expiry : List ℕ → Expiry × List ℕ
next_expiry [] = (waiting, [])
next_expiry (id ∷ ids) = (expired id, ids)

abbrev without : ℕ → List ℕ → List ℕ
without k [] = []
without k (i ∷ is) = if k == i then is else i ∷ without k is

abbrev if_held : ℕ → List ℕ → List ℕ → Option (List ℕ)
if_held k ids rest = if has k ids then some rest else none

abbrev pub held : ℕ → ℕ → List ℕ → Bool
held k id ids = (k == id) && has k ids

has-without :
    (k m : ℕ) (ids : List ℕ) → (m == k) ≡ false → has m ids ≡ true → has m (without k ids) ≡ true
has-without k m [] ne h = cc
has-without k m (i ∷ is) ne h = ground (arith, has-without k m is)

held-insert : (id : ℕ) (ids : List ℕ) → held id id (id ∷ ids) ≡ true
held-insert id ids = ground arith

held-keep : (id : ℕ) (ids : List ℕ) (m j : ℕ) → held m j ids ≡ true → held m j (id ∷ ids) ≡ true
held-keep id ids m j h = ground (arith, h)

held-reset :
    (k id : ℕ) (ids : List ℕ)
    → held k id ids ≡ true
    → (rest : List ℕ) × (if_held k ids ids ≡ some rest)
      × ((m j : ℕ) → held m j ids ≡ true → held m j rest ≡ true)
held-reset k id ids h = (ids, ground (arith, h), λ m j own. own)

held-without :
    (k id : ℕ) (ids : List ℕ)
    → held k id ids ≡ true
    → (rest : List ℕ) × (if_held k ids (without k ids) ≡ some rest)
      × ((m j : ℕ) → (j == id) ≡ false → held m j ids ≡ true → held m j rest ≡ true)
held-without k id ids h = (
  without k ids,
  ground (arith, h),
  λ m j ne own. ground (arith, h, ne, own, has-without k m ids),
)

held-next :
    (ids : List ℕ) (m j : ℕ)
    → held m j ids ≡ true
    → let (e, rest) = next_expiry ids in passes e j ≡ true → held m j rest ≡ true
unfolding next_expiry
held-next [] m j h p = h
held-next (i ∷ is) m j h p = ground (arith, h, p)

said : List P2PErrorResponse → OutPoll (List P2PErrorResponse)
said [] = ended
said (r ∷ rs) = answer r rs

abbrev lists : Transport
lists = record {
  In = List P2PErrorResponse;
  Sending = List P2PErrorResponse;
  Out = List P2PErrorResponse;
  Delays = List ℕ;
  Key = ℕ;
  poll_in = λ s. (false, s);
  send = λ s r. s ++ (r ∷ []);
  poll_send = λ s. sent s;
  close_in = λ s. none;
  poll_out = said;
  close_out = λ s. none;
  no_delays = [];
  insert_delay = λ id ids. (id, id ∷ ids);
  remove_delay = λ k ids. if_held k ids (without k ids);
  reset_delay = λ k ids. if_held k ids ids;
  poll_delays = next_expiry;
  delays_len = λ ids. length ids;
  holds = held;
  insert-holds = held-insert;
  insert-keeps = held-keep;
  remove-some = held-without;
  reset-some = held-reset;
  poll-keeps = held-next;
}

lists-Shrinking : Shrinking lists
unfolding next_expiry
lists-Shrinking [] delays' id e = ground (arith, e)
lists-Shrinking (i ∷ is) delays' id e = ground (arith, e)

abbrev sinks : Sinks lists
sinks = record {
  written = λ s. s;
  writing = λ s. s;
  writing-send = λ s r. refl;
  written-sent = λ x s e. cc;
  writing-unsent = λ x y e. cc;
  written-close = λ s s' e. cc;
}

abbrev ask : P2PRequest
ask = blocks_by_range (record { head_block_root = 7; start_slot = 1; count = 2; step = 1 })

abbrev block_answer : P2PErrorResponse
block_answer = success (blocks_by_range_response (1 ∷ []))

-- A request is asked for, its stream cannot be opened, and a peer's request is answered.
abbrev history : List (ℕ × Call lists)
history =
    (1, injects (request 3 ask))
    ∷ (2, polls)
    ∷ (3, dial_fails (request 3 ask) (apply (custom [])))
    ∷ (4, negotiated_inbound ask [])
    ∷ (5, injects (response 1 block_answer))
    ∷ (6, polls)
    ∷ []

run-Inv_example :
    (h' : P2PHandler lists) × (rs : List PollResult) × (run history (new_handler lists 30)
      ≡ some (h', rs))
    × Inv h'
unfolding new_handler
run-Inv_example =
    run-Inv lists history (new_handler lists 30) lists-Shrinking (new_handler-Inv 30) (omega arith)

run-opened_example :
    (h' : P2PHandler lists) × (rs : List PollResult) × (run history (new_handler lists 30)
      ≡ some (h', rs))
    × (opened rs + free lists h' ≤ free lists (new_handler lists 30) + negotiated history)
unfolding new_handler
run-opened_example =
    run-opened lists history (new_handler lists 30) lists-Shrinking (new_handler-Inv 30)
      (omega arith) (omega arith) (omega arith)

drive_state-Follows_example :
    (d : Driven lists) × (drive_state (pending_send [] false) (some (block_answer ∷ [])) ≡ some d)
    × Follows sinks (log sinks (pending_send [] false) (some (block_answer ∷ []))) d
drive_state-Follows_example =
    drive_state-Follows sinks (pending_send [] false) (some (block_answer ∷ [])) refl

respond-log_example :
    (a : InboundState lists × Option (List P2PErrorResponse)) × (respond block_answer
        (pending_send [] false)
        none
      ≡ some a)
    × (log sinks a.0 a.1 ≡ (
        if takes sinks block_answer (pending_send [] false)
        then log sinks (pending_send [] false) none ++ (block_answer ∷ [])
        else log sinks (pending_send [] false) none))
    × Calm sinks a.0 a.1
respond-log_example = respond-log sinks block_answer (pending_send [] false) none refl tt

inject_fully_negotiated_inbound-Opened_example :
    Opened
      (new_handler lists 30)
      (inject_fully_negotiated_inbound 5 ask [] (new_handler lists 30))
      ask
      []
unfolding new_handler Request.expect_response
inject_fully_negotiated_inbound-Opened_example =
    inject_fully_negotiated_inbound-Opened 5 ask [] (new_handler lists 30) (new_handler-Inv 30)
      (omega arith) refl
