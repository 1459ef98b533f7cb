-- ===== src/Network/Substreams/Invariant.antt =====
-- What every call of network/src/p2p/handler.rs keeps: one entry for each stream, none of them poisoned,
-- with its delay in the queue of the delays, and inbound ids below the next one.
pub mod Inbound
pub mod Driving
pub mod Polling
pub mod Calls
pub mod Outbound
pub mod Expiry
use ori.Base.{
  ℕ, zero, suc, ◌≡◌, refl, ◌<◌, ◌∙◌, Bool, true, false, ◌&&◌, Option, none, some, List, [], ◌∷◌,
  ltb, Distinct, has, ◌==◌, arith,
}
use ori.Base.Dict.{Dict, keys, lookup, insert, erase}
use ori.Base.Every.{Every}
use ori.Network.Message.{P2PEvent, P2PErrorResponse, RequestId}
use ori.Network.Substreams.Inbound.{remove_key}
use ori.Network.Substreams.{
  Transport, InboundState, pending_send, response_idle, closing_in, poisoned_in, OutboundState,
  pending_response, closing_out, poisoned_out, P2PHandler, new_handler, PollResult, open_substream,
  Stage, ◌>>>◌,
}

abbrev pub is_sound_in : {t : Transport} → InboundState t → Bool
is_sound_in poisoned_in = false
is_sound_in _ = true

abbrev pub is_sound_out : {t : Transport} → OutboundState t → Bool
is_sound_out poisoned_out = false
is_sound_out _ = true

-- The result of a poll opens a stream.
abbrev pub is_opening : Option PollResult → Bool
is_opening (some (open_substream _ _)) = true
is_opening _ = false

pub record SteadyOf (next next' dials dials' most most' : ℕ) (queue queue' : List P2PEvent)
    : Type 0 where
  pub same_next : next' ≡ next
  pub same_dials : dials' ≡ dials
  pub same_most : most' ≡ most
  pub same_queue : queue' ≡ queue

pub record GoodOf (Kept Left : Type 0) (r : Option PollResult) : Type 0 where
  pub inv : Kept
  pub steady : Left
  pub opens_none : is_opening r ≡ false

module _ (t : Transport) where
  -- The delay of a stream, if it has one, is in its queue.
  abbrev pub key_held : ℕ → Option t.Key → t.Delays → Bool
  key_held id none d = true
  key_held id (some k) d = t.holds k id d

  -- Another queue of delays that has what this one has, but for the streams of one id
  abbrev pub Frame : ℕ → t.Delays → t.Delays → Type 0
  Frame id d d' =
      (m : t.Key) (j : ℕ) → (j == id) ≡ false → t.holds m j d ≡ true → t.holds m j d' ≡ true

  pub remove_key-some :
      (key : Option t.Key) (id : ℕ) (d : t.Delays)
      → key_held id key d ≡ true
      → (d' : t.Delays) × (remove_key t key d ≡ some d') × Frame id d d'
  remove_key-some none id d held = (d, refl, λ m j ne ok. ok)
  remove_key-some (some k) id d held = t.remove-some k id d held

module _ {t : Transport} where
  abbrev pub inbound_ok : ℕ → t.Delays → ℕ → InboundState t × Option t.Key → Bool
  inbound_ok next d id entry =
      ltb 0 id && ltb id next && is_sound_in entry.0 && key_held t id entry.1 d

  abbrev pub outbound_ok : t.Delays → ℕ → OutboundState t × t.Key → Bool
  outbound_ok d id entry = is_sound_out entry.0 && t.holds entry.1 id d

  pub record InvOf (inbound : Dict (InboundState t × Option t.Key))
      (outbound : Dict (OutboundState t × t.Key)) (queues : Dict (List P2PErrorResponse))
      (inbound_delays outbound_delays : t.Delays) (next : RequestId) : Type 0 where
    pub inbound_keys : Distinct (keys inbound)
    pub outbound_keys : Distinct (keys outbound)
    pub queue_keys : Distinct (keys queues)
    pub inbound_sound : Every (inbound_ok next inbound_delays) inbound
    pub outbound_sound : Every (outbound_ok outbound_delays) outbound
    pub next_positive : 0 < next

  abbrev pub Inv : P2PHandler t → Type 0
  Inv h =
      InvOf h.inbound_substreams h.outbound_substreams h.queued_outbound_items
        h.inbound_substreams_delay h.outbound_substreams_delay h.current_inbound_substream_id

  pub inbound_ok-Frame :
      (next id : ℕ) (d d' : t.Delays)
      → Frame t id d d'
      → (j : ℕ) (entry : InboundState t × Option t.Key) → (j == id) ≡ false
      → inbound_ok next d j entry ≡ true
      → inbound_ok next d' j entry ≡ true
  inbound_ok-Frame next id d d' f j (st, none) ne ok = ground (arith, ok)
  inbound_ok-Frame next id d d' f j (st, some k) ne ok =
      ground (arith, ok, f k j ne (ground (arith, ok)))

  pub outbound_ok-Frame :
      (id : ℕ) (d d' : t.Delays)
      → Frame t id d d'
      → (j : ℕ) (entry : OutboundState t × t.Key) → (j == id) ≡ false
      → outbound_ok d j entry ≡ true
      → outbound_ok d' j entry ≡ true
  outbound_ok-Frame id d d' f j (st, k) ne ok = ground (arith, ok, f k j ne (ground (arith, ok)))

  pub inbound_ok_mono :
      (next : ℕ) (d d' : t.Delays)
      → ((m : t.Key) (j : ℕ) → t.holds m j d ≡ true → t.holds m j d' ≡ true)
      → (j : ℕ) (entry : InboundState t × Option t.Key) → inbound_ok next d j entry ≡ true
      → inbound_ok next d' j entry ≡ true
  inbound_ok_mono next d d' f j (st, none) ok = ground (arith, ok)
  inbound_ok_mono next d d' f j (st, some k) ok = ground (arith, ok, f k j (ground (arith, ok)))

  pub outbound_ok_mono :
      (d d' : t.Delays)
      → ((m : t.Key) (j : ℕ) → t.holds m j d ≡ true → t.holds m j d' ≡ true)
      → (j : ℕ) (entry : OutboundState t × t.Key) → outbound_ok d j entry ≡ true
      → outbound_ok d' j entry ≡ true
  outbound_ok_mono d d' f j (st, k) ok = ground (arith, ok, f k j (ground (arith, ok)))

  -- What a poll leaves alone until it opens a stream.
  abbrev pub Steady : P2PHandler t → P2PHandler t → Type 0
  Steady h h' =
      SteadyOf h.current_inbound_substream_id h'.current_inbound_substream_id h.dial_negotiated
        h'.dial_negotiated h.max_dial_negotiated h'.max_dial_negotiated h.dial_queue h'.dial_queue

  pub Steady-refl : (h : P2PHandler t) → Steady h h
  Steady-refl h = record {
    same_next = refl;
    same_dials = refl;
    same_most = refl;
    same_queue = refl;
  }

  pub Steady-trans : (a b c : P2PHandler t) → Steady a b → Steady b c → Steady a c
  Steady-trans a b c x y = record {
    same_next = y.same_next ∙ x.same_next;
    same_dials = y.same_dials ∙ x.same_dials;
    same_most = y.same_most ∙ x.same_most;
    same_queue = y.same_queue ∙ x.same_queue;
  }

  -- A part of a poll ends, without a panic, in a handler and a result with `P`.
  abbrev pub Ends : (P2PHandler t → Option PollResult → Type 0) → Stage t → Type 0
  Ends P none = ⊥
  Ends P (some (h, r)) = P h r

  abbrev pub Good : P2PHandler t → P2PHandler t → Option PollResult → Type 0
  Good h h' r = GoodOf (Inv h') (Steady h h') r

  -- A handler that differs in what the invariant does not read
  pub Good-refl :
      (h : P2PHandler t) (r : Option PollResult) → Inv h → is_opening r ≡ false → Good h h r
  Good-refl h r v o = record { inv = v; steady = Steady-refl h; opens_none = o }

  pub Good-trans :
      (a b c : P2PHandler t) (r : Option PollResult) → Steady a b → Good b c r → Good a c r
  Good-trans a b c r x y = record {
    inv = y.inv;
    steady = Steady-trans a b c x y.steady;
    opens_none = y.opens_none;
  }

  pub Ends-some :
      (P : P2PHandler t → Option PollResult → Type 0) (s : Stage t)
      → Ends P s
      → (h : P2PHandler t) × (r : Option PollResult) × (s ≡ some (h, r)) × P h r
  Ends-some P none e = absurd e
  Ends-some P (some (h, r)) e = (h, r, refl, e)

  pub Ends-mono :
      (P Q : P2PHandler t → Option PollResult → Type 0) (s : Stage t)
      → ((h : P2PHandler t) (r : Option PollResult) → P h r → Q h r)
      → Ends P s
      → Ends Q s
  Ends-mono P Q none f e = e
  Ends-mono P Q (some (h, r)) f e = f h r e

  pub Ends->>> :
      (P Q : P2PHandler t → Option PollResult → Type 0) (s : Stage t) (k : P2PHandler t → Stage t)
      → Ends P s
      → ((h : P2PHandler t) (r : Option PollResult) → P h r → Q h r)
      → ((h : P2PHandler t) → P h none → Ends Q (k h))
      → Ends Q (s >>> k)
  Ends->>> P Q none k e f g = e
  Ends->>> P Q (some (h, none)) k e f g = g h e
  Ends->>> P Q (some (h, some r)) k e f g = f h (some r) e

  pub new_handler-Inv : (inactive_timeout : ℕ) → Inv (new_handler t inactive_timeout)
  unfolding new_handler
  new_handler-Inv inactive_timeout = record {
    inbound_keys = tt;
    outbound_keys = tt;
    queue_keys = tt;
    inbound_sound = tt;
    outbound_sound = tt;
    next_positive = omega arith;
  }
