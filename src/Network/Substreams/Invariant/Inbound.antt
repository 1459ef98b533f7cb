-- ===== src/Network/Substreams/Invariant/Inbound.antt =====
-- The invariant through a poll's work on the inbound streams of network/src/p2p/handler.rs.
use ori.Base.{
  ℕ, suc, ◌≡◌, refl, ◌∙◌, Bool, true, false, Option, none, some, List, [], ◌∷◌, Distinct, has, ◌==◌,
  arith, length, ◌>>=◌,
}
use ori.Base.Dict.{
  Dict, keys, lookup, insert, erase, insert-Distinct, erase-Distinct, lookup-insert,
  has-keys-insert, has-keys-erase,
}
use ori.Base.Every.{Every, Every-lookup, Every-insert_others, Every-erase_others, has-keys-replace}
use ori.Network.Message.{
  P2PErrorResponse, success, invalid_request, server_error, unknown, stream_termination, error,
}
use ori.Network.Substreams.{
  Transport, SendPoll, sent, unsent, send_failed, InboundState, pending_send, response_idle,
  closing_in, poisoned_in, P2PHandler, PollResult, report,
}
use ori.Network.Substreams.Inbound.{
  Driven, keeps, breaks, finishes, apply_queued_responses, drive_send, drive_close, drive_state,
  relax, settle, queue_length, put_queue,
}
use ori.Network.Substreams.Invariant.{
  is_sound_in, key_held, Frame, remove_key-some, inbound_ok, inbound_ok-Frame, Inv, Steady-refl,
  Good,
}

module _ (t : Transport) where
  -- A stream is driven to a state that is not poisoned, and takes a response from the queue before
  -- another look.
  abbrev pub DrivenOk : Option (List P2PErrorResponse) → Driven t → Type 0
  DrivenOk queue (keeps st none true) = ⊥
  DrivenOk queue (keeps st (some queue') true) =
      (is_sound_in st ≡ true) × (suc (length queue') ≡ queue_length queue)
  DrivenOk queue (keeps st queue' false) = is_sound_in st ≡ true
  DrivenOk queue (breaks _) = Unit
  DrivenOk queue finishes = Unit

  apply_queued_responses-DrivenOk :
      (raw_substream : t.In) (queue : Option (List P2PErrorResponse))
      → DrivenOk queue (apply_queued_responses {t = t} raw_substream queue)
  unfolding apply_queued_responses
  apply_queued_responses-DrivenOk raw_substream none = refl
  apply_queued_responses-DrivenOk raw_substream (some []) = refl
  apply_queued_responses-DrivenOk raw_substream (some (success _ ∷ queue)) = (refl, refl)
  apply_queued_responses-DrivenOk raw_substream (some (invalid_request _ ∷ queue)) = (refl, refl)
  apply_queued_responses-DrivenOk raw_substream (some (server_error _ ∷ queue)) = (refl, refl)
  apply_queued_responses-DrivenOk raw_substream (some (unknown _ ∷ queue)) = (refl, refl)
  apply_queued_responses-DrivenOk raw_substream (some (stream_termination _ ∷ queue)) = (refl, refl)

  drive_send-DrivenOk :
      (closing : Bool) (queue : Option (List P2PErrorResponse)) (p : SendPoll t.In t.Sending)
      → DrivenOk queue (drive_send {t = t} closing queue p)
  unfolding drive_send
  drive_send-DrivenOk true queue (sent raw_substream) = refl
  drive_send-DrivenOk false queue (sent raw_substream) =
      apply_queued_responses-DrivenOk raw_substream queue
  drive_send-DrivenOk closing queue (unsent substream) = refl
  drive_send-DrivenOk closing queue (send_failed e) = tt

  drive_close-DrivenOk :
      (queue : Option (List P2PErrorResponse)) (p : Option t.In)
      → DrivenOk queue (drive_close {t = t} queue p)
  unfolding drive_close
  drive_close-DrivenOk queue none = tt
  drive_close-DrivenOk queue (some substream) = refl

  pub drive_state-DrivenOk :
      (st : InboundState t) (queue : Option (List P2PErrorResponse))
      → is_sound_in st ≡ true
      → (d : Driven t) × (drive_state st queue ≡ some d) × DrivenOk queue d
  unfolding drive_state
  drive_state-DrivenOk (pending_send substream closing) queue e =
      (_, refl, drive_send-DrivenOk closing queue (t.poll_send substream))
  drive_state-DrivenOk (response_idle substream) queue e =
      (_, refl, apply_queued_responses-DrivenOk substream queue)
  drive_state-DrivenOk (closing_in substream) queue e =
      (_, refl, drive_close-DrivenOk queue (t.close_in substream))
  drive_state-DrivenOk poisoned_in queue e = cc

  -- What a look at a stream leaves to the other streams, and what it promises for another look.
  pub record Looked (id : ℕ) (h h' : P2PHandler t) (r : Option PollResult) (again : Bool)
      : Type 0 where
    pub good : Good h h' r
    pub others :
        (j : ℕ)
        → (j == id) ≡ false
        → has j (keys h'.inbound_substreams) ≡ has j (keys h.inbound_substreams)
    pub shorter :
        again ≡ true
        → (has id (keys h'.inbound_substreams) ≡ true)
          × (suc (queue_length (lookup id h'.queued_outbound_items))
              ≡ queue_length (lookup id h.queued_outbound_items))

  put_queue-Distinct :
      (id : ℕ) (queue : Option (List P2PErrorResponse)) (d : Dict (List P2PErrorResponse))
      → Distinct (keys d)
      → Distinct (keys (put_queue id queue d))
  put_queue-Distinct id none d h = h
  put_queue-Distinct id (some queue) d h = insert-Distinct id queue d h

  pub keeps-Good :
      (h : P2PHandler t) (id : ℕ) (st : InboundState t) (key : Option t.Key)
      (queue : Option (List P2PErrorResponse)) (entry : InboundState t × Option t.Key)
      → Inv h
      → lookup id h.inbound_substreams ≡ some entry
      → is_sound_in st ≡ true
      → (delays : t.Delays) → key_held t id key delays ≡ true
      → Frame t id h.inbound_substreams_delay delays
      → Good h
          (record h {
            inbound_substreams_delay = delays;
            inbound_substreams = insert id (st, key) h.inbound_substreams;
            queued_outbound_items = put_queue id queue h.queued_outbound_items;
          })
          none
  keeps-Good h id st key queue entry v e sound delays held frame = record {
    inv = record {
      inbound_keys = insert-Distinct id (st, key) h.inbound_substreams v.inbound_keys;
      outbound_keys = v.outbound_keys;
      queue_keys = put_queue-Distinct id queue h.queued_outbound_items v.queue_keys;
      inbound_sound =
          Every-insert_others (inbound_ok next h.inbound_substreams_delay) (inbound_ok next delays)
            id (inbound_ok-Frame next id h.inbound_substreams_delay delays frame) (st, key)
            h.inbound_substreams ok v.inbound_keys v.inbound_sound;
      outbound_sound = v.outbound_sound;
      next_positive = v.next_positive;
    };
    steady = Steady-refl h;
    opens_none = refl;
  }
    where
      next : ℕ
      next = h.current_inbound_substream_id

      was : inbound_ok next h.inbound_substreams_delay id entry ≡ true
      was =
          Every-lookup (inbound_ok next h.inbound_substreams_delay) id entry h.inbound_substreams
            v.inbound_sound e

      ok : inbound_ok next delays id (st, key) ≡ true
      ok = ground (arith, was, sound, held)

  -- A stream that is gone
  erased-Inv :
      (h : P2PHandler t) (id : ℕ) (delays : t.Delays)
      → Inv h
      → Frame t id h.inbound_substreams_delay delays
      → Distinct (keys (erase id h.inbound_substreams))
        × Every (inbound_ok h.current_inbound_substream_id delays) (erase id h.inbound_substreams)
  erased-Inv h id delays v frame = (
    erase-Distinct id h.inbound_substreams v.inbound_keys,
    Every-erase_others (inbound_ok h.current_inbound_substream_id h.inbound_substreams_delay)
        (inbound_ok h.current_inbound_substream_id delays) id
        (inbound_ok-Frame h.current_inbound_substream_id id h.inbound_substreams_delay delays frame)
        h.inbound_substreams v.inbound_keys v.inbound_sound,
  )

  erased_others :
      (h : P2PHandler t) (id : ℕ)
      → Inv h
      → (j : ℕ) → (j == id) ≡ false
      → has j (keys (erase id h.inbound_substreams)) ≡ has j (keys h.inbound_substreams)
  erased_others h id v j ne = has-keys-erase j id h.inbound_substreams v.inbound_keys ∙ rw ne refl

  keeps-shorter :
      (st : InboundState t) (key : Option t.Key) (queue : Option (List P2PErrorResponse)) (id : ℕ)
      (again : Bool) (h : P2PHandler t) (entry : InboundState t × Option t.Key)
      → lookup id h.inbound_substreams ≡ some entry
      → DrivenOk (lookup id h.queued_outbound_items) (keeps st queue again)
      → again ≡ true
      → (has id (keys (insert id (st, key) h.inbound_substreams)) ≡ true)
        × (suc (queue_length (lookup id (put_queue id queue h.queued_outbound_items)))
            ≡ queue_length (lookup id h.queued_outbound_items))
  keeps-shorter st key none id true h entry e ok a = absurd ok
  keeps-shorter st key none id false h entry e ok a = cc
  keeps-shorter st key (some queue) id again h entry e ok a = ground (
    arith,
    has-keys-insert id id (st, key) h.inbound_substreams,
    lookup-insert id id queue h.queued_outbound_items,
  )

  keeps_sound :
      (st : InboundState t) (queue q : Option (List P2PErrorResponse)) (again : Bool)
      → DrivenOk q (keeps st queue again)
      → is_sound_in st ≡ true
  keeps_sound st none q true ok = absurd ok
  keeps_sound st (some queue) q true ok = ok.0
  keeps_sound st queue q false ok = ok

  pub settle-Looked :
      (now id : ℕ) (key : Option t.Key) (d : Driven t) (h : P2PHandler t)
      (entry : InboundState t × Option t.Key)
      → Inv h
      → lookup id h.inbound_substreams ≡ some entry
      → key_held t id key h.inbound_substreams_delay ≡ true
      → DrivenOk (lookup id h.queued_outbound_items) d
      → (h' : P2PHandler t) × (r : Option PollResult) × (again : Bool) × (settle now id key d h
          ≡ some (h', r, again))
        × Looked id h h' r again
  unfolding settle
  settle-Looked now id key (keeps st queue again) h entry v e held ok = (
    _,
    _,
    _,
    refl,
    record {
      good =
          keeps-Good h id st key queue entry v e
            (keeps_sound st queue (lookup id h.queued_outbound_items) again ok)
            h.inbound_substreams_delay held (λ m j ne x. x);
      others = λ j ne. has-keys-replace j id (st, key) entry h.inbound_substreams e;
      shorter = λ a. keeps-shorter st key queue id again h entry e ok a;
    },
  )
  settle-Looked now id key (breaks err) h entry v e held ok =
      let (delays, run, frame) = remove_key-some t key id h.inbound_substreams_delay held in
      (
        record h {
          inbound_substreams_delay = delays;
          inbound_substreams = erase id h.inbound_substreams;
        },
        some (report (error 0 err)),
        false,
        rw (settle, run, ◌>>=◌) refl,
        record {
          good = record {
            inv = record {
              inbound_keys = (erased-Inv h id delays v frame).0;
              outbound_keys = v.outbound_keys;
              queue_keys = v.queue_keys;
              inbound_sound = (erased-Inv h id delays v frame).1;
              outbound_sound = v.outbound_sound;
              next_positive = v.next_positive;
            };
            steady = Steady-refl h;
            opens_none = refl;
          };
          others = erased_others h id v;
          shorter = λ a. cc;
        },
      )
  settle-Looked now id key finishes h entry v e held ok =
      let (delays, run, frame) = remove_key-some t key id h.inbound_substreams_delay held in
      (
        relax now (record h {
          inbound_substreams_delay = delays;
          queued_outbound_items = erase id h.queued_outbound_items;
          inbound_substreams = erase id h.inbound_substreams;
        }),
        none,
        false,
        rw (settle, run, ◌>>=◌) refl,
        record {
          good = record {
            inv = record {
              inbound_keys = (erased-Inv h id delays v frame).0;
              outbound_keys = v.outbound_keys;
              queue_keys = erase-Distinct id h.queued_outbound_items v.queue_keys;
              inbound_sound = (erased-Inv h id delays v frame).1;
              outbound_sound = v.outbound_sound;
              next_positive = v.next_positive;
            };
            steady = Steady-refl h;
            opens_none = refl;
          };
          others = erased_others h id v;
          shorter = λ a. cc;
        },
      )
