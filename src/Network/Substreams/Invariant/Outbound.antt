-- ===== src/Network/Substreams/Invariant/Outbound.antt =====
-- The invariant through a poll's work on the outbound streams of network/src/p2p/handler.rs.
use ori.Base.{
  ℕ, ◌≡◌, refl, ◌∙◌, true, false, Option, none, some, List, [], ◌∷◌, Distinct, has, AllIn,
  AllIn-others, ◌==◌, ◌>>=◌, inl, inr, Bool-cases, not, ◌&&◌, arith,
}
use ori.Base.Dict.{keys, lookup, insert, erase, insert-Distinct, erase-Distinct, has-keys-erase}
use ori.Base.Every.{
  Every-lookup, Every-insert_others, Every-erase_others, lookup-has, has-keys-replace,
}
use ori.Network.Message.{
  P2PEvent, P2PRequest, P2PErrorResponse, is_error, error, response, stream_termination, custom,
}
use ori.Network.Request
use ori.Network.Substreams.{
  Transport, OutPoll, answer, ended, silent, out_failed, OutboundState, pending_response,
  closing_out, poisoned_out, P2PHandler, PollResult, report,
}
use ori.Network.Substreams.Inbound.{relax}
use ori.Network.Substreams.Outbound.{
  stream_closed_early, keep_stream, drop_stream, take_answer, end_event, drive_response,
  drive_closing, drive_state_out, drive_outbound, drive_all_outbound,
}
use ori.Network.Substreams.Invariant.{
  is_sound_out, Frame, outbound_ok, outbound_ok-Frame, Inv, Steady-refl, Ends, Ends-mono, Ends->>>,
  Good, Good-trans, Good-refl, is_opening,
}

module _ (t : Transport) where
  abbrev pub Others : ℕ → P2PHandler t → P2PHandler t → Type 0
  Others id h h' =
      (j : ℕ)
      → (j == id) ≡ false
      → has j (keys h'.outbound_substreams) ≡ has j (keys h.outbound_substreams)

  abbrev pub Drove : ℕ → P2PHandler t → P2PHandler t → Option PollResult → Type 0
  Drove id h h' r = Good h h' r × Others id h h'

  stored-Drove :
      (id : ℕ) (st : OutboundState t) (key : t.Key) (h : P2PHandler t)
      (entry : OutboundState t × t.Key) (r : Option PollResult) (delays : t.Delays)
      → Inv h
      → lookup id h.outbound_substreams ≡ some entry
      → is_sound_out st ≡ true
      → t.holds key id delays ≡ true
      → Frame t id h.outbound_substreams_delay delays
      → is_opening r ≡ false
      → Drove id h
          (record h {
            outbound_substreams_delay = delays;
            outbound_substreams = insert id (st, key) h.outbound_substreams;
          })
          r
  stored-Drove id st key h entry r delays v found sound held frame opens_none = (
    record {
      inv = record {
        inbound_keys = v.inbound_keys;
        outbound_keys = insert-Distinct id (st, key) h.outbound_substreams v.outbound_keys;
        queue_keys = v.queue_keys;
        inbound_sound = v.inbound_sound;
        outbound_sound =
            Every-insert_others (outbound_ok h.outbound_substreams_delay) (outbound_ok delays) id
              (outbound_ok-Frame id h.outbound_substreams_delay delays frame) (st, key)
              h.outbound_substreams (rw (sound, held) refl) v.outbound_keys v.outbound_sound;
        next_positive = v.next_positive;
      };
      steady = Steady-refl h;
      opens_none = opens_none;
    },
    λ j ne. has-keys-replace j id (st, key) entry h.outbound_substreams found,
  )

  -- A stream that is left in another state, with its delay as it was
  kept-Drove :
      (id : ℕ) (st : OutboundState t) (key : t.Key) (h : P2PHandler t)
      (entry : OutboundState t × t.Key) (r : Option PollResult)
      → Inv h
      → lookup id h.outbound_substreams ≡ some entry
      → is_sound_out st ≡ true
      → t.holds key id h.outbound_substreams_delay ≡ true
      → is_opening r ≡ false
      → Drove id h (keep_stream id st key h) r
  kept-Drove id st key h entry r v found sound held o =
      stored-Drove id st key h entry r h.outbound_substreams_delay v found sound held
        (λ m j ne x. x) o

  dropped-Drove :
      (id : ℕ) (key : t.Key) (h : P2PHandler t) (r : Option PollResult)
      → Inv h
      → t.holds key id h.outbound_substreams_delay ≡ true
      → is_opening r ≡ false
      → (h' : P2PHandler t) × (drop_stream id key h ≡ some h') × Drove id h h' r
  dropped-Drove id key h r v held opens_none =
      let (delays, run, frame) = t.remove-some key id h.outbound_substreams_delay held in
      (
        record h {
          outbound_substreams_delay = delays;
          outbound_substreams = erase id h.outbound_substreams;
        },
        rw (run, ◌>>=◌) refl,
        (
          record {
            inv = record {
              inbound_keys = v.inbound_keys;
              outbound_keys = erase-Distinct id h.outbound_substreams v.outbound_keys;
              queue_keys = v.queue_keys;
              inbound_sound = v.inbound_sound;
              outbound_sound =
                  Every-erase_others (outbound_ok h.outbound_substreams_delay) (outbound_ok delays)
                    id (outbound_ok-Frame id h.outbound_substreams_delay delays frame)
                    h.outbound_substreams v.outbound_keys v.outbound_sound;
              next_positive = v.next_positive;
            };
            steady = Steady-refl h;
            opens_none = opens_none;
          },
          λ j ne. has-keys-erase j id h.outbound_substreams v.outbound_keys ∙ rw ne refl,
        ),
      )

  take_answer-Drove :
      (id : ℕ) (req : P2PRequest) (key : t.Key) (resp : P2PErrorResponse) (substream : t.Out)
      (h : P2PHandler t) (entry : OutboundState t × t.Key) (r : Option PollResult)
      → Inv h
      → lookup id h.outbound_substreams ≡ some entry
      → t.holds key id h.outbound_substreams_delay ≡ true
      → is_opening r ≡ false
      → (h' : P2PHandler t) × (take_answer id req key resp substream h ≡ some h') × Drove id h h' r
  unfolding take_answer
  take_answer-Drove id req key resp substream h entry r v found held o =
      elim (Bool-cases (Request.multiple_responses req && not (is_error resp))) [
        | inl e ↦
            let (delays, run, keeps) = t.reset-some key id h.outbound_substreams_delay held in
            (
              record (keep_stream id (pending_response substream req) key h) {
                outbound_substreams_delay = delays;
              },
              rw (take_answer, e, run, ◌>>=◌) refl,
              stored-Drove id (pending_response substream req) key h entry r delays v found refl
                  (keeps key id held) (λ m j ne x. keeps m j x) o,
            )
        | inr e ↦ (
          keep_stream id (closing_out substream) key h,
          rw (take_answer, e) refl,
          kept-Drove id (closing_out substream) key h entry r v found refl held o,
        )
      ]

  -- The end of a stream is always reported: the request has a termination when it needs one.
  end_event_total : (id : ℕ) (req : P2PRequest) → (e : P2PEvent) × (end_event id req ≡ some e)
  unfolding end_event
  end_event_total id req = elim (Bool-cases (Request.multiple_responses req)) [
    | inl e ↦
        let (k, ke) = Request.termination_of-is_some req e in
        (response id (stream_termination k), rw (e, ke) refl)
    | inr e ↦ (error id (custom stream_closed_early), rw e refl)
  ]

  drive_response-Drove :
      (id : ℕ) (req : P2PRequest) (key : t.Key) (p : OutPoll t.Out) (h : P2PHandler t)
      (entry : OutboundState t × t.Key)
      → Inv h
      → lookup id h.outbound_substreams ≡ some entry
      → t.holds key id h.outbound_substreams_delay ≡ true
      → Ends (Drove id h) (drive_response id req key p h)
  unfolding drive_response
  drive_response-Drove id req key (answer resp substream) h entry v found held =
      let (h', run, d) =
        take_answer-Drove id req key resp substream h entry (some (report (response id resp))) v
          found held refl in
      rw (run, ◌>>=◌) d
  drive_response-Drove id req key ended h entry v found held =
      let (e, ee) = end_event_total id req in
      let (h', run, d) = dropped-Drove id key h (some (report e)) v held refl in
      rw (ee, ◌>>=◌, run, ◌>>=◌) d
  drive_response-Drove id req key (silent substream) h entry v found held =
      kept-Drove id _ key h entry none v found refl held refl
  drive_response-Drove id req key (out_failed e) h entry v found held =
      let (h', run, d) = dropped-Drove id key h (some (report (error id e))) v held refl in
      rw (run, ◌>>=◌) d

  relax-Drove :
      (now id : ℕ) (h h' : P2PHandler t) → Drove id h h' none → Drove id h (relax now h') none
  relax-Drove now id h h' d = (
    record {
      inv = record {
        inbound_keys = d.0.inv.inbound_keys;
        outbound_keys = d.0.inv.outbound_keys;
        queue_keys = d.0.inv.queue_keys;
        inbound_sound = d.0.inv.inbound_sound;
        outbound_sound = d.0.inv.outbound_sound;
        next_positive = d.0.inv.next_positive;
      };
      steady = record {
        same_next = d.0.steady.same_next;
        same_dials = d.0.steady.same_dials;
        same_most = d.0.steady.same_most;
        same_queue = d.0.steady.same_queue;
      };
      opens_none = refl;
    },
    d.1,
  )

  drive_closing-Drove :
      (now id : ℕ) (key : t.Key) (p : Option t.Out) (h : P2PHandler t)
      (entry : OutboundState t × t.Key)
      → Inv h
      → lookup id h.outbound_substreams ≡ some entry
      → t.holds key id h.outbound_substreams_delay ≡ true
      → Ends (Drove id h) (drive_closing now id key p h)
  unfolding drive_closing
  drive_closing-Drove now id key none h entry v found held =
      let (h', run, d) = dropped-Drove id key h none v held refl in
      rw (run, ◌>>=◌) (relax-Drove now id h h' d)
  drive_closing-Drove now id key (some substream) h entry v found held =
      kept-Drove id _ key h entry none v found refl held refl

  drive_state_out-Drove :
      (now id : ℕ) (key : t.Key) (st : OutboundState t) (h : P2PHandler t)
      → Inv h
      → lookup id h.outbound_substreams ≡ some (st, key)
      → is_sound_out st ≡ true
      → t.holds key id h.outbound_substreams_delay ≡ true
      → Ends (Drove id h) (drive_state_out now id key st h)
  unfolding drive_state_out
  drive_state_out-Drove now id key (pending_response substream req) h v found sound held =
      drive_response-Drove id req key (t.poll_out substream) h _ v found held
  drive_state_out-Drove now id key (closing_out substream) h v found sound held =
      drive_closing-Drove now id key (t.close_out substream) h _ v found held
  drive_state_out-Drove now id key poisoned_out h v found sound held = cc

  drive_outbound-Drove :
      (now id : ℕ) (h : P2PHandler t)
      → Inv h
      → has id (keys h.outbound_substreams) ≡ true
      → Ends (Drove id h) (drive_outbound now id h)
  unfolding drive_outbound
  drive_outbound-Drove now id h v stored =
      let (entry, e) = lookup-has id h.outbound_substreams stored in
      let was : outbound_ok h.outbound_substreams_delay id entry ≡ true =
        Every-lookup (outbound_ok h.outbound_substreams_delay) id entry h.outbound_substreams
          v.outbound_sound e in
      rw (e, ◌>>=◌)
        (drive_state_out-Drove now id entry.1 entry.0 h v e (ground (arith, was))
          (ground (arith, was)))

  pub drive_all_outbound-Good :
      (now : ℕ) (ids : List ℕ) (h : P2PHandler t)
      → Inv h
      → Distinct ids
      → AllIn ids (keys h.outbound_substreams)
      → Ends (Good h) (drive_all_outbound now ids h)
  unfolding drive_all_outbound
  drive_all_outbound-Good now [] h v d s = Good-refl h none v refl
  drive_all_outbound-Good now (id ∷ ids) h v d s =
      Ends->>> (Drove id h) (Good h) _ (drive_all_outbound now ids)
        (drive_outbound-Drove now id h v s.0) (λ h' r e. e.0)
        (λ h' e.
          Ends-mono (Good h') (Good h) (drive_all_outbound now ids h')
            (λ h'' r g. Good-trans h h' h'' r e.0.steady g)
            (drive_all_outbound-Good now ids h' e.0.inv d.1 (
              AllIn-others id ids (keys h.outbound_substreams) (keys h'.outbound_substreams) d.0 e.1
                s.1)))
