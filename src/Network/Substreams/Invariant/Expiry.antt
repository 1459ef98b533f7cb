-- ===== src/Network/Substreams/Invariant/Expiry.antt =====
-- The streams that time out in a poll of network/src/p2p/handler.rs.
use ori.Base.{
  ℕ, zero, suc, ◌≡◌, refl, subst, Option, ◌<◌, Bool, true, false, none, some, List, arith, ◌>>=◌,
  inl, inr, Option-cases,
}
use ori.Base.Dict.{lookup, insert, erase-Distinct}
use ori.Base.Every.{Every-mono, Every-lookup, Every-others, Every-erase_others}
use ori.Network.Message.{P2PErrorResponse}
use ori.Network.Substreams.{
  Transport, Expiry, passes, PollResult, waiting, expired, timer_failed, InboundState, pending_send,
  response_idle, closing_in, poisoned_in, P2PHandler, poll_failed, Stage,
}
use ori.Network.Substreams.Inbound.{
  close_idle, close, queue_of, time_out, after_expiry, purge_inbound,
}
use ori.Network.Substreams.Outbound.{purge_outbound}
use ori.Network.Substreams.Invariant.{
  is_sound_in, is_opening, Frame, inbound_ok, inbound_ok-Frame, inbound_ok_mono, outbound_ok,
  outbound_ok-Frame, outbound_ok_mono, Inv, Steady-refl, Ends, Ends-mono, Good, Good-trans,
}
use ori.Network.Substreams.Invariant.Inbound.{keeps-Good}

-- A poll of a delay queue that yields an entry takes it out.
abbrev pub Shrinking : Transport → Type 0
Shrinking t =
    (delays delays' : t.Delays) (id : ℕ)
    → t.poll_delays delays ≡ (expired id, delays')
    → t.delays_len delays' < t.delays_len delays

module _ (t : Transport) where
  close_idle_sound :
      (p : Bool × t.In) (queue : List P2PErrorResponse)
      → is_sound_in (close_idle {t = t} p queue).0 ≡ true
  unfolding close_idle
  close_idle_sound (true, substream) queue = refl
  close_idle_sound (false, substream) queue = refl

  close_sound :
      (st : InboundState t) (queue : List P2PErrorResponse)
      → is_sound_in st ≡ true
      → (s : InboundState t × List P2PErrorResponse) × (close st queue ≡ some s)
        × (is_sound_in s.0 ≡ true)
  unfolding close
  close_sound (pending_send substream true) queue e = (_, refl, refl)
  close_sound (pending_send substream false) queue e = (_, refl, refl)
  close_sound (response_idle substream) queue e =
      (_, refl, close_idle_sound (t.poll_in substream) queue)
  close_sound (closing_in substream) queue e = (_, refl, refl)
  close_sound poisoned_in queue e = cc

  -- A stream whose delay has been taken out of the queue times out: it has no delay any more.
  time_out-Good :
      (id : ℕ) (h : P2PHandler t) (delays : t.Delays)
      → Inv h
      → Frame t id h.inbound_substreams_delay delays
      → (h' : P2PHandler t) × (time_out id (record h { inbound_substreams_delay = delays })
          ≡ some h')
        × Good h h' none
        × (h'.inbound_substreams_delay ≡ delays)
  unfolding time_out
  time_out-Good id h delays v frame = elim (Option-cases (lookup id h.inbound_substreams)) [
    | inl e ↦ (
      record h { inbound_substreams_delay = delays },
      rw (e, time_out) refl,
      record {
        inv = record {
          inbound_keys = v.inbound_keys;
          outbound_keys = v.outbound_keys;
          queue_keys = v.queue_keys;
          inbound_sound =
              Every-others (inbound_ok next h.inbound_substreams_delay) (inbound_ok next delays) id
                (inbound_ok-Frame next id h.inbound_substreams_delay delays frame)
                h.inbound_substreams e v.inbound_sound;
          outbound_sound = v.outbound_sound;
          next_positive = v.next_positive;
        };
        steady = Steady-refl h;
        opens_none = refl;
      },
      refl,
    )
    | inr (entry, e) ↦
        let was : inbound_ok next h.inbound_substreams_delay id entry ≡ true =
          Every-lookup (inbound_ok next h.inbound_substreams_delay) id entry h.inbound_substreams
            v.inbound_sound e in
        let sound : is_sound_in entry.0 ≡ true = ground (arith, was) in
        let (s, c, ok) = close_sound entry.0 (queue_of (lookup id h.queued_outbound_items)) sound in
        (
          record h {
            inbound_substreams_delay = delays;
            inbound_substreams = insert id (s.0, none) h.inbound_substreams;
            queued_outbound_items = insert id s.1 h.queued_outbound_items;
          },
          rw (e, time_out, c, ◌>>=◌) refl,
          keeps-Good t h id s.0 none (some s.1) entry v e ok delays refl frame,
          refl,
        )
  ]
    where
      next : ℕ
      next = h.current_inbound_substream_id

  -- What a poll of the delays leaves
  poll-Frame : (id : ℕ) (d d' : t.Delays) → t.poll_delays d ≡ (expired id, d') → Frame t id d d'
  poll-Frame id d d' e m j ne held =
      (subst (λ p. passes p.0 j ≡ true → t.holds m j p.1 ≡ true) e (t.poll-keeps d m j held))
        (rw ne refl)

  waits_frame :
      (d d' : t.Delays) (e : Expiry)
      → t.poll_delays d ≡ (e, d')
      → ((j : ℕ) → passes e j ≡ true)
      → (m : t.Key) (j : ℕ) → t.holds m j d ≡ true
      → t.holds m j d' ≡ true
  waits_frame d d' e eq pass m j held =
      (subst (λ p. passes p.0 j ≡ true → t.holds m j p.1 ≡ true) eq (t.poll-keeps d m j held))
        (pass j)

  -- A poll that lets no stream time out
  inbound_waits :
      (h : P2PHandler t) (delays : t.Delays) (r : Option PollResult)
      → Inv h
      → ((m : t.Key) (j : ℕ)
          → t.holds m j h.inbound_substreams_delay ≡ true
          → t.holds m j delays ≡ true)
      → is_opening r ≡ false
      → Good h (record h { inbound_substreams_delay = delays }) r
  inbound_waits h delays r v f o = record {
    inv = record {
      inbound_keys = v.inbound_keys;
      outbound_keys = v.outbound_keys;
      queue_keys = v.queue_keys;
      inbound_sound =
          Every-mono (inbound_ok h.current_inbound_substream_id h.inbound_substreams_delay)
            (inbound_ok h.current_inbound_substream_id delays) h.inbound_substreams
            (inbound_ok_mono h.current_inbound_substream_id h.inbound_substreams_delay delays f)
            v.inbound_sound;
      outbound_sound = v.outbound_sound;
      next_positive = v.next_positive;
    };
    steady = Steady-refl h;
    opens_none = o;
  }

  outbound_waits :
      (h : P2PHandler t) (delays : t.Delays) (r : Option PollResult)
      → Inv h
      → ((m : t.Key) (j : ℕ)
          → t.holds m j h.outbound_substreams_delay ≡ true
          → t.holds m j delays ≡ true)
      → is_opening r ≡ false
      → Good h (record h { outbound_substreams_delay = delays }) r
  outbound_waits h delays r v f o = record {
    inv = record {
      inbound_keys = v.inbound_keys;
      outbound_keys = v.outbound_keys;
      queue_keys = v.queue_keys;
      inbound_sound = v.inbound_sound;
      outbound_sound =
          Every-mono (outbound_ok h.outbound_substreams_delay) (outbound_ok delays)
            h.outbound_substreams (outbound_ok_mono h.outbound_substreams_delay delays f)
            v.outbound_sound;
      next_positive = v.next_positive;
    };
    steady = Steady-refl h;
    opens_none = o;
  }

  after_expiry-Good :
      (fuel : ℕ) (h : P2PHandler t) (k : P2PHandler t → Stage t)
      → Shrinking t
      → Inv h
      → t.delays_len h.inbound_substreams_delay < suc fuel
      → ((h' : P2PHandler t)
          → Inv h'
          → t.delays_len h'.inbound_substreams_delay < fuel
          → Ends (Good h') (k h'))
      → (p : Expiry × t.Delays) → t.poll_delays h.inbound_substreams_delay ≡ p
      → Ends (Good h) (after_expiry p k h)
  unfolding after_expiry
  after_expiry-Good fuel h k shrinks v lt rest (waiting, delays) e =
      inbound_waits h delays none v
        (waits_frame h.inbound_substreams_delay delays waiting e (λ j. refl)) refl
  after_expiry-Good fuel h k shrinks v lt rest (timer_failed, delays) e =
      inbound_waits h delays (some poll_failed) v
        (waits_frame h.inbound_substreams_delay delays timer_failed e (λ j. refl)) refl
  after_expiry-Good fuel h k shrinks v lt rest (expired id, delays) e =
      let (h', te, g, de) =
        time_out-Good id h delays v (poll-Frame id h.inbound_substreams_delay delays e) in
      let less : t.delays_len delays < fuel =
        omega (arith, lt, shrinks h.inbound_substreams_delay delays id e) in
      rw (te, ◌>>=◌)
        (Ends-mono (Good h') (Good h) (k h') (λ h'' r x. Good-trans h h' h'' r g.steady x)
          (rest h' g.inv (rw de less)))

  pub purge_inbound-Good :
      (fuel : ℕ) (h : P2PHandler t)
      → Shrinking t
      → Inv h
      → t.delays_len h.inbound_substreams_delay < fuel
      → Ends (Good h) (purge_inbound fuel h)
  unfolding purge_inbound
  purge_inbound-Good zero h shrinks v lt = absurd (omega (arith, lt))
  purge_inbound-Good (suc fuel) h shrinks v lt =
      after_expiry-Good fuel h (purge_inbound fuel) shrinks v lt
        (λ h'. purge_inbound-Good fuel h' shrinks) (t.poll_delays h.inbound_substreams_delay) refl

  pub purge_outbound-Good :
      (p : Expiry × t.Delays) (h : P2PHandler t)
      → t.poll_delays h.outbound_substreams_delay ≡ p
      → Inv h
      → Ends (Good h) (purge_outbound p h)
  unfolding purge_outbound
  purge_outbound-Good (waiting, delays) h e v =
      outbound_waits h delays none v
        (waits_frame h.outbound_substreams_delay delays waiting e (λ j. refl)) refl
  purge_outbound-Good (timer_failed, delays) h e v =
      outbound_waits h delays (some poll_failed) v
        (waits_frame h.outbound_substreams_delay delays timer_failed e (λ j. refl)) refl
  purge_outbound-Good (expired id, delays) h e v = record {
    inv = record {
      inbound_keys = v.inbound_keys;
      outbound_keys = erase-Distinct id h.outbound_substreams v.outbound_keys;
      queue_keys = v.queue_keys;
      inbound_sound = v.inbound_sound;
      outbound_sound =
          Every-erase_others (outbound_ok h.outbound_substreams_delay) (outbound_ok delays) id
            (outbound_ok-Frame id h.outbound_substreams_delay delays
              (poll-Frame id h.outbound_substreams_delay delays e))
            h.outbound_substreams v.outbound_keys v.outbound_sound;
      next_positive = v.next_positive;
    };
    steady = Steady-refl h;
    opens_none = refl;
  }
