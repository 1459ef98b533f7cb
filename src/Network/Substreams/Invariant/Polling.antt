-- ===== src/Network/Substreams/Invariant/Polling.antt =====
-- The invariant through a whole poll of network/src/p2p/handler.rs.
use ori.Base.{
  ℕ, suc, refl, ◌≤◌, none, some, List, [], ◌∷◌, AllIn-of, arith, inl, inr, Bool-cases, ltb,
}
use ori.Base.Dict.{keys}
use ori.Network.Message.{P2PEvent, request, response, error, RequestId}
use ori.Network.Substreams.{Transport, UpgradeError, P2PHandler, report, Stage, ◌>>>◌}
use ori.Network.Substreams.Inbound.{purge_inbound, drive_all_inbound}
use ori.Network.Substreams.Outbound.{purge_outbound, drive_all_outbound, dial}
use ori.Network.Substreams.Poll.{take_error, take_event, dial_stage, poll, upgrade_error}
use ori.Network.Substreams.Invariant.{Inv, Ends, Ends-mono, Ends->>>, Good, Good-trans, Good-refl}
use ori.Network.Substreams.Invariant.Driving.{drive_all_inbound-Good}
use ori.Network.Substreams.Invariant.Outbound.{drive_all_outbound-Good}
use ori.Network.Substreams.Invariant.Expiry.{Shrinking, purge_inbound-Good, purge_outbound-Good}

pub record KeptOf (Held : Type 0) (next next' : ℕ) : Type 0 where
  pub inv : Held
  pub next_most : next' ≤ suc next

module _ (t : Transport) where
  -- A stage that keeps a good handler good, behind stages that did.
  then-Good :
      (h : P2PHandler t) (s : Stage t) (k : P2PHandler t → Stage t)
      → Ends (Good h) s
      → ((h' : P2PHandler t) → Inv h' → Ends (Good h') (k h'))
      → Ends (Good h) (s >>> k)
  then-Good h s k e f =
      Ends->>> (Good h) (Good h) s k e (λ h' r g. g)
        (λ h' g.
          Ends-mono (Good h') (Good h) (k h') (λ h'' r. Good-trans h h' h'' r g.steady)
            (f h' g.inv))

  take_error-Good :
      (es : List (RequestId × UpgradeError)) (h : P2PHandler t)
      → Inv h
      → Ends (Good h) (take_error es h)
  unfolding take_error
  take_error-Good [] h v = Good-refl h none v refl
  take_error-Good ((id, e) ∷ es) h v =
      Good-refl h (some (report (error id (upgrade_error e)))) v refl

  take_event-Good :
      (es : List P2PEvent) (h : P2PHandler t) → Inv h → Ends (Good h) (take_event es h)
  unfolding take_event
  take_event-Good [] h v = Good-refl h none v refl
  take_event-Good (e ∷ es) h v = Good-refl h (some (report e)) v refl

  -- The stages of a poll in front of the dialling
  abbrev pub before_dial : ℕ → P2PHandler t → Stage t
  before_dial now h =
      take_error h.pending_error h
      >>> (λ h. take_event h.events_out h)
      >>> (λ h. purge_inbound (suc (t.delays_len h.inbound_substreams_delay)) h)
      >>> (λ h. purge_outbound (t.poll_delays h.outbound_substreams_delay) h)
      >>> (λ h. drive_all_inbound now (keys h.inbound_substreams) h)
      >>> (λ h. drive_all_outbound now (keys h.outbound_substreams) h)

  pub before_dial-Good :
      (now : ℕ) (h : P2PHandler t) → Shrinking t → Inv h → Ends (Good h) (before_dial now h)
  before_dial-Good now h shrinks v =
      then-Good h _ _
        (then-Good h _ _
          (then-Good h _ _
            (then-Good h _ _
              (then-Good h _ _ (take_error-Good h.pending_error h v)
                (λ h v. take_event-Good h.events_out h v))
              (λ h v. purge_inbound-Good t _ h shrinks v (omega arith)))
            (λ h v. purge_outbound-Good t _ h refl v))
          (λ h v.
            drive_all_inbound-Good t now (keys h.inbound_substreams) h v v.inbound_keys
              (AllIn-of _ _ (λ j e. e))))
        (λ h v.
          drive_all_outbound-Good t now (keys h.outbound_substreams) h v v.outbound_keys
            (AllIn-of _ _ (λ j e. e)))

  -- What a call keeps, with how far the next inbound id moves.
  abbrev pub Kept : P2PHandler t → P2PHandler t → Type 0
  Kept h h' = KeptOf (Inv h') h.current_inbound_substream_id h'.current_inbound_substream_id

  pub dial-Kept : (es : List P2PEvent) (h : P2PHandler t) → Inv h → Kept h (dial es h).0
  unfolding dial
  dial-Kept [] h v = record { inv = v; next_most = omega arith }
  dial-Kept (request id req ∷ es) h v =
      elim (Bool-cases (ltb h.dial_negotiated h.max_dial_negotiated)) [
        | inl e ↦ rw e (record { inv = v; next_most = omega arith })
        | inr e ↦ rw e (record { inv = v; next_most = omega arith })
      ]
  dial-Kept (response id r ∷ es) h v =
      elim (Bool-cases (ltb h.dial_negotiated h.max_dial_negotiated)) [
        | inl e ↦ rw e (record { inv = v; next_most = omega arith })
        | inr e ↦ rw e (record { inv = v; next_most = omega arith })
      ]
  dial-Kept (error id r ∷ es) h v =
      elim (Bool-cases (ltb h.dial_negotiated h.max_dial_negotiated)) [
        | inl e ↦ rw e (record { inv = v; next_most = omega arith })
        | inr e ↦ rw e (record { inv = v; next_most = omega arith })
      ]

  pub poll-Kept :
      (now : ℕ) (h : P2PHandler t) → Shrinking t → Inv h → Ends (λ h' r. Kept h h') (poll now h)
  unfolding poll
  poll-Kept now h shrinks v =
      Ends->>> (Good h) (λ h' r. Kept h h') (before_dial now h) dial_stage
        (before_dial-Good now h shrinks v)
        (λ h' r g. record { inv = g.inv; next_most = omega (arith, g.steady.same_next) })
        (λ h' g.
          let k = dial-Kept h'.dial_queue h' g.inv in
          record { inv = k.inv; next_most = omega (arith, g.steady.same_next, k.next_most) })
