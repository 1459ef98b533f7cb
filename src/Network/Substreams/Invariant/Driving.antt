-- ===== src/Network/Substreams/Invariant/Driving.antt =====
-- The loops of a poll over the inbound streams of network/src/p2p/handler.rs: they end, and keep the
-- invariant.
use ori.Base.{
  AllIn, AllIn-others, ℕ, zero, suc, ◌≡◌, refl, ◌∙◌, ◌<◌, Bool, true, false, Option, none, some,
  List, [], ◌∷◌, Distinct, has, ◌==◌, arith, ◌>>=◌,
}
use ori.Base.Dict.{keys, lookup}
use ori.Base.Every.{Every-lookup, lookup-has}
use ori.Network.Substreams.{Transport, P2PHandler, PollResult, Stage}
use ori.Network.Substreams.Inbound.{look, look_on, drive_inbound, drive_all_inbound, queue_length}
use ori.Network.Substreams.Invariant.{
  is_sound_in, key_held, inbound_ok, Inv, Ends, Ends-mono, Ends->>>, Good, Good-trans, Good-refl,
}
use ori.Network.Substreams.Invariant.Inbound.{drive_state-DrivenOk, Looked, settle-Looked}

module _ (t : Transport) where
  look-Looked :
      (now id : ℕ) (h : P2PHandler t)
      → Inv h
      → has id (keys h.inbound_substreams) ≡ true
      → (h' : P2PHandler t) × (r : Option PollResult) × (again : Bool) × (look now id h
          ≡ some (h', r, again))
        × Looked t id h h' r again
  unfolding look
  look-Looked now id h v stored =
      let (entry, e) = lookup-has id h.inbound_substreams stored in
      let was : inbound_ok h.current_inbound_substream_id h.inbound_substreams_delay id entry
          ≡ true =
        Every-lookup (inbound_ok h.current_inbound_substream_id h.inbound_substreams_delay) id entry
          h.inbound_substreams v.inbound_sound e in
      let held : key_held t id entry.1 h.inbound_substreams_delay ≡ true = ground (arith, was) in
      let sound : is_sound_in entry.0 ≡ true = ground (arith, was) in
      let (d, de, ok) = drive_state-DrivenOk t entry.0 (lookup id h.queued_outbound_items) sound in
      let (h', r, again, run, l) = settle-Looked t now id entry.1 d h entry v e held ok in
      (h', r, again, rw (e, ◌>>=◌, de, ◌>>=◌) run, l)

  abbrev pub Others : ℕ → P2PHandler t → P2PHandler t → Type 0
  Others id h h' =
      (j : ℕ)
      → (j == id) ≡ false
      → has j (keys h'.inbound_substreams) ≡ has j (keys h.inbound_substreams)

  abbrev pub Drove : ℕ → P2PHandler t → P2PHandler t → Option PollResult → Type 0
  Drove id h h' r = Good h h' r × Others id h h'

  look_on-Drove :
      (fuel id : ℕ) (h : P2PHandler t) (k : P2PHandler t → Stage t)
      → queue_length (lookup id h.queued_outbound_items) < suc fuel
      → ((h' : P2PHandler t)
          → Inv h'
          → has id (keys h'.inbound_substreams) ≡ true
          → queue_length (lookup id h'.queued_outbound_items) < fuel
          → Ends (Drove id h') (k h'))
      → (again : Bool) (h' : P2PHandler t) (r : Option PollResult) → Looked t id h h' r again
      → Ends (Drove id h) (look_on (some (h', r, again)) k)
  look_on-Drove fuel id h k lt rest true h' r l =
      Ends-mono (Drove id h') (Drove id h) (k h')
        (λ h'' r' e. (Good-trans h h' h'' r' l.good.steady e.0, λ j ne. e.1 j ne ∙ l.others j ne))
        (rest h' l.good.inv (l.shorter refl).0 (omega (arith, lt, (l.shorter refl).1)))
  look_on-Drove fuel id h k lt rest false h' r l = (l.good, l.others)

  drive_inbound-Drove :
      (now fuel id : ℕ) (h : P2PHandler t)
      → Inv h
      → has id (keys h.inbound_substreams) ≡ true
      → queue_length (lookup id h.queued_outbound_items) < fuel
      → Ends (Drove id h) (drive_inbound now fuel id h)
  unfolding drive_inbound
  drive_inbound-Drove now zero id h v stored lt = absurd (omega (arith, lt))
  drive_inbound-Drove now (suc fuel) id h v stored lt =
      let (h', r, again, e, l) = look-Looked now id h v stored in
      rw e (
        look_on-Drove fuel id h (drive_inbound now fuel id) lt (drive_inbound-Drove now fuel id)
          again h' r l)

  pub drive_all_inbound-Good :
      (now : ℕ) (ids : List ℕ) (h : P2PHandler t)
      → Inv h
      → Distinct ids
      → AllIn ids (keys h.inbound_substreams)
      → Ends (Good h) (drive_all_inbound now ids h)
  unfolding drive_all_inbound
  drive_all_inbound-Good now [] h v d s = Good-refl h none v refl
  drive_all_inbound-Good now (id ∷ ids) h v d s =
      Ends->>> (Drove id h) (Good h) _ (drive_all_inbound now ids)
        (drive_inbound-Drove now _ id h v s.0 (omega arith)) (λ h' r e. e.0)
        (λ h' e.
          Ends-mono (Good h') (Good h) (drive_all_inbound now ids h')
            (λ h'' r g. Good-trans h h' h'' r e.0.steady g)
            (drive_all_inbound-Good now ids h' e.0.inv d.1 (
              AllIn-others id ids (keys h.inbound_substreams) (keys h'.inbound_substreams) d.0 e.1
                s.1)))
