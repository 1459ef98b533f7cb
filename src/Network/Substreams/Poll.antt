-- ===== src/Network/Substreams/Poll.antt =====
-- `poll` and the calls of the swarm of network/src/p2p/handler.rs.
use ori.Base.{ℕ, suc, none, some, List, [], ◌∷◌}
use ori.Base.Dict.{keys}
use ori.Types.Hash.{Bytes}
use ori.Network.Message.{P2PEvent, error, P2PError, custom, RequestId}
use ori.Network.Substreams.{
  Transport, UpgradeError, timeout, timer, apply, select, P2PHandler, report, Stage, ◌>>>◌,
}
use ori.Network.Substreams.Inbound.{drive_all_inbound, purge_inbound}
use ori.Network.Substreams.Outbound.{drive_all_outbound, purge_outbound, dial}

-- "Protocol negotiation timeout"
abbrev pub negotiation_timeout : Bytes
negotiation_timeout =
    80 ∷ 114 ∷ 111 ∷ 116 ∷ 111 ∷ 99 ∷ 111 ∷ 108 ∷ 32 ∷ 110 ∷ 101 ∷ 103 ∷ 111 ∷ 116 ∷ 105 ∷ 97 ∷ 116
    ∷ 105 ∷ 111 ∷ 110 ∷ 32 ∷ 116 ∷ 105 ∷ 109 ∷ 101 ∷ 111 ∷ 117 ∷ 116 ∷ []

-- What the application is told of a stream that could not be opened.
unfoldable pub upgrade_error : UpgradeError → P2PError
upgrade_error timeout = custom negotiation_timeout
upgrade_error timer = custom negotiation_timeout
upgrade_error (apply e) = e
upgrade_error (select text) = custom text

module _ {t : Transport} where
  unfoldable pub take_error : List (RequestId × UpgradeError) → P2PHandler t → Stage t
  take_error [] h = some (h, none)
  take_error ((id, e) ∷ es) h =
      some (record h { pending_error = es }, some (report (error id (upgrade_error e))))

  unfoldable pub take_event : List P2PEvent → P2PHandler t → Stage t
  take_event [] h = some (h, none)
  take_event (e ∷ es) h = some (record h { events_out = es }, some (report e))

  abbrev pub dial_stage : P2PHandler t → Stage t
  dial_stage h = let (h', r) = dial h.dial_queue h in some (h', some r)

  -- `poll`
  unfoldable pub poll : ℕ → P2PHandler t → Stage t
  poll now h =
      take_error h.pending_error h
      >>> (λ h. take_event h.events_out h)
      >>> (λ h. purge_inbound (suc (t.delays_len h.inbound_substreams_delay)) h)
      >>> (λ h. purge_outbound (t.poll_delays h.outbound_substreams_delay) h)
      >>> (λ h. drive_all_inbound now (keys h.inbound_substreams) h)
      >>> (λ h. drive_all_outbound now (keys h.outbound_substreams) h)
      >>> dial_stage
