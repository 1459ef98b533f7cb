-- ===== src/Examples/Services.antt =====
-- The theorems on topics, the service and the clock of slots.
use ori.Base.{ℕ, ◌≡◌, refl, ◌+◌, false, none, some, List, [], ◌∷◌, arith}
use ori.Types.Hash.{Bytes}
use ori.Network.Topic.{topic_builder, from_name, topic_of, from_name-topic_builder}
use ori.Network.Service.{
  unknown_status, Service, inject_connect, peer_disconnected, find_peers, poll_swarm, dial_peer,
  handle_event,
}
use ori.Network.Service.Dialling.{dial_peer-poll_swarm, poll_swarm_crashes}
use ori.Generator.Clock.{
  SlotTick, slot_duration_seconds, new_tick, poll, ticks, count_from, ticks-new_tick, poll_late,
}

abbrev no_peers : Service
no_peers = record { peers = []; nodes = [] }

-- "/ip4/1"
abbrev found_addr : Bytes
found_addr = 47 ∷ 105 ∷ 112 ∷ 52 ∷ 47 ∷ 49 ∷ []

abbrev found : Service
found = record {
  peers = [];
  nodes = (4, record { addrs = found_addr ∷ []; state = unknown_status }) ∷ [];
}

from_name-topic_builder_example :
    from_name (topic_builder (116 ∷ 120 ∷ [])) ≡ topic_of (116 ∷ 120 ∷ [])
from_name-topic_builder_example = from_name-topic_builder (116 ∷ 120 ∷ []) refl

dial_peer-poll_swarm_example :
    (s'' : Service) × (dialled : List Bytes) × (dial_peer found ≡ some (s'', dialled))
    × (dial_peer s'' ≡ some (s'', []))
unfolding poll_swarm handle_event
dial_peer-poll_swarm_example =
    dial_peer-poll_swarm (find_peers 4 (found_addr ∷ []) ∷ []) no_peers found none tt refl

poll_swarm_crashes_example :
    poll_swarm (inject_connect 9 false ∷ peer_disconnected 9 ∷ []) found ≡ none
poll_swarm_crashes_example = poll_swarm_crashes 9 [] found refl

ticks-new_tick_example :
    ticks 500 (9500 ∷ 15600 ∷ []) (new_tick slot_duration_seconds 10000 9000 (9000 + 500))
    ≡ some (count_from 0 2)
unfolding new_tick
ticks-new_tick_example =
    ticks-new_tick 10000 9000 500 (9500 ∷ 15600 ∷ []) (omega arith) (omega arith) (ground arith)

abbrev started : SlotTick
started = record { slot_duration = 6; delay = 1000; genesis_duration = 0 }

poll_late_example :
    (slot : ℕ) × (t' : SlotTick) × (t'' : SlotTick) × (poll 8000 20000 started
      ≡ some (t', some slot))
    × (poll 8000 20000 t' ≡ some (t'', some slot))
poll_late_example = poll_late 8000 20000 started (omega arith) (omega arith)
