-- ===== src/Network/Service.antt =====
-- `Service` of network/src/service.rs: which peers are connected and dialled. The swarm of libp2p is
-- what it yields, the events of a poll in their order, and which dials it accepts. An address is the
-- text that it prints.
pub mod Dialling
use ori.Base.{
  ℕ, ◌≡◌, refl, ap, ◌∙◌, Bool, true, false, not, ◌&&◌, ◌||◌, Option, none, some, List, [], ◌∷◌,
  ◌++◌, ◌==◌, if◌then◌else◌, has, add, discard, is_some, arith, Bool-cases, Option-cases, inl, inr,
  ◌>>=◌,
}
use ori.Base.Dict.{Dict, keys, lookup, insert}
use ori.Base.Every.{Every, Every-insert, Every-lookup}
use ori.Types.Hash.{Bytes}
use ori.Network.Message.{PeerId, P2PEvent, PubsubMessage}

pub data DialStatus : Type 0 where
  connected dial dialing disconnected unknown_status : DialStatus

pub record DialNode : Type 0 where
  pub addrs : List Bytes
  pub state : DialStatus

pub record Service : Type 0 where
  pub peers : List PeerId
  pub nodes : Dict DialNode

-- `BehaviourEvent`. A connection comes with whether this node dialled.
pub data BehaviourEvent : Type 0 where
  gossip_message : ℕ → PeerId → List Bytes → PubsubMessage → BehaviourEvent
  rpc_event : PeerId → P2PEvent → BehaviourEvent
  inject_connect : PeerId → Bool → BehaviourEvent
  peer_disconnected : PeerId → BehaviourEvent
  find_peers : PeerId → List Bytes → BehaviourEvent

pub data Libp2pEvent : Type 0 where
  rpc : PeerId → P2PEvent → Libp2pEvent
  peer_dialed disconnected_peer : PeerId → Libp2pEvent
  pubsub_message : ℕ → PeerId → List Bytes → PubsubMessage → Libp2pEvent

-- What an event does to the loop of the poll.
pub data Turn : Type 0 where
  goes_on breaks : Turn
  returns : Libp2pEvent → Turn

-- `contains` of a text
abbrev pub starts_with : Bytes → Bytes → Bool
starts_with [] text = true
starts_with (b ∷ bs) [] = false
starts_with (b ∷ bs) (c ∷ cs) = (b == c) && starts_with bs cs

abbrev pub contains_text : Bytes → Bytes → Bool
contains_text part [] = starts_with part []
contains_text part (c ∷ cs) = starts_with part (c ∷ cs) || contains_text part cs

-- "127.0.0.1" and "ip4"
abbrev pub localhost : Bytes
localhost = 49 ∷ 50 ∷ 55 ∷ 46 ∷ 48 ∷ 46 ∷ 48 ∷ 46 ∷ 49 ∷ []

abbrev pub ip4 : Bytes
ip4 = 105 ∷ 112 ∷ 52 ∷ []

abbrev pub usable : List Bytes → List Bytes
usable [] = []
usable (addr ∷ addrs) =
    if contains_text localhost addr || not (contains_text ip4 addr)
    then usable addrs
    else addr ∷ usable addrs

-- The state of a node, if it is known.
abbrev pub set_state : PeerId → DialStatus → Option DialNode → Dict DialNode → Dict DialNode
set_state peer_id st none nodes = nodes
set_state peer_id st (some node) nodes = insert peer_id (record node { state = st }) nodes

abbrev pub store_node : PeerId → List Bytes → Dict DialNode → Dict DialNode
store_node peer_id [] nodes = nodes
store_node peer_id (addr ∷ addrs) nodes =
    insert peer_id (record { addrs = addr ∷ addrs; state = unknown_status }) nodes

-- One event of the swarm; `none` is the panic on a peer that is not known.
unfoldable pub handle_event : BehaviourEvent → Service → Option (Service × Turn)
handle_event (gossip_message id source topics message) s =
    some (s, returns (pubsub_message id source topics message))
handle_event (rpc_event peer_id event) s = some (s, returns (rpc peer_id event))
handle_event (inject_connect peer_id dialled) s = some (
  record s {
    peers = add peer_id s.peers;
    nodes = set_state peer_id connected (lookup peer_id s.nodes) s.nodes;
  },
  if dialled then returns (peer_dialed peer_id) else goes_on,
)
handle_event (peer_disconnected peer_id) s = do
  node ← lookup peer_id s.nodes
  some (
    record s {
      peers = discard peer_id s.peers;
      nodes = insert peer_id (record node { state = disconnected }) s.nodes;
    },
    returns (disconnected_peer peer_id),
  )
handle_event (find_peers peer_id addrs) s =
    if has peer_id (keys s.nodes)
    then some (s, goes_on)
    else some (record s { nodes = store_node peer_id (usable addrs) s.nodes }, breaks)

abbrev pub follow :
    Service × Turn
    → (Service → Option (Service × Option Libp2pEvent))
    → Option (Service × Option Libp2pEvent)
follow (s, goes_on) k = k s
follow (s, breaks) k = some (s, none)
follow (s, returns e) k = some (s, some e)

-- The loop of `poll` over the swarm
unfoldable pub poll_swarm : List BehaviourEvent → Service → Option (Service × Option Libp2pEvent)
poll_swarm [] s = some (s, none)
poll_swarm (e ∷ es) s = do turn ← handle_event e s; follow turn (poll_swarm es)

abbrev pub may_dial : DialStatus → Bool
may_dial unknown_status = true
may_dial disconnected = true
may_dial connected = false
may_dial dial = false
may_dial dialing = false

abbrev pub first_addr : List Bytes → Option Bytes
first_addr [] = none
first_addr (addr ∷ _) = some addr

-- One node of the loop of `dial_peer`, with what the others come to.
abbrev pub dial_node :
    List PeerId
    → PeerId
    → DialNode
    → Dict DialNode × List Bytes
    → Option (Dict DialNode × List Bytes)
dial_node peers peer node (nodes, dialled) =
    if has peer peers || not (may_dial node.state)
    then some ((peer, node) ∷ nodes, dialled)
    else (do
      addr ← first_addr node.addrs
      some ((peer, record node { state = dial }) ∷ nodes, addr ∷ dialled))

-- `dial_peer` over the nodes: their states, and the addresses that are dialled; `none` is the panic on
-- a node without an address.
pub dial_nodes : List PeerId → Dict DialNode → Option (Dict DialNode × List Bytes)
dial_nodes peers [] = some ([], [])
dial_nodes peers ((peer, node) ∷ nodes) = do
  rest ← dial_nodes peers nodes
  dial_node peers peer node rest

pub dial_peer : Service → Option (Service × List Bytes)
dial_peer s = do
  (nodes, dialled) ← dial_nodes s.peers s.nodes
  some (record s { nodes = nodes }, dialled)
