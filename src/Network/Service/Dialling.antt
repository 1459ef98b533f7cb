-- ===== src/Network/Service/Dialling.antt =====
-- The peers that `Service` of network/src/service.rs dials, and those that stop it.
use ori.Base.{
  ◌≡◌, refl, subst, Bool, false, not, ◌||◌, Option, none, some, List, [], ◌∷◌, has, is_some, arith,
  Bool-cases, Option-cases, inl, inr, ◌>>=◌,
}
use ori.Base.Dict.{Dict, keys, lookup}
use ori.Base.Every.{Every, Every-insert, Every-lookup}
use ori.Types.Hash.{Bytes}
use ori.Network.Message.{PeerId}
use ori.Network.Service.{
  connected, dial, disconnected, DialStatus, DialNode, Service, BehaviourEvent, gossip_message,
  rpc_event, inject_connect, peer_disconnected, find_peers, Libp2pEvent, Turn, goes_on, breaks,
  returns, set_state, store_node, usable, handle_event, follow, poll_swarm, may_dial, first_addr,
  dial_nodes, dial_peer,
}

abbrev pub is_addressed : PeerId → DialNode → Bool
is_addressed peer_id node = is_some (first_addr node.addrs)

-- Every known node has an address.
abbrev pub Addressed : Service → Type 0
Addressed s = Every is_addressed s.nodes

set_state-Addressed :
    (peer_id : PeerId) (st : DialStatus) (known : Option DialNode) (nodes : Dict DialNode)
    → lookup peer_id nodes ≡ known
    → Every is_addressed nodes
    → Every is_addressed (set_state peer_id st known nodes)
set_state-Addressed peer_id st none nodes e h = h
set_state-Addressed peer_id st (some node) nodes e h =
    Every-insert is_addressed peer_id (record node { state = st }) nodes
      (Every-lookup is_addressed peer_id node nodes h e) h

store_node-Addressed :
    (peer_id : PeerId) (addrs : List Bytes) (nodes : Dict DialNode)
    → Every is_addressed nodes
    → Every is_addressed (store_node peer_id addrs nodes)
store_node-Addressed peer_id [] nodes h = h
store_node-Addressed peer_id (addr ∷ addrs) nodes h =
    Every-insert is_addressed peer_id _ nodes refl h

abbrev Holds : Option (Service × Turn) → Type 0
Holds none = Unit
Holds (some (s, turn)) = Addressed s

handle_event-Addressed : (e : BehaviourEvent) (s : Service) → Addressed s → Holds (handle_event e s)
unfolding handle_event
handle_event-Addressed (gossip_message id source topics message) s h = h
handle_event-Addressed (rpc_event peer_id event) s h = h
handle_event-Addressed (inject_connect peer_id dialled) s h =
    set_state-Addressed peer_id connected (lookup peer_id s.nodes) s.nodes refl h
handle_event-Addressed (peer_disconnected peer_id) s h =
    elim (Option-cases (lookup peer_id s.nodes)) [
      | inl e ↦ rw (e, ◌>>=◌) tt
      | inr (node, e) ↦
          rw (e, ◌>>=◌)
            (Every-insert is_addressed peer_id (record node { state = disconnected }) s.nodes
              (Every-lookup is_addressed peer_id node s.nodes h e) h)
    ]
handle_event-Addressed (find_peers peer_id addrs) s h =
    elim (Bool-cases (has peer_id (keys s.nodes))) [
      | inl e ↦ rw e h
      | inr e ↦ rw e (store_node-Addressed peer_id (usable addrs) s.nodes h)
    ]

abbrev Keeps : Option (Service × Option Libp2pEvent) → Type 0
Keeps none = Unit
Keeps (some (s, e)) = Addressed s

follow-Keeps :
    (s : Service) (turn : Turn) (k : Service → Option (Service × Option Libp2pEvent))
    → Addressed s
    → Keeps (k s)
    → Keeps (follow (s, turn) k)
follow-Keeps s goes_on k h rest = rest
follow-Keeps s breaks k h rest = h
follow-Keeps s (returns e) k h rest = h

-- A poll that does not panic leaves every known node with an address.
poll_swarm-Keeps : (es : List BehaviourEvent) (s : Service) → Addressed s → Keeps (poll_swarm es s)
unfolding poll_swarm
poll_swarm-Keeps [] s h = h
poll_swarm-Keeps (e ∷ es) s h = elim (Option-cases (handle_event e s)) [
  | inl c ↦ rw (c, ◌>>=◌) tt
  | inr ((s', turn), c) ↦
      let held : Addressed s' = subst Holds c (handle_event-Addressed e s h) in
      rw (c, ◌>>=◌) (follow-Keeps s' turn (poll_swarm es) held (poll_swarm-Keeps es s' held))
]

-- Nobody that is known may be dialled.
abbrev is_settled : List PeerId → PeerId → DialNode → Bool
is_settled peers peer node = has peer peers || not (may_dial node.state)

dial_nodes-settled :
    (peers : List PeerId) (nodes : Dict DialNode)
    → Every is_addressed nodes
    → (nodes' : Dict DialNode) × (dialled : List Bytes) × (dial_nodes peers nodes
        ≡ some (nodes', dialled))
      × Every (is_settled peers) nodes'
unfolding dial_nodes
dial_nodes-settled peers [] h = ([], [], refl, tt)
dial_nodes-settled peers ((peer, node) ∷ nodes) h =
    let (nodes', dialled, e, settled) = dial_nodes-settled peers nodes h.1 in
    elim (Bool-cases (is_settled peers peer node)) [
      | inl b ↦ ((peer, node) ∷ nodes', dialled, rw (e, ◌>>=◌, b) refl, (b, settled))
      | inr b ↦ elim (Option-cases (first_addr node.addrs)) [
        | inl gone ↦ absurd (cc (h.0, gone))
        | inr (addr, at) ↦ (
          (peer, record node { state = dial }) ∷ nodes',
          addr ∷ dialled,
          rw (e, ◌>>=◌, b, at) refl,
          (ground arith, settled),
        )
      ]
    ]

dial_nodes_none :
    (peers : List PeerId) (nodes : Dict DialNode)
    → Every (is_settled peers) nodes
    → dial_nodes peers nodes ≡ some (nodes, [])
unfolding dial_nodes
dial_nodes_none peers [] h = refl
dial_nodes_none peers ((peer, node) ∷ nodes) h =
    rw (dial_nodes_none peers nodes h.1, ◌>>=◌, h.0) refl

-- Dialling the known nodes after any events of the swarm that did not make the poll panic, when each
-- node had an address before them, never panics; dialling them again at once dials nobody, also not
-- the nodes whose dial has failed.
pub dial_peer-poll_swarm :
    (es : List BehaviourEvent) (s s' : Service) (r : Option Libp2pEvent)
    → Addressed s
    → poll_swarm es s ≡ some (s', r)
    → (s'' : Service) × (dialled : List Bytes) × (dial_peer s' ≡ some (s'', dialled))
      × (dial_peer s'' ≡ some (s'', []))
unfolding dial_peer
dial_peer-poll_swarm es s s' r h polled =
    let kept : Addressed s' = subst Keeps polled (poll_swarm-Keeps es s h) in
    let (nodes', dialled, e, settled) = dial_nodes-settled s'.peers s'.nodes kept in
    (
      record s' { nodes = nodes' },
      dialled,
      rw (e, ◌>>=◌) refl,
      rw (dial_nodes_none s'.peers nodes' settled, ◌>>=◌) refl,
    )

-- A peer that no discovery has found connects to the node and disconnects: the poll panics, whatever
-- comes after it.
pub poll_swarm_crashes :
    (peer_id : PeerId) (es : List BehaviourEvent) (s : Service)
    → lookup peer_id s.nodes ≡ none
    → poll_swarm (inject_connect peer_id false ∷ peer_disconnected peer_id ∷ es) s ≡ none
unfolding poll_swarm handle_event
poll_swarm_crashes peer_id es s e = rw (e, ◌>>=◌, e) refl
