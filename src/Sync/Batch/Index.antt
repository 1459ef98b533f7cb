-- ===== src/Sync/Batch/Index.antt =====
-- The two maps of `PendingBatches` agree: a peer's set holds the requests that are assigned to it.
use ori.Base.{
  ℕ, ◌≡◌, ◌≢◌, ◌↔◌, refl, Bool, true, false, not, Option, none, some, List, [], ◌∷◌, ◌++◌, arith,
  ◌==◌, if◌then◌else◌, is_some, has, Distinct, add, discard, has-add, add-Distinct, has-discard,
  discard-Distinct, Option-cases, inl, inr,
}
use ori.Base.Dict.{
  Dict, keys, lookup, insert, erase, lookup-insert, insert-Distinct, lookup-erase, erase-Distinct,
}
use ori.Types.Block.{Block}
use ori.Network.Message.{PeerId, RequestId}
use ori.Sync.Batch.{
  Batch, PendingBatches, ids_of, requests_of, insert_batch, drop_request, remove_batch, add_block,
  peer_is_idle,
}

-- The request is for a batch of the peer.
abbrev pub assigned : Dict Batch → PeerId → RequestId → Bool
assigned batches peer id = elim (lookup id batches) [
  | some b ↦ b.current_peer == peer
  | none ↦ false
]

-- What a peer's entry lists.
abbrev pub listed : Dict (List RequestId) → PeerId → List RequestId
listed requests peer = ids_of (lookup peer requests)

pub record IsIndexed (p : PendingBatches) : Type 0 where
  pub once : Distinct (keys p.batches)
  pub peers : Distinct (keys p.peer_requests)
  pub sets : (peer : PeerId) → Distinct (requests_of p peer)
  pub agree :
      (peer : PeerId) (id : RequestId) → has id (requests_of p peer) ≡ assigned p.batches peer id
  pub busy : (peer : PeerId) → lookup peer p.peer_requests ≢ some []

add-nonempty : (x : ℕ) (xs : List ℕ) → add x xs ≢ []
add-nonempty x [] = cc
add-nonempty x (y ∷ ys) = ground arith

-- A new request keeps the maps in agreement.
pub insert_batch-IsIndexed :
    (id : RequestId) (b : Batch) (p : PendingBatches)
    → IsIndexed p
    → lookup id p.batches ≡ none
    → IsIndexed (insert_batch id b p)
unfolding insert_batch
insert_batch-IsIndexed id b p x fresh =
    let peer = b.current_peer in
    let ids = add id (requests_of p peer) in
    let at = λ (q : PeerId). lookup-insert q peer ids p.peer_requests in
    record {
      once = insert-Distinct id b p.batches x.once;
      peers = insert-Distinct peer ids p.peer_requests x.peers;
      sets =
          λ q. ground (arith, at q, x.sets q, add-Distinct id (requests_of p peer) (x.sets peer));
      agree = λ q i. ground (
        arith,
        at q,
        x.agree q i,
        has-add i id (requests_of p peer),
        lookup-insert i id b p.batches,
        x.agree peer i,
        fresh,
      );
      busy = λ q e. ground (arith, at q, x.busy q, add-nonempty id (requests_of p peer));
    }

-- An empty set has no entry.
abbrev as_entry : List RequestId → Option (List RequestId)
as_entry [] = none
as_entry (i ∷ is) = some (i ∷ is)

-- The entry that is left when a request is taken out.
abbrev left_of : RequestId → Option (List RequestId) → Option (List RequestId)
left_of id none = none
left_of id (some ids) = as_entry (discard id ids)

drop_request-lookup :
    (id : RequestId) (peer q : PeerId) (requests : Dict (List RequestId))
    → Distinct (keys requests)
    → lookup q (drop_request id peer requests)
      ≡ (if q == peer then left_of id (lookup peer requests) else lookup q requests)
drop_request-lookup id peer q requests d = elim (Option-cases (lookup peer requests)) [
  | inl e ↦ rw (drop_request, e) (ground (arith, e))
  | inr (ids, e) ↦ rw (drop_request, e) (go (discard id ids))
]
  where
    go :
        (rest : List RequestId)
        → lookup q (elim rest [ [] ↦ erase peer requests | i ∷ is ↦ insert peer (i ∷ is) requests ])
          ≡ (if q == peer then as_entry rest else lookup q requests)
    go [] = lookup-erase q peer requests d
    go (i ∷ is) = lookup-insert q peer (i ∷ is) requests

drop_request-listed :
    (id : RequestId) (peer q : PeerId) (requests : Dict (List RequestId))
    → Distinct (keys requests)
    → listed (drop_request id peer requests) q
      ≡ (if q == peer then discard id (listed requests peer) else listed requests q)
drop_request-listed id peer q requests d =
    ground (arith, drop_request-lookup id peer q requests d, go (lookup peer requests))
  where
    entry : (rest : List RequestId) → ids_of (as_entry rest) ≡ rest
    entry [] = refl
    entry (i ∷ is) = refl

    go : (found : Option (List RequestId)) → ids_of (left_of id found) ≡ discard id (ids_of found)
    go none = refl
    go (some ids) = entry (discard id ids)

drop_request-Distinct :
    (id : RequestId) (peer : PeerId) (requests : Dict (List RequestId))
    → Distinct (keys requests)
    → Distinct (keys (drop_request id peer requests))
drop_request-Distinct id peer requests d = elim (Option-cases (lookup peer requests)) [
  | inl e ↦ rw (drop_request, e) d
  | inr (ids, e) ↦ rw (drop_request, e) (go (discard id ids))
]
  where
    go :
        (rest : List RequestId)
        → Distinct
            (keys (elim rest [ [] ↦ erase peer requests | i ∷ is ↦ insert peer (i ∷ is) requests ]))
    go [] = erase-Distinct peer requests d
    go (i ∷ is) = insert-Distinct peer (i ∷ is) requests d

drop_request-busy :
    (id : RequestId) (peer q : PeerId) (requests : Dict (List RequestId))
    → Distinct (keys requests)
    → lookup q requests ≢ some []
    → lookup q (drop_request id peer requests) ≢ some []
drop_request-busy id peer q requests d h e =
    go (lookup peer requests) (rw (drop_request-lookup id peer q requests d) at e)
  where
    inner : (rest : List RequestId) → as_entry rest ≢ some []
    inner [] = cc
    inner (i ∷ is) = cc

    go :
        (found : Option (List RequestId))
        → (if q == peer then left_of id found else lookup q requests) ≢ some []
    go none f = ground (arith, h)
    go (some ids) f = ground (arith, h, inner (discard id ids))

module _ (id : RequestId) (p : PendingBatches) (x : IsIndexed p) where
  -- An answered request keeps the maps in agreement.
  pub remove_batch-IsIndexed : IsIndexed (remove_batch id p).0
  unfolding remove_batch
  remove_batch-IsIndexed = elim (Option-cases (lookup id p.batches)) [
    | inl e ↦ rw (remove_batch, e) x
    | inr (b, e) ↦
        let peer = b.current_peer in
        let at = λ (q : PeerId). drop_request-listed id peer q p.peer_requests x.peers in
        rw (remove_batch, e)
          (record {
            once = erase-Distinct id p.batches x.once;
            peers = drop_request-Distinct id peer p.peer_requests x.peers;
            sets = λ q.
                ground
                  (arith, at q, x.sets q, discard-Distinct id (requests_of p peer) (x.sets peer));
            agree = λ q i. ground (
              arith,
              at q,
              x.agree q i,
              x.agree peer i,
              has-discard i id (requests_of p peer) (x.sets peer),
              lookup-erase i id p.batches x.once,
              e,
            );
            busy = λ q. drop_request-busy id peer q p.peer_requests x.peers (x.busy q);
          })
  ]

  -- A peer is idle exactly if no batch that waits for an answer is assigned to it.
  pub peer_is_idle_iff :
      (peer : PeerId)
      → peer_is_idle p peer ≡ true ↔ ((i : RequestId) → assigned p.batches peer i ≡ false)
  peer_is_idle_iff peer = (
    λ idle i. ground (arith, x.agree peer i, idle),
    λ none'.
        go (lookup peer p.peer_requests) (x.busy peer)
          (λ i. ground (arith, x.agree peer i, none' i)),
  )
    where
      go :
          (found : Option (List RequestId))
          → found ≢ some []
          → ((i : RequestId) → has i (ids_of found) ≡ false)
          → not (is_some found) ≡ true
      go none n h = refl
      go (some []) n h = absurd (n refl)
      go (some (i ∷ is)) n h = ground (arith, h i)

-- A block that arrives keeps the maps in agreement.
pub add_block-IsIndexed :
    (id : RequestId) (b : Block) (p : PendingBatches) (p' : PendingBatches)
    → IsIndexed p
    → add_block id b p ≡ some p'
    → IsIndexed p'
unfolding add_block
add_block-IsIndexed id b p p' x run = elim (Option-cases (lookup id p.batches)) [
  | inl e ↦ absurd (ground (arith, run, e))
  | inr (old, e) ↦
      let grown : Batch = record old { downloaded_blocks = old.downloaded_blocks ++ b ∷ [] } in
      let made : some (record p { batches = insert id grown p.batches }) ≡ some p' =
        ground (arith, run, e) in
      let same : record p { batches = insert id grown p.batches } ≡ p' = cc made in
      rw (← same) (record {
        once = insert-Distinct id grown p.batches x.once;
        peers = x.peers;
        sets = x.sets;
        agree = λ q i. ground (arith, x.agree q i, lookup-insert i id grown p.batches, e);
        busy = x.busy;
      })
]
