-- ===== src/Sync/Download/Requests.antt =====
-- How `SyncingChain::request_batches` of network/src/sync/range_sync/chain.rs spreads the batches over the
-- peers.
use ori.Base.{
  ℕ, suc, ◌+◌, ◌%◌, ◌<◌, ◌≤◌, ◌≡◌, refl, sym, ◌∙◌, subst, false, true, Option, none, some, List, [],
  ◌∷◌, arith, ◌==◌, Bool-cases, Option-cases, inl, inr, length,
}
use ori.Base.Dict.{Dict, lookup, insert, lookup-insert}
use ori.Types.Block.{Block}
use ori.Balance.{u64}
use ori.Network.Message.{PeerId, RequestId}
use ori.Network.Context.{SyncNetworkContext}
use ori.Sync.Batch.{Batch, PendingBatches, requests_of, insert_batch, peer_is_idle}
use ori.Sync.Batch.Index.{IsIndexed, insert_batch-IsIndexed}
use ori.Sync.Download.{SyncingChain, Sync, first_idle, send_batch, request_batches}
use ori.Sync.Download.Plan.{IsPlanned, start_of, batch_of, is_full}
use ori.Sync.Download.Rounds.{
  advanced, advanced-IsPlanned, round, idle, sends, send_range_request-Round, request_batches_keeps,
}

-- The maps of the requests agree, their numbers are below the next one, which does not reach the end of
-- 64 bits on the way to the target, no peer has two requests, and at most six batches are held.
pub record IsServed (s : Sync) : Type 0 where
  pub plan : IsPlanned s.0
  pub index : IsIndexed s.0.pending_batches
  pub fresh : (id : RequestId) → s.1.request_id ≤ id → lookup id s.0.pending_batches.batches ≡ none
  pub span : s.1.request_id + s.0.target_head_slot + 2 < u64 + start_of s.0 s.0.to_be_downloaded_id
  pub single : (peer : PeerId) → length (requests_of s.0.pending_batches peer) ≤ 1
  pub room : length s.0.completed_batches + length s.0.pending_batches.batches ≤ 6

first_idle-peer_is_idle :
    (p : PendingBatches) (peers : List PeerId) (peer : PeerId)
    → first_idle p peers ≡ some peer
    → peer_is_idle p peer ≡ true
first_idle-peer_is_idle p [] peer e = cc
first_idle-peer_is_idle p (q ∷ qs) peer e = elim (Bool-cases (peer_is_idle p q)) [
  | inl free ↦
      let same : some q ≡ some peer = sym (rw free refl) ∙ e in
      subst (λ (x : Option PeerId). Idle x) same free
  | inr busy ↦ first_idle-peer_is_idle p qs peer (sym (rw busy refl) ∙ e)
]
  where
    Idle : Option PeerId → Type 0
    Idle none = Unit
    Idle (some x) = peer_is_idle p x ≡ true

length-insert :
    (k : ℕ) (b : Batch) (d : Dict Batch)
    → lookup k d ≡ none
    → length (insert k b d) ≡ suc (length d)
length-insert k b [] e = refl
length-insert k b ((j, x) ∷ d) e = elim (Bool-cases (k == j)) [
  | inl same ↦ let found : lookup k ((j, x) ∷ d) ≡ some x = (rw (lookup, same) refl) in cc
  | inr other ↦
      rw (insert, other) (ground (arith, length-insert k b d (sym (rw (lookup, other) refl) ∙ e)))
]

module _ (c : SyncingChain) (n : SyncNetworkContext) (h : IsServed (c, n)) (b : Batch)
    (free : peer_is_idle c.pending_batches b.current_peer ≡ true) (place : is_full c ≡ false)
    (due : start_of c c.to_be_downloaded_id ≤ c.target_head_slot) where
  no_requests : requests_of c.pending_batches b.current_peer ≡ []
  no_requests = elim (Option-cases (lookup b.current_peer c.pending_batches.peer_requests)) [
    | inl e ↦ rw e refl
    | inr (ids, e) ↦
        let busy : peer_is_idle c.pending_batches b.current_peer ≡ false = (rw e refl) in cc
  ]

  single_after :
      (peer : PeerId)
      → length (requests_of (insert_batch n.request_id b c.pending_batches) peer) ≤ 1
  unfolding insert_batch
  single_after peer =
      let at =
        lookup-insert peer b.current_peer (n.request_id ∷ []) c.pending_batches.peer_requests in
      elim (Bool-cases (peer == b.current_peer)) [
        | inl own ↦
            let one : requests_of (insert_batch n.request_id b c.pending_batches) peer
                ≡ n.request_id ∷ [] =
              rw (no_requests) (rw (at, own) refl) in
            rw one (omega arith)
        | inr other ↦
            let kept : requests_of (insert_batch n.request_id b c.pending_batches) peer
                ≡ requests_of c.pending_batches peer =
              rw (no_requests) (rw (at, other) refl) in
            rw kept (h.single peer)
      ]

  sent-IsServed : IsServed (send_batch b (advanced c, n))
  unfolding send_batch insert_batch
  sent-IsServed =
      let a = advanced-IsPlanned c h.plan due in
      let new = h.fresh n.request_id (omega arith) in
      let more : (n.request_id + 1) % u64 ≡ n.request_id + 1 = omega (arith, h.span, due) in
      elim (Bool-cases n.network_send.is_open) [
        | inr shut ↦
            rw (send_batch, shut)
              (record {
                plan = a;
                index = h.index;
                fresh = λ id le. h.fresh id (omega (arith, le, more));
                span = omega (arith, h.span, more, h.plan.first);
                single = h.single;
                room = h.room;
              })
        | inl open' ↦
            rw (send_batch, open')
              (record {
                plan = record { first = a.first; low = a.low; target = a.target; ahead = a.ahead };
                index = insert_batch-IsIndexed n.request_id b c.pending_batches h.index new;
                fresh = λ id le. fresh_after id (omega (arith, le, more));
                span = omega (arith, h.span, more, h.plan.first);
                single = single_after;
                room =
                    ground
                      (arith, place, length-insert n.request_id b c.pending_batches.batches new);
              })
      ]
    where
      fresh_after :
          (id : RequestId)
          → n.request_id + 1 ≤ id
          → lookup id (insert n.request_id b c.pending_batches.batches) ≡ none
      fresh_after id le = ground (
        arith,
        lookup-insert id n.request_id b c.pending_batches.batches,
        h.fresh id (omega (arith, le)),
      )

module _ (shuffle : ℕ → List PeerId → List PeerId) (batch_hash : List Block → ℕ) where
  round-IsServed : (s : Sync) → IsServed s → IsServed (round shuffle batch_hash s).0
  round-IsServed (c, n) h = elim (send_range_request-Round shuffle batch_hash c n h.plan) [
    | idle e ↦ rw e (record {
      plan = record {
        first = h.plan.first;
        low = h.plan.low;
        target = h.plan.target;
        ahead = h.plan.ahead;
      };
      index = h.index;
      fresh = h.fresh;
      span = h.span;
      single = h.single;
      room = h.room;
    })
    | sends peer found place due e ↦ rw e (
        sent-IsServed c n h (batch_of c peer c.to_be_downloaded_id)
          (first_idle-peer_is_idle c.pending_batches (shuffle c.shuffles c.peer_pool) peer found)
          place due)
  ]

  -- However the peers are shuffled, the loop of requests keeps this: the maps of the requests agree,
  -- no request that waits has a number that is still to be given out, no peer has two requests at
  -- once, and at most six batches are held, one more than the buffer's size, for a plan whose numbers
  -- stay clear of 64 bits.
  pub request_batches-IsServed :
      (s : Sync) → IsServed s → IsServed (request_batches shuffle batch_hash s)
  request_batches-IsServed s h =
      request_batches_keeps shuffle batch_hash {P = IsServed} round-IsServed s h
