-- ===== src/Sync/Download/Stuck/Kept.antt =====
-- What keeps a stalled download of network/src/sync/range_sync/chain.rs as it is.
use ori.Base.{
  ℕ, ◌+◌, ◌≡◌, ◌≢◌, refl, sym, ◌∙◌, subst, false, none, some, List, [], ◌∷◌, ◌++◌, arith, ◌==◌,
  Bool-cases, Option-cases, inl, inr, Distinct, is_some,
}
use ori.Base.Dict.{lookup, insert, erase, keys, lookup-erase, insert-Distinct, erase-Distinct}
use ori.Types.Block.{Block}
use ori.Network.Message.{PeerId, RequestId}
use ori.Network.Context.{SyncNetworkContext}
use ori.Sync.Batch.{Batch, PendingBatches, drop_request, remove_batch, add_block}
use ori.Sync.Download.{
  SyncingChain, Sync, is_syncing, insert_sorted, process_first, process_completed_batches,
  out_of_range, handle_completed_batch, on_block_response, request_batches,
}
use ori.Sync.Download.Plan.{batch_of}
use ori.Sync.Download.Rounds.{
  advanced, round, idle, sends, send_range_request-Round, request_batches_keeps,
}
use ori.Sync.Download.Stuck.{
  Clear, insert_sorted-Clear, Clear_last, IsStuck, P, advanced-IsStuck, with_pending, replaced,
  Kept, send_batch-IsStuck,
}

module _ (k : ℕ) (spawned : List (ℕ × List Block)) where
  module _ (shuffle : ℕ → List PeerId → List PeerId) (batch_hash : List Block → ℕ) where
    idle-IsStuck :
        (c : SyncingChain)
        → IsStuck k spawned c
        → IsStuck k spawned (record c { shuffles = c.shuffles + 1 })
    idle-IsStuck c h = record {
      plan = record {
        first = h.plan.first;
        low = h.plan.low;
        target = h.plan.target;
        ahead = h.plan.ahead;
      };
      next = h.next;
      past = h.past;
      idle' = h.idle';
      pending = h.pending;
      once = h.once;
      waiting = h.waiting;
      same = h.same;
    }

    round-IsStuck : (s : Sync) → P k spawned s → P k spawned (round shuffle batch_hash s).0
    round-IsStuck (c, n) h = elim (send_range_request-Round shuffle batch_hash c n h.plan) [
      | idle e ↦ rw e (idle-IsStuck c h)
      | sends peer p room le e ↦ rw e (
          send_batch-IsStuck k spawned (batch_of c peer c.to_be_downloaded_id) (advanced c) n
            (advanced-IsStuck k spawned c h le) (omega (arith, h.past)) (omega arith))
    ]

    pub requests-IsStuck :
        (s : Sync) → P k spawned s → P k spawned (request_batches shuffle batch_hash s)
    requests-IsStuck s h =
        request_batches_keeps shuffle batch_hash {P = P k spawned} round-IsStuck s h

    -- With the next id nowhere, nothing is given to the processor.
    pub process_completed_batches_waits :
        (c : SyncingChain) → IsStuck k spawned c → process_completed_batches c ≡ c
    unfolding process_completed_batches
    process_completed_batches_waits c h =
        let free : is_some c.current_processing_batch ≡ false = (rw h.idle' refl) in
        elim (Bool-cases (is_syncing c.state)) [
          | inr off ↦ rw (process_completed_batches, off) refl
          | inl on ↦ rw (process_completed_batches, on, free) (go c.completed_batches h.waiting)
        ]
      where
        go : (bs : List Batch) → Clear k c.to_be_downloaded_id bs → process_first bs c ≡ c
        go [] w = refl
        go (b ∷ bs) w = ground (arith, w.0, h.next)

    processed-IsStuck :
        (s : Sync) → P k spawned s → P k spawned (process_completed_batches s.0, s.1)
    processed-IsStuck (c, n) h =
        subst (IsStuck k spawned) (sym (process_completed_batches_waits c h)) h

    -- A block of a batch that waits.
    pub add_block-IsStuck :
        (id : RequestId) (x : Block) (c : SyncingChain) (p : PendingBatches)
        → IsStuck k spawned c
        → add_block id x c.pending_batches ≡ some p
        → IsStuck k spawned (record c { pending_batches = p })
    unfolding add_block
    add_block-IsStuck id x c p h e = elim (Option-cases (lookup id c.pending_batches.batches)) [
      | inl gone ↦
          let no : add_block id x c.pending_batches ≡ none = (rw (add_block, gone) refl) in cc
      | inr (b, found) ↦
          let b' : Batch = record b { downloaded_blocks = b.downloaded_blocks ++ x ∷ [] } in
          let p' : PendingBatches = record (c.pending_batches) {
            batches = insert id b' c.pending_batches.batches;
          } in
          let made : some p' ≡ some p = sym (rw (add_block, found) refl) ∙ e in
          subst (Kept k spawned c) made (
            with_pending k spawned c p' h (insert-Distinct id b' c.pending_batches.batches h.once)
              (replaced k spawned c id b' h (h.pending id b found)))
    ]

    abbrev pub removed : RequestId → Batch → SyncingChain → SyncingChain
    removed id b c = record c {
      pending_batches = record {
        batches = erase id c.pending_batches.batches;
        peer_requests = drop_request id b.current_peer c.pending_batches.peer_requests;
      };
    }

    pub erased :
        (id : RequestId) (c : SyncingChain)
        → Distinct (keys c.pending_batches.batches)
        → (j : RequestId) (d : Batch) → lookup j (erase id c.pending_batches.batches) ≡ some d
        → (j ≢ id) × (lookup j c.pending_batches.batches ≡ some d)
    erased id c once j d e =
        let at = lookup-erase j id c.pending_batches.batches once in
        elim (Bool-cases (j == id)) [
          | inl same ↦
              let gone : lookup j (erase id c.pending_batches.batches) ≡ none =
                at ∙ (rw same refl) in
              cc
          | inr other ↦ (ground (arith, other), sym (at ∙ (rw other refl)) ∙ e)
        ]

    -- A batch that leaves the pending ones for the completed ones.
    arrived-IsStuck :
        (id : RequestId) (b : Batch) (c : SyncingChain)
        → IsStuck k spawned c
        → lookup id c.pending_batches.batches ≡ some b
        → IsStuck k spawned
            (record (removed id b c) { completed_batches = insert_sorted b c.completed_batches })
    arrived-IsStuck id b c h found =
        let (ne, lt) = h.pending id b found in
        let w = insert_sorted-Clear k c.to_be_downloaded_id b c.completed_batches ne lt h.waiting in
        record {
          plan = record {
            first = h.plan.first;
            low = h.plan.low;
            target = h.plan.target;
            ahead =
                Clear_last k c.to_be_downloaded_id (insert_sorted b c.completed_batches)
                  h.plan.first w;
          };
          next = h.next;
          past = h.past;
          idle' = h.idle';
          pending = λ j d e. h.pending j d ((erased id c h.once j d e).1);
          once = erase-Distinct id c.pending_batches.batches h.once;
          waiting = w;
          same = h.same;
        }

    pub taken :
        (id : RequestId) (b : Batch) (c : SyncingChain)
        → lookup id c.pending_batches.batches ≡ some b
        → remove_batch id c.pending_batches ≡ ((removed id b c).pending_batches, some b)
    unfolding remove_batch
    taken id b c found = rw (remove_batch, found) refl

    -- The end of an answer that is in its range.
    pub on_block_response-IsStuck :
        (id : RequestId) (b : Batch) (c : SyncingChain) (n : SyncNetworkContext)
        → IsStuck k spawned c
        → lookup id c.pending_batches.batches ≡ some b
        → out_of_range b ≡ false
        → P k spawned (on_block_response shuffle batch_hash id none (c, n)).0
    unfolding on_block_response handle_completed_batch
    on_block_response-IsStuck id b c n h found fine =
        rw (on_block_response, taken id b c found, handle_completed_batch, fine)
          (processed-IsStuck
            (request_batches shuffle batch_hash (
              record (removed id b c) { completed_batches = insert_sorted b c.completed_batches },
              n,
            ))
            (requests-IsStuck
              (
                record (removed id b c) { completed_batches = insert_sorted b c.completed_batches },
                n,
              )
              (arrived-IsStuck id b c h found)))
