-- ===== src/Sync/Download/Stuck/Course.antt =====
-- The further course of a download of network/src/sync/range_sync/chain.rs after a batch was dropped.
use ori.Base.{
  ℕ, ◌<◌, ◌≤◌, ◌^◌, ◌≡◌, ◌≢◌, refl, false, true, Option, none, some, List, arith, ltb, Option-cases,
  inl, inr, add, Distinct,
}
use ori.Base.Dict.{lookup, keys, erase-Distinct}
use ori.Types.Hash.{Hash}
use ori.Types.Block.{Block}
use ori.Network.Message.{PeerId, RequestId}
use ori.Network.Context.{SyncNetworkContext}
use ori.Sync.Message.{BatchProcessResult}
use ori.Sync.Batch.{Batch, add_block}
use ori.Sync.Download.{
  SyncingChain, Sync, syncing, current_processed_slot, out_of_range, handle_completed_batch,
  on_block_response, on_batch_process_result, add_peer, start_syncing,
}
use ori.Sync.Download.Plan.{IsPlanned}
use ori.Sync.Download.Stuck.{Clear, IsStuck, P}
use ori.Sync.Download.Stuck.Kept.{
  requests-IsStuck, process_completed_batches_waits, add_block-IsStuck, removed, erased, taken,
  on_block_response-IsStuck,
}

module _ (shuffle : ℕ → List PeerId → List PeerId) (batch_hash : List Block → ℕ) where
  -- What happens to a download later on: blocks arrive, answers in their range end, peers come, the
  -- sync is started again without news of the node's own chain, results come, and the target moves.
  pub data Step : Sync → Sync → Type 0 where
    block_arrives :
        (id : RequestId) (x : Block) (s : Sync)
        → Step s (on_block_response shuffle batch_hash id (some x) s).0
    batch_ends :
        (id : RequestId) (b : Batch) (c : SyncingChain) (n : SyncNetworkContext)
        → lookup id c.pending_batches.batches ≡ some b
        → out_of_range b ≡ false
        → Step (c, n) (on_block_response shuffle batch_hash id none (c, n)).0
    peer_comes : (peer : PeerId) (s : Sync) → Step s (add_peer shuffle batch_hash peer s)
    starts :
        (local : ℕ) (c : SyncingChain) (n : SyncNetworkContext)
        → local ≤ current_processed_slot c
        → Step (c, n) (start_syncing shuffle batch_hash local (c, n))
    result_comes :
        (id : ℕ) (blocks : Option (List Block)) (result : BatchProcessResult) (s : Sync)
        → Step s (on_batch_process_result shuffle batch_hash id blocks result s).0
    target_moves :
        (slot : ℕ) (root : Hash) (c : SyncingChain) (n : SyncNetworkContext)
        → slot < 2 ^ 62
        → Step (c, n) (record c { target_head_slot = slot; target_head_root = root }, n)

  pub data Steps : Sync → Sync → Type 0 where
    stays : {s : Sync} → Steps s s
    goes : {s s₁ s' : Sync} → Step s s₁ → Steps s₁ s' → Steps s s'

module _ (k : ℕ) (spawned : List (ℕ × List Block)) where
  module _ (shuffle : ℕ → List PeerId → List PeerId) (batch_hash : List Block → ℕ) where
    block_arrives-IsStuck :
        (id : RequestId) (x : Block) (c : SyncingChain) (n : SyncNetworkContext)
        → IsStuck k spawned c
        → P k spawned (on_block_response shuffle batch_hash id (some x) (c, n)).0
    unfolding on_block_response
    block_arrives-IsStuck id x c n h = elim (Option-cases (add_block id x c.pending_batches)) [
      | inl e ↦ rw (on_block_response, e) h
      | inr (p, e) ↦
          rw (on_block_response, e) (add_block-IsStuck k spawned shuffle batch_hash id x c p h e)
    ]

    Step-IsStuck : {s s' : Sync} → Step shuffle batch_hash s s' → P k spawned s → P k spawned s'
    unfolding add_peer start_syncing on_batch_process_result
    Step-IsStuck (block_arrives id x (c, n)) h = block_arrives-IsStuck id x c n h
    Step-IsStuck (batch_ends id b c n found fine) h =
        on_block_response-IsStuck k spawned shuffle batch_hash id b c n h found fine
    Step-IsStuck (peer_comes peer (c, n)) h =
        requests-IsStuck k spawned shuffle batch_hash
          (record c { peer_pool = add peer c.peer_pool }, n)
          (record {
            plan = record {
              first = h.plan.first;
              low = h.plan.low;
              target = h.plan.target;
              ahead = h.plan.ahead;
            };
            next = h.next;
            past = h.past;
            idle' = h.idle';
            pending = h.pending;
            once = h.once;
            waiting = h.waiting;
            same = h.same;
          })
    Step-IsStuck (starts local c n le) h =
        let none_new : ltb (current_processed_slot c) local ≡ false = ground (arith, le) in
        let c₁ : SyncingChain = record c { state = syncing } in
        let h₁ : IsStuck k spawned c₁ = record {
          plan = record {
            first = h.plan.first;
            low = h.plan.low;
            target = h.plan.target;
            ahead = h.plan.ahead;
          };
          next = h.next;
          past = h.past;
          idle' = h.idle';
          pending = h.pending;
          once = h.once;
          waiting = h.waiting;
          same = h.same;
        } in
        rw
          (
            start_syncing,
            none_new,
            process_completed_batches_waits k spawned shuffle batch_hash c₁ h₁,
          )
          (requests-IsStuck k spawned shuffle batch_hash (c₁, n) h₁)
    Step-IsStuck (result_comes id blocks result (c, n)) h = rw (on_batch_process_result, h.idle') h
    Step-IsStuck (target_moves slot root c n lt) h = record {
      plan = record { first = h.plan.first; low = h.plan.low; target = lt; ahead = h.plan.ahead };
      next = h.next;
      past = h.past;
      idle' = h.idle';
      pending = h.pending;
      once = h.once;
      waiting = h.waiting;
      same = h.same;
    }

    Steps-IsStuck : {s s' : Sync} → Steps shuffle batch_hash s s' → P k spawned s → P k spawned s'
    Steps-IsStuck stays h = h
    Steps-IsStuck (goes step rest) h = Steps-IsStuck rest (Step-IsStuck step h)

-- A batch that waits for its answer while none is processed, and no other batch has its id.
pub record IsAlone (id : RequestId) (b : Batch) (c : SyncingChain) : Type 0 where
  pub plan : IsPlanned c
  pub found : lookup id c.pending_batches.batches ≡ some b
  pub free : c.current_processing_batch ≡ none
  pub once : Distinct (keys c.pending_batches.batches)
  pub known :
      (j : RequestId) (d : Batch)
      → lookup j c.pending_batches.batches ≡ some d
      → d.id < c.to_be_downloaded_id
  pub others :
      (j : RequestId) (d : Batch)
      → lookup j c.pending_batches.batches ≡ some d
      → j ≢ id
      → d.id ≢ b.id
  pub waiting : Clear b.id c.to_be_downloaded_id c.completed_batches

module _ (shuffle : ℕ → List PeerId → List PeerId) (batch_hash : List Block → ℕ) where
  dropped-IsStuck :
      (id : RequestId) (b : Batch) (c : SyncingChain)
      → IsAlone id b c
      → IsStuck b.id c.spawned
          (record (removed b.id c.spawned shuffle batch_hash id b c) { to_be_processed_id = b.id })
  dropped-IsStuck id b c a = record {
    plan = record {
      first = a.plan.first;
      low = a.plan.low;
      target = a.plan.target;
      ahead = a.plan.ahead;
    };
    next = refl;
    past = a.known id b a.found;
    idle' = a.free;
    pending = λ j d e.
        let (other, there) = erased b.id c.spawned shuffle batch_hash id c a.once j d e in
        (a.others j d there other, a.known j d there);
    once = erase-Distinct id c.pending_batches.batches a.once;
    waiting = a.waiting;
    same = refl;
  }

  -- When the stream of a batch ends that waits alone, with blocks that are out of its range and while
  -- no batch is processed, the batch is dropped for good: through any further course of blocks, of
  -- answers in their range, of peers, of starts without news of the node's own chain, of results and
  -- of targets below 2 ^ 62, nothing more is given to the processor, the next id to process stays the
  -- dropped one's, and the plan stays past it.
  pub out_of_range_stalls :
      (id : RequestId) (b : Batch) (c : SyncingChain) (n : SyncNetworkContext) (s' : Sync)
      → IsAlone id b c
      → out_of_range b ≡ true
      → Steps shuffle batch_hash (on_block_response shuffle batch_hash id none (c, n)).0 s'
      → (s'.0.spawned ≡ c.spawned)
        × (s'.0.to_be_processed_id ≡ b.id)
        × (b.id < s'.0.to_be_downloaded_id)
  unfolding on_block_response handle_completed_batch
  out_of_range_stalls id b c n s' a bad steps =
      let stuck = Steps-IsStuck b.id c.spawned shuffle batch_hash steps (
        rw
          (
            on_block_response,
            taken b.id c.spawned shuffle batch_hash id b c a.found,
            handle_completed_batch,
            bad,
          )
          (dropped-IsStuck id b c a)) in
      (stuck.same, stuck.next, stuck.past)
