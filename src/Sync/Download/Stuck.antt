-- ===== src/Sync/Download/Stuck.antt =====
-- What becomes of a download after an answer that is out of its range: `handle_completed_batch` of
-- network/src/sync/range_sync/chain.rs drops the batch.
pub mod Kept
pub mod Course
use ori.Base.{
  ℕ, zero, suc, ◌+◌, ◌-◌, ◌*◌, ◌%◌, ◌<◌, ◌≤◌, ◌^◌, ◌≡◌, ◌≢◌, refl, sym, ◌∙◌, ap, subst, false, true,
  Bool, Option, none, some, List, [], ◌∷◌, ◌++◌, arith, ltb, leb, ◌==◌, if◌then◌else◌, Bool-cases,
  Option-cases, inl, inr, add, Distinct, eq_of_==, ◌>>=◌, is_some,
}
use ori.Base.Dict.{
  Dict, lookup, insert, erase, keys, lookup-insert, lookup-erase, insert-Distinct, erase-Distinct,
}
use ori.Types.Hash.{Hash}
use ori.Types.Block.{Block}
use ori.Network.Message.{PeerId, RequestId}
use ori.Network.Context.{SyncNetworkContext, downvote_peer}
use ori.Sync.Message.{BatchProcessResult}
use ori.Sync.Batch.{Batch, PendingBatches, insert_batch, drop_request, remove_batch, add_block}
use ori.Sync.Download.{
  SyncingChain, Sync, is_syncing, syncing, last_of, last_id, current_processed_slot, send_batch,
  insert_sorted, process_first, process_completed_batches, out_of_range, handle_completed_batch,
  on_block_response, on_batch_process_result, request_batches, add_peer, start_syncing,
}
use ori.Sync.Download.Plan.{IsPlanned, start_of, batch_of}
use ori.Sync.Download.Rounds.{
  advanced, advanced-IsPlanned, send_batch-IsPlanned, round, Round, idle, sends,
  send_range_request-Round, request_batches_keeps,
}

-- No batch has this id, and all have ids below another.
abbrev pub Clear : ℕ → ℕ → List Batch → Type 0
Clear k m [] = Unit
Clear k m (b ∷ bs) = (b.id ≢ k) × (b.id < m) × Clear k m bs

pub Clear_mono : (k m m' : ℕ) (bs : List Batch) → m ≤ m' → Clear k m bs → Clear k m' bs
Clear_mono k m m' [] le h = tt
Clear_mono k m m' (b ∷ bs) le h = (h.0, omega (arith, h.1, le), Clear_mono k m m' bs le h.2)

pub insert_sorted-Clear :
    (k m : ℕ) (b : Batch) (bs : List Batch)
    → b.id ≢ k
    → b.id < m
    → Clear k m bs
    → Clear k m (insert_sorted b bs)
insert_sorted-Clear k m b [] ne lt h = (ne, lt, tt)
insert_sorted-Clear k m b (x ∷ xs) ne lt h = elim (Bool-cases (leb b.id x.id)) [
  | inl e ↦ rw (insert_sorted, e) (ne, lt, h)
  | inr e ↦ rw (insert_sorted, e) (h.0, h.1, insert_sorted-Clear k m b xs ne lt h.2)
]

pub Clear_last : (k m : ℕ) (bs : List Batch) → 1 ≤ m → Clear k m bs → last_id (last_of bs) < m
Clear_last k m [] le h = omega (arith, le)
Clear_last k m (x ∷ []) le h = h.1
Clear_last k m (x ∷ y ∷ ys) le h = Clear_last k m (y ∷ ys) le h.2

-- Nothing with the id that is to be processed next is on its way, and the plan is past it.
pub record IsStuck (k : ℕ) (spawned : List (ℕ × List Block)) (c : SyncingChain) : Type 0 where
  pub plan : IsPlanned c
  pub next : c.to_be_processed_id ≡ k
  pub past : k < c.to_be_downloaded_id
  pub idle' : c.current_processing_batch ≡ none
  pub pending :
      (id : RequestId) (b : Batch)
      → lookup id c.pending_batches.batches ≡ some b
      → (b.id ≢ k) × (b.id < c.to_be_downloaded_id)
  pub once : Distinct (keys c.pending_batches.batches)
  pub waiting : Clear k c.to_be_downloaded_id c.completed_batches
  pub same : c.spawned ≡ spawned

module _ (k : ℕ) (spawned : List (ℕ × List Block)) where
  abbrev pub P : Sync → Type 0
  P (c, n) = IsStuck k spawned c

  pub advanced-IsStuck :
      (c : SyncingChain)
      → IsStuck k spawned c
      → start_of c c.to_be_downloaded_id ≤ c.target_head_slot
      → IsStuck k spawned (advanced c)
  advanced-IsStuck c h le = record {
    plan = advanced-IsPlanned c h.plan le;
    next = h.next;
    past = omega (arith, h.past);
    idle' = h.idle';
    pending = λ id b e. let (ne, lt) = h.pending id b e in (ne, omega (arith, lt));
    once = h.once;
    waiting =
        Clear_mono k c.to_be_downloaded_id (c.to_be_downloaded_id + 1) c.completed_batches
          (omega arith) h.waiting;
    same = h.same;
  }

  -- The pending batches change, with a plan that stays.
  pub with_pending :
      (c : SyncingChain) (p : PendingBatches)
      → IsStuck k spawned c
      → Distinct (keys p.batches)
      → ((id : RequestId) (b : Batch)
          → lookup id p.batches ≡ some b
          → (b.id ≢ k) × (b.id < c.to_be_downloaded_id))
      → IsStuck k spawned (record c { pending_batches = p })
  with_pending c p h once' f = record {
    plan = record {
      first = h.plan.first;
      low = h.plan.low;
      target = h.plan.target;
      ahead = h.plan.ahead;
    };
    next = h.next;
    past = h.past;
    idle' = h.idle';
    pending = f;
    once = once';
    waiting = h.waiting;
    same = h.same;
  }

  abbrev pub Fresh : SyncingChain → Option Batch → Type 0
  Fresh c none = Unit
  Fresh c (some b) = (b.id ≢ k) × (b.id < c.to_be_downloaded_id)

  -- A batch with a fresh id comes among the pending ones.
  pub replaced :
      (c : SyncingChain) (id : RequestId) (b : Batch)
      → IsStuck k spawned c
      → Fresh c (some b)
      → (j : RequestId) (d : Batch) → lookup j (insert id b c.pending_batches.batches) ≡ some d
      → (d.id ≢ k) × (d.id < c.to_be_downloaded_id)
  replaced c id b h f j d e = elim (Bool-cases (j == id)) [
    | inl same ↦
        let both : some b ≡ some d =
          sym (lookup-insert j id b c.pending_batches.batches ∙ (rw same refl)) ∙ e in
        subst (λ (x : Option Batch). Fresh c x) both f
    | inr other ↦
        h.pending j d (sym (lookup-insert j id b c.pending_batches.batches ∙ (rw other refl)) ∙ e)
  ]

  abbrev pub Kept : SyncingChain → Option PendingBatches → Type 0
  Kept c none = Unit
  Kept c (some p) = IsStuck k spawned (record c { pending_batches = p })

  pub send_batch-IsStuck :
      (b : Batch) (c : SyncingChain) (n : SyncNetworkContext)
      → IsStuck k spawned c
      → b.id ≢ k
      → b.id < c.to_be_downloaded_id
      → P (send_batch b (c, n))
  unfolding send_batch insert_batch
  send_batch-IsStuck b c n h ne lt = elim (Bool-cases n.network_send.is_open) [
    | inr shut ↦ rw (send_batch, shut) h
    | inl open' ↦
        rw (send_batch, open')
          (with_pending c (insert_batch n.request_id b c.pending_batches) h
            (insert-Distinct n.request_id b c.pending_batches.batches h.once)
            (replaced c n.request_id b h (ne, lt)))
  ]
