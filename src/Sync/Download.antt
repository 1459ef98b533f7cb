-- ===== src/Sync/Download.antt =====
-- `SyncingChain` of network/src/sync/range_sync/chain.rs: the download of a range of blocks from a pool
-- of peers, batch by batch. A chain is passed on together with the network that it talks to. The
-- thread that processes a batch stands for an entry of `spawned`; its result comes back as a message.
pub mod Plan
pub mod Answers
pub mod Rounds
pub mod Requests
pub mod Stuck
use ori.Base.{
  ℕ, zero, suc, ◌+◌, ◌-◌, ◌*◌, ◌%◌, Bool, true, false, not, ◌&&◌, ◌||◌, Option, none, some, List,
  [], ◌∷◌, ◌++◌, ◌==◌, ltb, leb, if◌then◌else◌, is_some, add, length,
}
use ori.Types.Hash.{Hash}
use ori.Types.Block.{Block}
use ori.Balance.{u64}
use ori.Network.Message.{PeerId, RequestId, StatusMessage}
use ori.Network.Context.{SyncNetworkContext, blocks_by_range_request, downvote_peer, status_peer}
use ori.Sync.Message.{BatchProcessResult, succeeded, failed}
use ori.Sync.Batch.{
  Batch, blocks_per_batch, min, new_batch, to_blocks_by_range_request, PendingBatches, new_pending,
  insert_batch, remove_batch, add_block, peer_is_idle,
}
pub use ori.Sync.State.{
  SyncingState, stopped, syncing, SyncingChain, new_chain, Sync, ProcessingResult, keep_chain,
  remove_chain, batch_buffer_size, invalid_batch_lookup_attempts, sat_add, max, last_of, last_id,
  is_syncing, current_processed_slot,
}

-- `get_next_batch`, with the chain that it leaves
pub get_next_batch : PeerId → SyncingChain → SyncingChain × Option Batch
get_next_batch peer_id c =
    let batch_start =
      (c.start_number + ((c.to_be_downloaded_id - 1) * blocks_per_batch) % u64 + 1) % u64 in
    let batch_end = min ((batch_start + blocks_per_batch) % u64) (sat_add c.target_head_slot 1) in
    let max_completed_id = last_id (last_of c.completed_batches) in
    if ltb batch_buffer_size (length c.completed_batches + length c.pending_batches.batches)
    then (c, none)
    else if ltb c.target_head_slot batch_start
    then (c, none)
    else (
      record c {
        to_be_downloaded_id =
            max ((c.to_be_downloaded_id + 1) % u64) ((max_completed_id + 1) % u64);
      },
      some (new_batch c.to_be_downloaded_id batch_start batch_end c.target_head_root peer_id),
    )

pub send_batch : Batch → Sync → Sync
send_batch batch (c, n) =
    let (sent, n') =
      blocks_by_range_request batch.current_peer (to_blocks_by_range_request batch) n in
    elim sent [
      | none ↦ (c, n')
      | some request_id ↦
          (record c { pending_batches = insert_batch request_id batch c.pending_batches }, n')
    ]

-- What `send_range_request` does with the next batch, and whether there is one.
abbrev pub send_next : SyncingChain × Option Batch → SyncNetworkContext → Sync × Bool
send_next (c, none) n = ((c, n), false)
send_next (c, some batch) n = (send_batch batch (c, n), true)

-- The test of a loop.
abbrev pub go_on : Sync × Bool → (Sync → Sync) → Sync
go_on (s, true) rest = rest s
go_on (s, false) rest = s

-- The place that a binary search finds for a batch: in front of the first with its id or a later one.
abbrev pub insert_sorted : Batch → List Batch → List Batch
insert_sorted batch [] = batch ∷ []
insert_sorted batch (b ∷ bs) =
    if leb batch.id b.id then batch ∷ b ∷ bs else b ∷ insert_sorted batch bs

-- `process_batch`
abbrev pub process_batch : Batch → SyncingChain → SyncingChain
process_batch batch c = record c {
  current_processing_batch = some (record batch { downloaded_blocks = [] });
  spawned = (batch.id, batch.downloaded_blocks) ∷ c.spawned;
}

-- What it does with the batches that wait, when none is processed: the first goes if it is due.
abbrev pub process_first : List Batch → SyncingChain → SyncingChain
process_first [] c = c
process_first (batch ∷ rest) c =
    if batch.id == c.to_be_processed_id
    then process_batch batch (record c { completed_batches = rest })
    else c

pub process_completed_batches : SyncingChain → SyncingChain
process_completed_batches c =
    if not (is_syncing c.state)
    then c
    else if is_some c.current_processing_batch
    then c
    else process_first c.completed_batches c

-- The range check of `handle_completed_batch`: the first block before the range, or the last one
-- behind its end.
abbrev pub out_of_range : Batch → Bool
out_of_range batch = elim batch.downloaded_blocks [
  | [] ↦ false
  | first ∷ rest ↦ elim (last_of (first ∷ rest)) [
    | none ↦ false
    | some last ↦
        ltb first.header.height batch.start_number || ltb batch.end_number last.header.height
  ]
]

abbrev pub first_idle : PendingBatches → List PeerId → Option PeerId
first_idle p [] = none
first_idle p (peer ∷ peers) = if peer_is_idle p peer then some peer else first_idle p peers

module _ (shuffle : ℕ → List PeerId → List PeerId) (batch_hash : List Block → ℕ) where
  abbrev pub get_next_peer : SyncingChain → Option PeerId
  get_next_peer c = first_idle c.pending_batches (shuffle c.shuffles c.peer_pool)

  -- `send_range_request`, with whether a request was sent
  pub send_range_request : Sync → Sync × Bool
  send_range_request (c, n) =
      let c₁ = record c { shuffles = c.shuffles + 1 } in
      elim (get_next_peer c) [
        | none ↦ ((c₁, n), false)
        | some peer_id ↦ send_next (get_next_batch peer_id c₁) n
      ]

  -- The loop of `request_batches`.
  request_loop : ℕ → Sync → Sync
  request_loop zero s = s
  request_loop (suc fuel) s = go_on (send_range_request s) (request_loop fuel)

  pub request_batches : Sync → Sync
  unfolding request_loop
  request_batches (c, n) =
      if is_syncing c.state then request_loop (c.target_head_slot + 2) (c, n) else (c, n)

  pub handle_completed_batch : Batch → Sync → Sync
  handle_completed_batch batch (c, n) =
      if out_of_range batch
      then (record c { to_be_processed_id = batch.id }, downvote_peer batch.current_peer n)
      else let (c₁, n₁) =
          request_batches
            (record c { completed_batches = insert_sorted batch c.completed_batches }, n) in
        (process_completed_batches c₁, n₁)

  -- What the end of a stream does with the batch that is taken out.
  abbrev pub end_batch : PendingBatches × Option Batch → Sync → Sync × Bool
  end_batch (pending, none) s = (s, false)
  end_batch (pending, some batch) (c, n) =
      (handle_completed_batch batch (record c { pending_batches = pending }, n), true)

  -- `on_block_response`, with whether the request is one of the chain's
  pub on_block_response : RequestId → Option Block → Sync → Sync × Bool
  on_block_response request_id (some b) (c, n) = elim (add_block request_id b c.pending_batches) [
    | none ↦ ((c, n), false)
    | some pending ↦ ((record c { pending_batches = pending }, n), true)
  ]
  on_block_response request_id none (c, n) =
      end_batch (remove_batch request_id c.pending_batches) (c, n)

  -- The loop over the batches that await validation: the original peer of one that was replaced by
  -- another peer's version is sent away.
  validate_processed : List Batch → SyncNetworkContext → SyncNetworkContext
  validate_processed [] n = n
  validate_processed (b ∷ bs) n = validate_processed bs (elim b.original_hash [
    | none ↦ n
    | some prev_hash ↦
        if not (prev_hash == batch_hash b.downloaded_blocks)
          && not (b.current_peer == b.original_peer)
        then downvote_peer b.original_peer n
        else n
  ])

  -- The success branch of `on_batch_process_result`.
  on_success : Batch → Sync → Sync × ProcessingResult
  unfolding validate_processed
  on_success batch (c, n) =
      let (processed, n₁) : List Batch × SyncNetworkContext = (elim batch.downloaded_blocks [
        | [] ↦ (c.processed_batches, n)
        | _ ∷ _ ↦ ([], validate_processed c.processed_batches n)
      ]) in
      let whole : Bool = (elim (last_of batch.downloaded_blocks) [
        | none ↦ false
        | some b ↦ b.header.height == batch.end_number - 1
      ]) in
      let c₁ = record c {
        to_be_processed_id = (c.to_be_processed_id + 1) % u64;
        processed_batches = if whole then processed else processed ++ batch ∷ [];
      } in
      if leb c.target_head_slot (current_processed_slot c₁)
      then ((c₁, n₁), remove_chain)
      else let (c₂, n₂) = request_batches (c₁, n₁) in
        ((process_completed_batches c₂, n₂), keep_chain)

  -- The failure branch.
  on_failure : Batch → Sync → Sync × ProcessingResult
  on_failure batch (c, n) =
      if ltb invalid_batch_lookup_attempts batch.reprocess_retries
      then ((record c { peer_pool = [] }, drain c.peer_pool n), remove_chain)
      else ((c, n), keep_chain)
    where
      drain : List PeerId → SyncNetworkContext → SyncNetworkContext
      drain [] m = m
      drain (p ∷ ps) m = drain ps (downvote_peer p m)

  -- `on_batch_process_result`: the blocks are taken, and `none` means that the result is not for this
  -- chain.
  pub on_batch_process_result :
      ℕ
      → Option (List Block)
      → BatchProcessResult
      → Sync
      → Sync × Option (List Block) × Option ProcessingResult
  unfolding on_success on_failure
  on_batch_process_result batch_id blocks result (c, n) = elim c.current_processing_batch [
    | none ↦ ((c, n), blocks, none)
    | some current ↦
        let c₁ = record c { current_processing_batch = none } in
        if not (current.id == batch_id) then ((c, n), blocks, none) else elim blocks [
          | none ↦ ((c₁, n), none, none)
          | some downloaded ↦
              let batch = record current { downloaded_blocks = downloaded } in
              elim result [
                | succeeded ↦ let (s, verdict) = on_success batch (c₁, n) in (s, none, some verdict)
                | failed ↦ let (s, verdict) = on_failure batch (c₁, n) in (s, none, some verdict)
              ]
        ]
  ]

  pub add_peer : PeerId → Sync → Sync
  add_peer peer_id (c, n) = request_batches (record c { peer_pool = add peer_id c.peer_pool }, n)

  pub start_syncing : ℕ → Sync → Sync
  start_syncing local_finalized_number (c, n) =
      let c₁ : SyncingChain =
        if ltb (current_processed_slot c) local_finalized_number
        then record c {
          to_be_downloaded_id = 1;
          to_be_processed_id = 1;
          completed_batches = [];
          processed_batches = [];
        }
        else c in
      request_batches (process_completed_batches (record c₁ { state = syncing }), n)

-- `status_peers`
pub status_peers : StatusMessage → List PeerId → SyncNetworkContext → SyncNetworkContext
status_peers message [] n = n
status_peers message (p ∷ ps) n = status_peers message ps (status_peer message p n)
