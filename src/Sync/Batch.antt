-- ===== src/Sync/Batch.antt =====
-- network/src/sync/range_sync/batch.rs: batches of blocks, and the requests for them that wait for an
-- answer. A `HashSet` is a list without repetitions.
pub mod Index
use ori.Base.{
  ℕ, ◌-◌, Bool, true, false, not, Option, none, some, List, [], ◌∷◌, ◌++◌, ◌==◌, leb, if◌then◌else◌,
  is_some, add, discard, ◌>>=◌,
}
use ori.Base.Dict.{Dict, lookup, insert, erase}
use ori.Types.Hash.{Hash}
use ori.Types.Block.{Block}
use ori.Network.Message.{PeerId, RequestId, BlocksByRangeRequest}

pub record Batch : Type 0 where
  pub id : ℕ
  pub start_number : ℕ
  pub end_number : ℕ
  pub head_root : Hash
  pub original_peer : PeerId
  pub current_peer : PeerId
  pub retries : ℕ
  pub reprocess_retries : ℕ
  pub original_hash : Option ℕ
  pub downloaded_blocks : List Block

-- `BLOCKS_PER_BATCH`
abbrev pub blocks_per_batch : ℕ
blocks_per_batch = 5

abbrev pub min : ℕ → ℕ → ℕ
min a b = if leb a b then a else b

-- `Batch::new`
abbrev pub new_batch : ℕ → ℕ → ℕ → Hash → PeerId → Batch
new_batch id start_number end_number head_root peer_id = record {
  id = id;
  start_number = start_number;
  end_number = end_number;
  head_root = head_root;
  original_peer = peer_id;
  current_peer = peer_id;
  retries = 0;
  reprocess_retries = 0;
  original_hash = none;
  downloaded_blocks = [];
}

abbrev pub to_blocks_by_range_request : Batch → BlocksByRangeRequest
to_blocks_by_range_request b = record {
  head_block_root = b.head_root;
  start_slot = b.start_number;
  count = min blocks_per_batch (b.end_number - b.start_number);
  step = 1;
}

pub record PendingBatches : Type 0 where
  pub batches : Dict Batch
  pub peer_requests : Dict (List RequestId)

abbrev pub new_pending : PendingBatches
new_pending = record { batches = []; peer_requests = [] }

abbrev pub ids_of : Option (List RequestId) → List RequestId
ids_of (some ids) = ids
ids_of none = []

-- The requests of a peer; one without an entry has none.
abbrev pub requests_of : PendingBatches → PeerId → List RequestId
requests_of p peer = ids_of (lookup peer p.peer_requests)

-- `insert`, without the batch that it replaces
unfoldable pub insert_batch : RequestId → Batch → PendingBatches → PendingBatches
insert_batch request_id batch p = record {
  batches = insert request_id batch p.batches;
  peer_requests =
      insert batch.current_peer (add request_id (requests_of p batch.current_peer)) p.peer_requests;
}

-- The peer's side of `remove`: an entry that becomes empty goes.
abbrev pub drop_request : RequestId → PeerId → Dict (List RequestId) → Dict (List RequestId)
drop_request request_id peer requests = elim (lookup peer requests) [
  | none ↦ requests
  | some ids ↦ elim (discard request_id ids) [
    | [] ↦ erase peer requests
    | i ∷ is ↦ insert peer (i ∷ is) requests
  ]
]

unfoldable pub remove_batch : RequestId → PendingBatches → PendingBatches × Option Batch
remove_batch request_id p = elim (lookup request_id p.batches) [
  | none ↦ (p, none)
  | some batch ↦ (
    record {
      batches = erase request_id p.batches;
      peer_requests = drop_request request_id batch.current_peer p.peer_requests;
    },
    some batch,
  )
]

-- `add_block`; `none` means that no batch has the request.
unfoldable pub add_block : RequestId → Block → PendingBatches → Option PendingBatches
add_block request_id b p = do
  batch ← lookup request_id p.batches
  some (record p {
    batches =
        insert request_id (record batch { downloaded_blocks = batch.downloaded_blocks ++ b ∷ [] })
          p.batches;
  })

abbrev pub peer_is_idle : PendingBatches → PeerId → Bool
peer_is_idle p peer_id = not (is_some (lookup peer_id p.peer_requests))

pub remove_batch_by_peer : PeerId → PendingBatches → PendingBatches × Option Batch
remove_batch_by_peer peer_id p = elim (requests_of p peer_id) [
  | [] ↦ (p, none)
  | request_id ∷ _ ↦ remove_batch request_id p
]
