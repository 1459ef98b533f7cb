-- ===== src/Sync/State.antt =====
-- The state of `SyncingChain` of network/src/sync/range_sync/chain.rs, with the numbers of its plan. A chain is
-- passed on together with the network that it talks to.
use ori.Base.{
  ℕ, ◌+◌, ◌-◌, ◌*◌, ◌%◌, Bool, true, false, Option, none, some, List, [], ◌∷◌, leb, if◌then◌else◌,
}
use ori.Types.Hash.{Hash}
use ori.Types.Block.{Block}
use ori.Balance.{u64}
use ori.Network.Message.{PeerId}
use ori.Network.Context.{SyncNetworkContext}
use ori.Sync.Batch.{Batch, blocks_per_batch, min, PendingBatches, new_pending}

-- `ChainSyncingState`
pub data SyncingState : Type 0 where
  stopped syncing : SyncingState

pub record SyncingChain : Type 0 where
  pub start_number : ℕ
  pub target_head_slot : ℕ
  pub target_head_root : Hash
  pub pending_batches : PendingBatches
  pub completed_batches : List Batch
  pub processed_batches : List Batch
  pub peer_pool : List PeerId
  pub to_be_downloaded_id : ℕ
  pub to_be_processed_id : ℕ
  pub state : SyncingState
  pub current_processing_batch : Option Batch
  -- the batches that were given to the processor, the last first
  pub spawned : List (ℕ × List Block)
  -- the number of shuffles that the random generator has made
  pub shuffles : ℕ

-- `SyncingChain::new`
abbrev pub new_chain : ℕ → ℕ → Hash → SyncingChain
new_chain start_number target_head_slot target_head_root = record {
  start_number = start_number;
  target_head_slot = target_head_slot;
  target_head_root = target_head_root;
  pending_batches = new_pending;
  completed_batches = [];
  processed_batches = [];
  peer_pool = [];
  to_be_downloaded_id = 1;
  to_be_processed_id = 1;
  state = stopped;
  current_processing_batch = none;
  spawned = [];
  shuffles = 0;
}

-- A chain with the network.
abbrev pub Sync : Type 0
Sync = SyncingChain × SyncNetworkContext

-- `ProcessingResult`
pub data ProcessingResult : Type 0 where
  keep_chain remove_chain : ProcessingResult

-- `BATCH_BUFFER_SIZE` and `INVALID_BATCH_LOOKUP_ATTEMPTS`
abbrev pub batch_buffer_size : ℕ
batch_buffer_size = 5

abbrev pub invalid_batch_lookup_attempts : ℕ
invalid_batch_lookup_attempts = 3

-- `saturating_add` of two u64
abbrev pub sat_add : ℕ → ℕ → ℕ
sat_add a b = min (a + b) (u64 - 1)

abbrev pub max : ℕ → ℕ → ℕ
max a b = if leb a b then b else a

abbrev pub last_of {ℓ} : {A : Type ℓ} → List A → Option A
last_of [] = none
last_of (x ∷ []) = some x
last_of (x ∷ y ∷ ys) = last_of (y ∷ ys)

-- The id of the last batch, or zero.
abbrev pub last_id : Option Batch → ℕ
last_id none = 0
last_id (some b) = b.id

abbrev pub is_syncing : SyncingState → Bool
is_syncing stopped = false
is_syncing syncing = true

unfoldable pub current_processed_slot : SyncingChain → ℕ
current_processed_slot c =
    sat_add c.start_number (((c.to_be_processed_id - 1) * blocks_per_batch) % u64)
