-- ===== src/Examples/Downloads.antt =====
-- A download of twenty blocks by one peer.
use ori.Base.{
  ℕ, ◌+◌, ◌<◌, ◌≡◌, ◌≢◌, refl, sym, ap, ◌∙◌, true, false, Option, none, some, List, [], ◌∷◌, arith,
  ◌==◌, Bool-cases, inl, inr,
}
use ori.Base.Dict.{lookup}
use ori.Types.Block.{Block, default_block, default_header}
use ori.Network.Message.{PeerId, RequestId}
use ori.Network.Context.{SyncNetworkContext}
use ori.Sync.Batch.{Batch, min, new_batch, new_pending}
use ori.Sync.Batch.Index.{IsIndexed}
use ori.Sync.Download.{
  SyncingChain, Sync, new_chain, syncing, get_next_batch, out_of_range, request_batches,
  on_block_response, add_peer,
}
use ori.Sync.Download.Plan.{IsPlanned, start_of, get_next_batch_of}
use ori.Sync.Download.Answers.{answer, filled, get_next_batch-answer}
use ori.Sync.Download.Rounds.{Rounds, request_batches-Rounds}
use ori.Sync.Download.Requests.{IsServed, request_batches-IsServed}
use ori.Sync.Download.Stuck.Course.{peer_comes, stays, goes, IsAlone, out_of_range_stalls}

abbrev in_order : ℕ → List PeerId → List PeerId
in_order k peers = peers

abbrev no_hash : List Block → ℕ
no_hash bs = 0

-- The node has no block and is told of twenty by the peer 3.
abbrev start : SyncingChain
start = record (new_chain 0 20 7) { state = syncing; peer_pool = 3 ∷ [] }

abbrev line : SyncNetworkContext
line = record { network_send = record { sent = []; is_open = true }; request_id = 0 }

start-IsPlanned : IsPlanned start
start-IsPlanned = record {
  first = omega arith;
  low = omega arith;
  target = omega arith;
  ahead = omega arith;
}

abbrev first_batch : Batch
first_batch = new_batch 1 1 6 7 3

first_made : get_next_batch 3 start ≡ (record start { to_be_downloaded_id = 2 }, some first_batch)
first_made = get_next_batch_of start start-IsPlanned 3

get_next_batch-answer_example :
    (first_batch.start_number ≡ start_of start 1)
    × (first_batch.start_number < first_batch.end_number)
    × (first_batch.end_number ≡ min (start_of start 2) (20 + 1))
    × ((chain : List Block) (head : ℕ)
        → out_of_range (filled first_batch (answer chain head first_batch)) ≡ false)
get_next_batch-answer_example =
    get_next_batch-answer 3 start (record start { to_be_downloaded_id = 2 }) first_batch
      start-IsPlanned first_made

request_batches-Rounds_example :
    Rounds in_order no_hash (start, line) (request_batches in_order no_hash (start, line))
request_batches-Rounds_example =
    request_batches-Rounds in_order no_hash start line start-IsPlanned refl

empty-IsIndexed : IsIndexed new_pending
empty-IsIndexed = record {
  once = tt;
  peers = tt;
  sets = λ peer. tt;
  agree = λ peer id. refl;
  busy = λ peer. none_some;
}
  where
    none_some : ◌≢◌ {A = Option (List RequestId)} none (some [])
    none_some = cc

start-IsServed : IsServed (start, line)
start-IsServed = record {
  plan = start-IsPlanned;
  index = empty-IsIndexed;
  fresh = λ id le. refl;
  span = omega arith;
  single = λ peer. omega arith;
  room = omega arith;
}

request_batches-IsServed_example : IsServed (request_batches in_order no_hash (start, line))
request_batches-IsServed_example =
    request_batches-IsServed in_order no_hash (start, line) start-IsServed

-- The first batch got a block of the height 9.
abbrev bad_batch : Batch
bad_batch = record first_batch {
  downloaded_blocks = record default_block { header = record default_header { height = 9 } } ∷ [];
}

abbrev waiting : SyncingChain
waiting = record start {
  to_be_downloaded_id = 2;
  pending_batches = record { batches = (0, bad_batch) ∷ []; peer_requests = (3, 0 ∷ []) ∷ [] };
}

only_one :
    (j : RequestId) (d : Batch)
    → lookup j waiting.pending_batches.batches ≡ some d
    → (j ≡ 0) × (d.id ≡ 1)
only_one j d e = elim (Bool-cases (j == 0)) [
  | inl same ↦
      let here : lookup j waiting.pending_batches.batches ≡ some bad_batch = (rw same refl) in
      (ground (arith, same), ground (arith, ap id_of (sym here ∙ e)))
  | inr other ↦ let gone : lookup j waiting.pending_batches.batches ≡ none = (rw other refl) in cc
]
  where
    id_of : Option Batch → ℕ
    id_of none = 0
    id_of (some b) = b.id

waiting-IsAlone : IsAlone 0 bad_batch waiting
waiting-IsAlone = record {
  plan = record {
    first = omega arith;
    low = omega arith;
    target = omega arith;
    ahead = omega arith;
  };
  found = refl;
  free = refl;
  once = (refl, tt);
  known = λ j d e. omega (arith, (only_one j d e).1);
  others = λ j d e ne. absurd (ne ((only_one j d e).0));
  waiting = tt;
}

abbrev after : Sync
after = (on_block_response in_order no_hash 0 none (waiting, line)).0

out_of_range_stalls_example :
    let s' = add_peer in_order no_hash 4 after in
    (s'.0.spawned ≡ []) × (s'.0.to_be_processed_id ≡ 1) × (1 < s'.0.to_be_downloaded_id)
out_of_range_stalls_example =
    out_of_range_stalls in_order no_hash 0 bad_batch waiting line
      (add_peer in_order no_hash 4 after) waiting-IsAlone refl (goes (peer_comes 4 after) stays)
