-- ===== src/Sync/Download/Plan.antt =====
-- The batches that `SyncingChain::get_next_batch` of network/src/sync/range_sync/chain.rs plans.
use ori.Base.{
  ℕ, ◌+◌, ◌-◌, ◌*◌, ◌%◌, ◌<◌, ◌≤◌, ◌^◌, ◌≡◌, refl, Bool, none, some, arith, ltb, if◌then◌else◌,
  length,
}
use ori.Balance.{u64}
use ori.Network.Message.{PeerId}
use ori.Sync.Batch.{Batch, min, new_batch}
use ori.Sync.Download.{SyncingChain, sat_add, max, last_of, last_id, get_next_batch}

-- The numbers of a chain are far from the end of 64 bits, and the batches that wait come before the
-- next one.
pub record IsPlanned (c : SyncingChain) : Type 0 where
  pub first : 1 ≤ c.to_be_downloaded_id
  pub low : c.start_number + 5 * c.to_be_downloaded_id < 2 ^ 63
  pub target : c.target_head_slot < 2 ^ 62
  pub ahead : last_id (last_of c.completed_batches) < c.to_be_downloaded_id

-- The first block of the batch with an id.
abbrev pub start_of : SyncingChain → ℕ → ℕ
start_of c id = c.start_number + (id - 1) * 5 + 1

-- The batch with an id: five blocks, or those up to the target.
abbrev pub batch_of : SyncingChain → PeerId → ℕ → Batch
batch_of c peer id =
    new_batch id (start_of c id) (min (start_of c id + 5) (c.target_head_slot + 1))
      c.target_head_root peer

abbrev pub is_full : SyncingChain → Bool
is_full c = ltb 5 (length c.completed_batches + length c.pending_batches.batches)

module _ (c : SyncingChain) (l : IsPlanned c) (peer : PeerId) where
  pub get_next_batch_of : get_next_batch peer c ≡ (
      if is_full c
      then (c, none)
      else if ltb c.target_head_slot (start_of c c.to_be_downloaded_id)
      then (c, none)
      else (
        record c { to_be_downloaded_id = c.to_be_downloaded_id + 1 },
        some (batch_of c peer c.to_be_downloaded_id),
      ))
  unfolding get_next_batch
  get_next_batch_of =
      let id = c.to_be_downloaded_id in
      let start : (c.start_number + ((id - 1) * 5) % u64 + 1) % u64 ≡ start_of c id =
        omega (arith, l.first, l.low) in
      let stop : (start_of c id + 5) % u64 ≡ start_of c id + 5 = omega (arith, l.first, l.low) in
      let top : sat_add c.target_head_slot 1 ≡ c.target_head_slot + 1 = ground (arith, l.target) in
      let next : max ((id + 1) % u64) ((last_id (last_of c.completed_batches) + 1) % u64) ≡ id + 1 =
        ground (arith, l.low, l.ahead) in
      rw (get_next_batch, start, stop, top, next) refl
