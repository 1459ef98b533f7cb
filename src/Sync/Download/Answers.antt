-- ===== src/Sync/Download/Answers.antt =====
-- A batch that one node plans and another node answers: network/src/sync/range_sync/chain.rs and
-- network/src/handler_processor.rs together.
use ori.Base.{
  ℕ, zero, suc, ◌+◌, ◌-◌, ◌<◌, ◌≤◌, ◌≡◌, refl, sym, ◌∙◌, ap, subst, false, Option, none, some, List,
  [], ◌∷◌, arith, ltb, ◌==◌, Bool-cases, Option-cases, inl, inr,
}
use ori.Types.Block.{Block}
use ori.Network.Message.{PeerId}
use ori.Chain.Heights.{block_at, block_at_height}
use ori.Network.Processor.Ranges.{wanted}
use ori.Sync.Batch.{Batch, min, to_blocks_by_range_request}
use ori.Sync.Download.{SyncingChain, last_of, get_next_batch, out_of_range}
use ori.Sync.Download.Plan.{IsPlanned, start_of, batch_of, is_full, get_next_batch_of}

-- All heights from one to another, both included.
abbrev Within : ℕ → ℕ → List Block → Type 0
Within lo hi [] = Unit
Within lo hi (b ∷ bs) = (lo ≤ b.header.height) × (b.header.height ≤ hi) × Within lo hi bs

Within-mono :
    (lo lo' hi hi' : ℕ) (bs : List Block)
    → lo' ≤ lo
    → hi ≤ hi'
    → Within lo hi bs
    → Within lo' hi' bs
Within-mono lo lo' hi hi' [] le le' w = tt
Within-mono lo lo' hi hi' (b ∷ bs) le le' w =
    (omega (arith, w.0, le), omega (arith, w.1, le'), Within-mono lo lo' hi hi' bs le le' w.2)

Within-last_of :
    (lo hi : ℕ) (bs : List Block) (b : Block)
    → Within lo hi bs
    → last_of bs ≡ some b
    → b.header.height ≤ hi
Within-last_of lo hi [] b w e = cc
Within-last_of lo hi (x ∷ []) b w e = ground (arith, w.1, e)
Within-last_of lo hi (x ∷ y ∷ ys) b w e = Within-last_of lo hi (y ∷ ys) b w.2 e

wanted-Within :
    (chain : List Block) (head start count : ℕ)
    → Within start (start + count) (wanted chain head 1 start count)
wanted-Within chain head start zero = elim (Bool-cases (start == head)) [
  | inr other ↦ rw (wanted, other, Within) tt
  | inl same ↦ elim (Option-cases (block_at start chain)) [
    | inl e ↦ rw (wanted, same, e, Within) tt
    | inr (b, e) ↦
        let h = block_at_height start chain b e in
        rw (wanted, same, e, Within) (omega (arith, h), omega (arith, h), tt)
  ]
]
wanted-Within chain head start (suc count) = elim (Option-cases (block_at start chain)) [
  | inl e ↦ rw (wanted, e, Within) tt
  | inr (b, e) ↦
      let h = block_at_height start chain b e in
      rw (wanted, e, Within)
        (
          omega (arith, h),
          omega (arith, h),
          Within-mono (start + 1) start (start + 1 + count) (start + suc count)
              (wanted chain head 1 (start + 1) count) (omega arith) (omega arith)
              (wanted-Within chain head (start + 1) count),
        )
]

abbrev pub filled : Batch → List Block → Batch
filled b blocks = record b { downloaded_blocks = blocks }

in_range :
    (b : Batch) (hi : ℕ) (blocks : List Block)
    → hi ≤ b.end_number
    → Within b.start_number hi blocks
    → out_of_range (filled b blocks) ≡ false
in_range b hi [] le w = refl
in_range b hi (x ∷ xs) le w = elim (Option-cases (last_of (x ∷ xs))) [
  | inl e ↦ rw (out_of_range, e) refl
  | inr (y, e) ↦
      rw (out_of_range, e) (ground (arith, w.0, Within-last_of b.start_number hi (x ∷ xs) y w e))
]

-- What a node whose chain is this answers to the request for a batch.
abbrev pub answer : List Block → ℕ → Batch → List Block
answer chain head b =
    let req = to_blocks_by_range_request b in wanted chain head req.step req.start_slot req.count

batch_in_range :
    (chain : List Block) (head : ℕ) (c : SyncingChain) (peer : PeerId) (id : ℕ)
    → start_of c id ≤ c.target_head_slot
    → out_of_range (filled (batch_of c peer id) (answer chain head (batch_of c peer id))) ≡ false
batch_in_range chain head c peer id le =
    let b = batch_of c peer id in
    let count = min 5 (b.end_number - b.start_number) in
    in_range b (b.start_number + count) (answer chain head b) (ground (arith, le))
      (wanted-Within chain head b.start_number count)

-- For numbers below 2 ^ 62 and a chain whose next batch comes after the batches that wait: the batch
-- that is planned is not empty and starts where the chain's plan stands, the plan then stands at its
-- end or the batch ends with the target, and whatever chain of blocks another node has, its answer
-- to the request for the batch passes the range check.
pub get_next_batch-answer :
    (peer : PeerId) (c c' : SyncingChain) (b : Batch)
    → IsPlanned c
    → get_next_batch peer c ≡ (c', some b)
    → (b.start_number ≡ start_of c c.to_be_downloaded_id)
      × (b.start_number < b.end_number)
      × (b.end_number ≡ min (start_of c' c'.to_be_downloaded_id) (c.target_head_slot + 1))
      × ((chain : List Block) (head : ℕ) → out_of_range (filled b (answer chain head b)) ≡ false)
get_next_batch-answer peer c c' b l made = elim (Bool-cases (is_full c)) [
  | inl full ↦
      let gone : get_next_batch peer c ≡ (c, none) = get_next_batch_of c l peer ∙ (rw full refl) in
      cc
  | inr room ↦ elim (Bool-cases (ltb c.target_head_slot (start_of c c.to_be_downloaded_id))) [
    | inl past ↦
        let gone : get_next_batch peer c ≡ (c, none) =
          get_next_batch_of c l peer ∙ (rw (room, past) refl) in
        cc
    | inr due ↦
        let le : start_of c c.to_be_downloaded_id ≤ c.target_head_slot = ground (arith, due) in
        let c₁ = record c { to_be_downloaded_id = c.to_be_downloaded_id + 1 } in
        let b₁ = batch_of c peer c.to_be_downloaded_id in
        let both : ◌≡◌ {A = SyncingChain × Option Batch} (c', some b) (c₁, some b₁) =
          sym made ∙ get_next_batch_of c l peer ∙ (rw (room, due) refl) in
        let next : start_of c (c.to_be_downloaded_id + 1) ≡ start_of c c.to_be_downloaded_id + 5 =
          omega (arith, l.first) in
        subst
          (λ (r : SyncingChain × Batch).
            (r.1.start_number ≡ start_of c c.to_be_downloaded_id)
            × (r.1.start_number < r.1.end_number)
            × (r.1.end_number ≡ min (start_of r.0 r.0.to_be_downloaded_id) (c.target_head_slot + 1))
            × ((chain : List Block) (head : ℕ)
                → out_of_range (filled r.1 (answer chain head r.1)) ≡ false))
          (sym (ap (λ (r : SyncingChain × Option Batch). (r.0, unwrapped b r.1)) both))
          (
            refl,
            ground (arith, le),
            ground (arith, next),
            λ chain head. batch_in_range chain head c peer c.to_be_downloaded_id le,
          )
  ]
]
  where
    unwrapped : Batch → Option Batch → Batch
    unwrapped d none = d
    unwrapped d (some x) = x
