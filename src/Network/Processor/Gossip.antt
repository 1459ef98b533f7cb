-- ===== src/Network/Processor/Gossip.antt =====
-- `MessageProcessor::on_block_gossip` of network/src/handler_processor.rs.
use ori.Base.{
  ℕ, zero, suc, ◌+◌, ◌-◌, ◌%◌, ◌<◌, ◌^◌, ◌≡◌, ◌⊎◌, refl, sym, ◌∙◌, subst, false, true, Bool, some,
  List, ◌∷◌, arith, ltb, ◌==◌, has, if◌then◌else◌, Bool-cases, Option-cases, inl, inr,
}
use ori.Types.Block.{Block}
use ori.External.{External}
use ori.Balance.{u64}
use ori.Staking.{Run, done, panic, out_of_fuel}
use ori.BlockHash.{block_hash}
use ori.Chain.{BlockChain, refused, known_block, import_block}
use ori.Chain.Growth.{IsChain, hashes, current_block-IsChain, import_block_decides}
use ori.Chain.Outcomes.{Grows, Import-cases, import_block-Grows}
use ori.Network.Message.{PeerId}
use ori.Sync.Message.{orphan_block}
use ori.Network.Processor.{
  BlockQueue, MessageProcessor, negated, queue_gossip_block, slot_import_tolerance, send_to_sync,
  broadcast_block, queue_loop, on_block_gossip,
}

-- What the queue holds of a block: its height's priority, with a height and a parent of their widths,
-- and above the head no hash of the chain's.
pub record Fits (ext : External) (top : Block) (rest : List Block) (e : Block × ℕ) : Type 0 where
  pub keyed : e.1 ≡ negated e.0.header.height
  pub small : e.0.header.height < u64
  pub width : e.0.header.parent_hash < 2 ^ 256
  pub new :
      top.header.height < e.0.header.height
      → has (block_hash ext e.0) (hashes ext (top ∷ rest)) ≡ false

module _ (ext : External) (queues : BlockQueue) (top : Block) (rest : List Block) (b : Block) where
  abbrev Processor : Type 0
  Processor = MessageProcessor ext queues

  -- All entries of a queue are so.
  abbrev pub AllFit : queues.Queue → Type 0
  AllFit q = (e : Block × ℕ) → queues.Member q e → Fits ext top rest e

  -- The chain with one more block, which is the one to forward or not.
  abbrev Grown : BlockChain ext → Bool → Type 0
  Grown c find =
      (low : Block) × IsChain ext c low (top ∷ rest)
      × (find ≡ (low.header.height == b.header.height))

  -- What a pass may come to: the blocks as they were and nothing to forward, or one more block on top,
  -- with a verdict that compares heights; or the panic of an import.
  abbrev pub AtMostOne : BlockChain ext → Run (Processor × Bool) → Type 0
  AtMostOne c (done (p, find)) = ((p.chain.db ≡ c.db) × (find ≡ false)) ⊎ Grown p.chain find
  AtMostOne c panic = Unit
  AtMostOne c out_of_fuel = ⊥

  AllFit-pop :
      (q q' : queues.Queue) (e : Block × ℕ) → queues.pop q ≡ some (e, q') → AllFit q → AllFit q'
  AllFit-pop q q' e popped fit d m = fit d (queues.Member-pop q q' e d popped m)

  module _ (peer : PeerId) (room : top.header.height + 1 < u64) where
    -- A pass that puts an entry back is over, with the chain as it is.
    leaves :
        (test : Bool) (p : Processor) (c : BlockChain ext) (find : Bool)
        → ((p.chain.db ≡ c.db) × (find ≡ false)) ⊎ Grown p.chain find
        → AtMostOne c
            (done (if test then send_to_sync ext queues (orphan_block peer b) p else p, find))
    leaves true p c find g = g
    leaves false p c find g = g

    height_of :
        (e : Block × ℕ)
        → Fits ext top rest e
        → (negated e.1 == (top.header.height + 1) % u64) ≡ true
        → e.0.header.height ≡ top.header.height + 1
    height_of e f now = ground (arith, f.keyed, f.small, now)

    -- After the import of a block, the next candidate of its height is refused.
    second :
        (fuel : ℕ) (p : Processor) (c : BlockChain ext) (find : Bool)
        → AllFit p.queue
        → Grown p.chain find
        → queues.len p.queue < fuel
        → AtMostOne c (queue_loop ext queues fuel peer b top.header.height find p)
    unfolding queue_loop
    second zero p c find fit g enough = omega (arith, enough)
    second (suc fuel) p c find fit g enough = elim (Option-cases (queues.pop p.queue)) [
      | inl e ↦ rw (queue_loop, e) (inr g)
      | inr (((low, priority), q), e) ↦
          let h = negated priority in
          let f = fit (low, priority) (queues.Member-popped p.queue q (low, priority) e) in
          elim (Bool-cases (ltb ((top.header.height + 1) % u64) h)) [
            | inl high ↦
                rw (queue_loop, e, high)
                  (leaves (ltb ((top.header.height + slot_import_tolerance) % u64) b.header.height)
                    (record p { queue = queues.push low priority q }) c find (inr g))
            | inr due ↦ elim (Bool-cases (h == (top.header.height + 1) % u64)) [
              | inr old ↦
                  rw (queue_loop, e, due, old)
                    (second fuel (record p { queue = q }) c find
                      (AllFit-pop p.queue q (low, priority) e fit) g
                      (omega (arith, enough, queues.len-pop p.queue q (low, priority) e)))
              | inl now ↦
                  let (last, l, verdict) = g in
                  let known : import_block ext low p.chain ≡ refused known_block p.chain =
                    import_block_decides ext p.chain last (top ∷ rest) l low f.small f.width
                    ∙ ground (arith, height_of (low, priority) f now, l.linked.1) in
                  rw (queue_loop, e, due, now, known) (inr g)
            ]
          ]
    ]

    -- Before any import.
    first :
        (fuel : ℕ) (p : Processor) (c : BlockChain ext)
        → AllFit p.queue
        → IsChain ext p.chain top rest
        → p.chain.db ≡ c.db
        → queues.len p.queue < fuel
        → AtMostOne c (queue_loop ext queues fuel peer b top.header.height false p)
    unfolding queue_loop
    first zero p c fit l same enough = omega (arith, enough)
    first (suc fuel) p c fit l same enough = elim (Option-cases (queues.pop p.queue)) [
      | inl e ↦ rw (queue_loop, e) (inl (same, refl))
      | inr (((low, priority), q), e) ↦
          let h = negated priority in
          let f = fit (low, priority) (queues.Member-popped p.queue q (low, priority) e) in
          let fit' = AllFit-pop p.queue q (low, priority) e fit in
          let less = queues.len-pop p.queue q (low, priority) e in
          elim (Bool-cases (ltb ((top.header.height + 1) % u64) h)) [
            | inl high ↦
                rw (queue_loop, e, high)
                  (leaves (ltb ((top.header.height + slot_import_tolerance) % u64) b.header.height)
                    (record p { queue = queues.push low priority q }) c false (inl (same, refl)))
            | inr due ↦ elim (Bool-cases (h == (top.header.height + 1) % u64)) [
              | inr old ↦
                  rw (queue_loop, e, due, old)
                    (first fuel (record p { queue = q }) c fit' l same
                      (omega (arith, enough, less)))
              | inl now ↦
                  let next = height_of (low, priority) f now in
                  let grows =
                    import_block-Grows ext p.chain top rest l low f.small f.width
                      (f.new (omega (arith, next))) in
                  elim (Import-cases (import_block ext low p.chain)) [
                    | inr (inr r) ↦ rw (queue_loop, e, due, now, r) tt
                    | inr (inl (err, c', r)) ↦
                        let kept : c'.db ≡ p.chain.db =
                          subst (Grows ext p.chain low top rest) r grows in
                        rw (queue_loop, e, due, now, r) (inl (kept ∙ same, refl))
                    | inl (c', r) ↦
                        let grown : IsChain ext c' low (top ∷ rest) =
                          subst (Grows ext p.chain low top rest) r grows in
                        let p' : Processor = record p { queue = q; chain = c' } in
                        let lt : queues.len q < fuel = omega (arith, enough, less) in
                        let key : h ≡ low.header.height = ground (arith, f.keyed, f.small) in
                        elim (Bool-cases (h == b.header.height)) [
                          | inl own ↦
                              rw (queue_loop, e, due, now, r, own)
                                (second fuel p' c true fit' (low, grown, ground (arith, key, own))
                                  lt)
                          | inr other ↦
                              rw (queue_loop, e, due, now, r, other)
                                (second fuel (broadcast_block ext queues low p') c false fit'
                                  (low, grown, ground (arith, key, other)) lt)
                        ]
                  ]
            ]
          ]
    ]

  -- For a node whose store holds a chain of linked blocks below the last height, and a queue and a
  -- block that fit to it: a block that arrives by gossip makes the node import at most one block,
  -- the pass over the queue ends within its fuel, and unless an import panics, either the stored
  -- blocks are as they were and nothing is forwarded, or one block was put on top of the head, and
  -- the arrived block is forwarded exactly if it has the height of that one.
  pub on_block_gossip-AtMostOne :
      (peer : PeerId) (p : Processor)
      → IsChain ext p.chain top rest
      → top.header.height + 1 < u64
      → AllFit p.queue
      → Fits ext top rest (b, negated b.header.height)
      → AtMostOne p.chain (on_block_gossip ext queues peer b p)
  unfolding on_block_gossip
  on_block_gossip-AtMostOne peer p l room fit own =
      elim (Bool-cases
        (ltb ((b.header.height + u64 - top.header.height) % u64) queue_gossip_block)) [
          | inr far ↦
              rw (on_block_gossip, current_block-IsChain ext p.chain top rest l, far)
                (inl (refl, refl))
          | inl near ↦
              rw (on_block_gossip, current_block-IsChain ext p.chain top rest l, near)
                (first peer room (suc (suc (queues.len p.queue)))
                  (record p { queue = queues.push b (negated b.header.height) p.queue }) p.chain
                  pushed l refl
                  (omega (arith, queues.len-push b (negated b.header.height) p.queue)))
        ]
    where
      pushed : AllFit (queues.push b (negated b.header.height) p.queue)
      pushed e m = elim (queues.Member-push b (negated b.header.height) p.queue e m) [
        | inl same ↦ subst (Fits ext top rest) (sym same) own
        | inr old ↦ fit e old
      ]
