-- ===== src/Network/Processor/Ranges.antt =====
-- The answer of `MessageProcessor::on_blocks_by_range_request` of network/src/handler_processor.rs.
use ori.Base.{
  ℕ, zero, suc, ◌+◌, ◌%◌, ◌<◌, ◌≤◌, ◌≡◌, refl, false, true, ◌&&◌, Option, none, some, List, [], ◌∷◌,
  arith, ltb, ◌==◌, if◌then◌else◌, Bool-cases, Option-cases, inl, inr,
}
use ori.Types.Block.{Block}
use ori.External.{External}
use ori.Balance.{u64}
use ori.Chain.Store.{get_block_by_number}
use ori.Chain.Growth.{IsChain, current_block-IsChain}
use ori.Chain.Heights.{block_at, block_at_above, get_block_by_number-IsChain}
use ori.Network.Message.{
  PeerId, RequestId, BlocksByRangeRequest, blocks_by_range_response, by_range, stream_termination,
}
use ori.Network.Context.{Channel}
use ori.Network.Processor.{
  BlockQueue, MessageProcessor, send_rpc_response, send_rpc_error_response, range_loop,
  on_blocks_by_range_request,
}

-- The blocks of a chain that a request gets: as many as it counts, at its distances, as long as the
-- chain has them, and the head too if it is at the next place after them.
abbrev pub wanted : List Block → ℕ → ℕ → ℕ → ℕ → List Block
wanted chain head step start zero =
    if start == head then elim (block_at start chain) [ none ↦ [] | some b ↦ b ∷ [] ] else []
wanted chain head step start (suc count) = elim (block_at start chain) [
  | none ↦ []
  | some b ↦ b ∷ wanted chain head step (start + step) count
]

module _ (ext : External) (queues : BlockQueue) where
  -- The messages for these blocks, sent one after the other.
  abbrev pub send_blocks : PeerId → RequestId → List Block → Channel → Channel
  send_blocks peer_id request_id [] n = n
  send_blocks peer_id request_id (b ∷ bs) n = send_blocks peer_id request_id bs (
      send_rpc_response peer_id request_id (blocks_by_range_response (ext.codecs.block.serialize b))
        n)

  module _ (p : MessageProcessor ext queues) (top : Block) (rest : List Block)
      (l : IsChain ext p.chain top rest) (peer_id : PeerId) (request_id : RequestId)
      (req : BlocksByRangeRequest) (positive : 1 ≤ req.step)
      (narrow : top.header.height + req.step < u64) where
    abbrev head : ℕ
    head = top.header.height

    abbrev with : Channel → MessageProcessor ext queues
    with n = record p { network = n }

    abbrev chain : List Block
    chain = top ∷ rest

    loop : ℕ → ℕ → ℕ → Channel → Option (MessageProcessor ext queues)
    loop fuel start sent n =
        range_loop ext queues fuel head peer_id request_id req start sent (with n)

    looked_up :
        (start : ℕ)
        → start < u64
        → get_block_by_number ext p.chain.db start ≡ some (block_at start chain)
    looked_up start small = get_block_by_number-IsChain ext p.chain top rest start l small

    loop-none :
        (fuel start sent : ℕ) (n : Channel)
        → 1 ≤ fuel
        → start < u64
        → (ltb start head && (sent == req.count)) ≡ false
        → block_at start chain ≡ none
        → loop fuel start sent n ≡ some (with n)
    unfolding loop range_loop
    loop-none zero start sent n more small go e = absurd (omega (arith, more))
    loop-none (suc fuel) start sent n more small go e =
        rw (loop, range_loop, go, looked_up start small, e) refl

    loop-some :
        (fuel start sent : ℕ) (n : Channel) (b : Block)
        → start ≤ head
        → (ltb start head && (sent == req.count)) ≡ false
        → block_at start chain ≡ some b
        → loop (suc fuel) start sent n
          ≡ loop fuel (start + req.step) (sent + 1) (
              send_rpc_response peer_id request_id
                (blocks_by_range_response (ext.codecs.block.serialize b))
                n)
    unfolding loop range_loop
    loop-some fuel start sent n b le go e =
        let near : (start + req.step) % u64 ≡ start + req.step = omega (arith, narrow, le) in
        rw (loop, range_loop, go, looked_up start (omega (arith, narrow, le)), e, near) refl

    loop_enough :
        (fuel start sent : ℕ) (n : Channel)
        → 1 ≤ fuel
        → (ltb start head && (sent == req.count)) ≡ true
        → loop fuel start sent n ≡ some (with n)
    unfolding loop range_loop
    loop_enough zero start sent n more go = absurd (omega (arith, more))
    loop_enough (suc fuel) start sent n more go = rw (loop, range_loop, go) refl

    within : (start : ℕ) (b : Block) → block_at start chain ≡ some b → start ≤ head
    within start b e = elim (Bool-cases (ltb head start)) [
      | inl above ↦
          let gone : block_at start chain ≡ none =
            block_at_above ext p.chain top rest start l (ground (arith, above)) in
          cc
      | inr under ↦ ground (arith, under)
    ]

    loop-wanted :
        (fuel start count sent : ℕ) (n : Channel)
        → sent + count ≡ req.count
        → head + 2 ≤ fuel + start
        → 1 ≤ fuel
        → start < u64
        → loop fuel start sent n
          ≡ some (with (send_blocks peer_id request_id (wanted chain head req.step start count) n))
    loop-wanted zero start count sent n total enough more small = absurd (omega (arith, more))
    loop-wanted (suc fuel) start zero sent n total enough more small =
        elim (Bool-cases (ltb start head)) [
          | inl under ↦ ground (
            arith,
            loop_enough (suc fuel) start sent n (omega arith) (ground (arith, under, total)),
          )
          | inr over ↦
              let go : (ltb start head && (sent == req.count)) ≡ false = (rw over refl) in
              elim (Option-cases (block_at start chain)) [
                | inl e ↦
                    rw (wanted, e)
                      (ground (arith, loop-none (suc fuel) start sent n (omega arith) small go e))
                | inr (b, e) ↦
                    let le : start ≤ head = within start b e in
                    let same : (start == head) ≡ true = ground (arith, over, le) in
                    rw (wanted, same, e, loop-some fuel start sent n b le go e)
                      (loop-none fuel (start + req.step) (sent + 1) _ (omega (arith, le))
                        (omega (arith, le)) (ground (arith, over, le, positive))
                        (block_at_above ext p.chain top rest (start + req.step) l
                          (ground (arith, over, positive))))
              ]
        ]
    loop-wanted (suc fuel) start (suc count) sent n total enough more small =
        let go : (ltb start head && (sent == req.count)) ≡ false = ground (arith, total) in
        elim (Option-cases (block_at start chain)) [
          | inl e ↦ rw (wanted, e) (loop-none (suc fuel) start sent n (omega arith) small go e)
          | inr (b, e) ↦
              let le : start ≤ head = within start b e in
              rw (wanted, e, loop-some fuel start sent n b le go e)
                (loop-wanted fuel (start + req.step) count (sent + 1) _ (omega (arith, total))
                  (omega (arith, enough, positive)) (omega (arith, enough, le))
                  (omega (arith, narrow, le)))
        ]

    -- On a chain of linked blocks, a request with a step of at least 1, a start within 64 bits and no
    -- place beyond the head that wraps is answered, with fuel of two more than the head's height: the
    -- blocks at the start and at each step from it, as many as the request counts or as the chain
    -- has, and one more where the place after them is the head's; then the end of the stream. The
    -- rest of the node is as it was.
    pub on_blocks_by_range_request-wanted :
        (fuel : ℕ)
        → head + 2 ≤ fuel
        → req.start_slot < u64
        → on_blocks_by_range_request ext queues fuel peer_id request_id req p
          ≡ some (record p {
            network = send_rpc_error_response peer_id request_id (stream_termination by_range) (
                send_blocks peer_id request_id
                  (wanted chain head req.step req.start_slot req.count)
                  p.network);
          })
    unfolding on_blocks_by_range_request loop
    on_blocks_by_range_request-wanted fuel enough small =
        let some_step : (req.step == 0) ≡ false = ground (arith, positive) in
        rw
          (
            on_blocks_by_range_request,
            some_step,
            current_block-IsChain ext p.chain top rest l,
            loop-wanted fuel req.start_slot req.count 0 p.network (omega arith)
                (omega (arith, enough)) (omega (arith, enough)) small,
          )
          refl
