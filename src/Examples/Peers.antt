-- ===== src/Examples/Peers.antt =====
-- What a node with the chain of the genesis block answers to its peers.
use ori.Base.{
  ℕ, suc, ◌+◌, ◌<◌, ◌≤◌, ◌^◌, ◌≡◌, ◌⊎◌, refl, inl, inr, ap, sym, true, false, Option, none, some,
  List, [], ◌∷◌, arith, leb, length, if◌then◌else◌, Bool, Bool-cases, subst,
}
use ori.Types.Block.{Block}
use ori.Balance.{u64}
use ori.Genesis.{to_genesis}
use ori.Pool.{new_pool}
use ori.Network.Message.{by_range, stream_termination, BlocksByRangeRequest}
use ori.Network.Processor.{
  BlockQueue, rank, MessageProcessor, send_rpc_error_response, on_blocks_by_range_request,
  on_block_gossip, negated,
}
use ori.Network.Processor.Ranges.{wanted, send_blocks, on_blocks_by_range_request-wanted}
use ori.Network.Processor.Gossip.{Fits, AtMostOne, on_block_gossip-AtMostOne}
use ori.Sync.Message.{batch_processed, succeeded, spawn_block_processor}
use ori.Sync.Message.Results.{spawn_block_processor-succeeded}
use ori.Examples.Sample.{sample}
use ori.Examples.Chains.{
  ground_chain, ground_chain-IsChain, second, second_height, second_width, second_new,
}

-- A queue that is kept in order, the largest priority first.
abbrev Entries : Type 0
Entries = List (Block × ℕ)

abbrev place : Block × ℕ → Entries → Entries
place e [] = e ∷ []
place e (d ∷ ds) = if leb (rank d.1) (rank e.1) then e ∷ d ∷ ds else d ∷ place e ds

abbrev first_of : Entries → Option ((Block × ℕ) × Entries)
first_of [] = none
first_of (e ∷ es) = some (e, es)

abbrev Among : Entries → Block × ℕ → Type 0
Among [] d = ⊥
Among (e ∷ es) d = (d ≡ e) ⊎ Among es d

length-place : (e : Block × ℕ) (es : Entries) → length (place e es) ≤ suc (length es)
length-place e [] = omega arith
length-place e (d ∷ ds) = elim (Bool-cases (leb (rank d.1) (rank e.1))) [
  | inl le ↦ rw (place, le) (omega arith)
  | inr gt ↦ rw (place, gt) (omega (arith, length-place e ds))
]

parted :
    (t : Bool) (e x d : Block × ℕ) (xs ys : Entries)
    → Among (if t then e ∷ x ∷ xs else x ∷ ys) d
    → (Among ys d → (d ≡ e) ⊎ Among xs d)
    → (d ≡ e) ⊎ Among (x ∷ xs) d
parted true e x d xs ys m ih = m
parted false e x d xs ys (inl same) ih = inr (inl same)
parted false e x d xs ys (inr later) ih = elim (ih later) [ inl p ↦ inl p | inr q ↦ inr (inr q) ]

Among-place :
    (e : Block × ℕ) (es : Entries) (d : Block × ℕ) → Among (place e es) d → (d ≡ e) ⊎ Among es d
Among-place e [] d m = m
Among-place e (x ∷ xs) d m =
    parted (leb (rank x.1) (rank e.1)) e x d xs (place e xs) m (λ l. Among-place e xs d l)

abbrev tail_of : Option ((Block × ℕ) × Entries) → Entries
tail_of none = []
tail_of (some (e, es)) = es

abbrev head_or : Block × ℕ → Option ((Block × ℕ) × Entries) → Block × ℕ
head_or d none = d
head_or d (some (e, es)) = e

length_popped :
    (q q' : Entries) (e : Block × ℕ) → first_of q ≡ some (e, q') → length q ≡ suc (length q')
length_popped [] q' e h = cc
length_popped (x ∷ xs) q' e h = let t : xs ≡ q' = ap tail_of h in rw t refl

Among-first_of : (q q' : Entries) (e : Block × ℕ) → first_of q ≡ some (e, q') → Among q e
Among-first_of [] q' e h = cc
Among-first_of (x ∷ xs) q' e h = inl (sym (ap (head_or x) h))

Among-tail : (q q' : Entries) (e d : Block × ℕ) → first_of q ≡ some (e, q') → Among q' d → Among q d
Among-tail [] q' e d h m = cc
Among-tail (x ∷ xs) q' e d h m =
    let t : xs ≡ q' = ap tail_of h in inr (subst (λ (es : Entries). Among es d) (sym t) m)

abbrev queues : BlockQueue
queues = record {
  Queue = Entries;
  len = length;
  push = λ b p q. place (b, p) q;
  pop = first_of;
  Member = Among;
  len-push = λ b p q. length-place (b, p) q;
  Member-push = λ b p q e. Among-place (b, p) q e;
  len-pop = length_popped;
  Member-popped = Among-first_of;
  Member-pop = Among-tail;
}

abbrev listener : MessageProcessor sample queues
listener = record {
  chain = ground_chain;
  tx_pool = new_pool;
  sync_send = record { posted = []; is_open = true };
  network = record { sent = []; is_open = true };
  queue = [];
}

-- A request for the genesis block.
abbrev ask : BlocksByRangeRequest
ask = record { head_block_root = 0; start_slot = 0; count = 1; step = 1 }

genesis_narrow : (to_genesis sample).header.height + 1 < u64
unfolding to_genesis
genesis_narrow = omega arith

genesis_first : (to_genesis sample).header.height + 2 ≤ 2
unfolding to_genesis
genesis_first = omega arith

on_blocks_by_range_request-wanted_example :
    on_blocks_by_range_request sample queues 2 9 4 ask listener
    ≡ some (record listener {
      network = send_rpc_error_response 9 4 (stream_termination by_range) (
          send_blocks sample queues 9 4
            (wanted (to_genesis sample ∷ []) ((to_genesis sample).header.height) 1 0 1)
            listener.network);
    })
on_blocks_by_range_request-wanted_example =
    on_blocks_by_range_request-wanted sample queues listener (to_genesis sample) []
      ground_chain-IsChain 9 4 ask (omega arith) genesis_narrow 2 genesis_first (omega arith)

second-Fits : Fits sample (to_genesis sample) [] (second, negated second.header.height)
second-Fits = record {
  keyed = refl;
  small = omega (arith, second_height);
  width = second_width;
  new = λ above. second_new;
}

on_block_gossip-AtMostOne_example :
    AtMostOne sample queues
      (to_genesis sample)
      []
      second
      ground_chain
      (on_block_gossip sample queues 9 second listener)
on_block_gossip-AtMostOne_example =
    on_block_gossip-AtMostOne sample queues (to_genesis sample) [] second 9 listener
      ground_chain-IsChain genesis_narrow (λ e m. absurd m) second-Fits

genesis_small : (to_genesis sample).header.height < u64
unfolding to_genesis
genesis_small = omega arith

genesis_width : (to_genesis sample).header.parent_hash < 2 ^ 256
unfolding to_genesis
genesis_width = omega arith

spawn_block_processor-succeeded_example :
    spawn_block_processor sample 5 (to_genesis sample ∷ second ∷ []) ground_chain
    ≡ some (ground_chain, batch_processed 5 (to_genesis sample ∷ second ∷ []) succeeded)
spawn_block_processor-succeeded_example =
    spawn_block_processor-succeeded sample ground_chain (to_genesis sample) [] ground_chain-IsChain
      (to_genesis sample) genesis_small genesis_width 5 (second ∷ []) (omega arith)
