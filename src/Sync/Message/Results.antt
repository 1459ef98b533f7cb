-- ===== src/Sync/Message/Results.antt =====
-- What the processor of network/src/sync/block_processor.rs reports of a batch.
use ori.Base.{ℕ, ◌≡◌, refl, ◌<◌, ◌≤◌, ◌^◌, some, List, ◌∷◌, arith}
use ori.Types.Block.{Block}
use ori.External.{External}
use ori.Balance.{u64}
use ori.Chain.{BlockChain, refused, known_block, import_block}
use ori.Chain.Growth.{IsChain, current_block-IsChain, import_block_decides}
use ori.Sync.Message.{
  batch_processed, succeeded, process_all, process_blocks, spawn_block_processor,
}

module _ (ext : External) (c : BlockChain ext) (top : Block) (rest : List Block)
    (l : IsChain ext c top rest) (b : Block) (small : b.header.height < u64)
    (width : b.header.parent_hash < 2 ^ 256) where
  known_refused : b.header.height ≤ top.header.height → import_block ext b c ≡ refused known_block c
  known_refused low = ground (arith, import_block_decides ext c top rest l b small width)

  -- On a chain of linked blocks, a batch whose first block is not above the head, with height and
  -- parent hash of their widths: the import of that block is refused, none of the others is tried,
  -- whatever they are, and the processor reports the whole batch as a success and leaves the chain as
  -- it was.
  pub spawn_block_processor-succeeded :
      (id : ℕ) (bs : List Block)
      → b.header.height ≤ top.header.height
      → spawn_block_processor ext id (b ∷ bs) c ≡ some (c, batch_processed id (b ∷ bs) succeeded)
  unfolding spawn_block_processor process_blocks process_all
  spawn_block_processor-succeeded id bs low =
      rw
        (
          spawn_block_processor,
          process_blocks,
          current_block-IsChain ext c top rest l,
          process_all,
          known_refused low,
        )
        refl
