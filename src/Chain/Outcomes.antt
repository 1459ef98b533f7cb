-- ===== src/Chain/Outcomes.antt =====
-- What each outcome of `BlockChain::import_block` leaves.
use ori.Base.{
  ◌+◌, ◌<◌, ◌^◌, ◌≡◌, ◌⊎◌, refl, false, List, ◌∷◌, arith, leb, ◌==◌, has, Bool-cases, Option-cases,
  inl, inr, eq_of_==,
}
use ori.Types.Hash.{Hash}
use ori.Types.Block.{Block}
use ori.External.{External}
use ori.State.{StateDb, from_existing}
use ori.Balance.{u64}
use ori.Executor.{Exec, ok, err, panic, exc_txs_in_block}
use ori.Executor.Unsigned.{all_signed, Fails, exc_txs_in_block-Fails}
use ori.BlockHash.{block_hash, get_hash_from_txs, get_hash_from_signs}
use ori.Chain.Store.Reads.{
  header_hash-lt, with_head, head_hash-with_head, get_block-with_head, get_header_hash-with_head,
}
use ori.Chain.{
  BlockChain, ChainError, Import, imported, refused, crashed, Check, passed, failed, broken, after,
  validate_block, apply_transactions, execute_block, import_block,
}
use ori.Chain.Growth.{hashes, IsChain, Linked-Below, Stored-frame, import_block_decides}

-- The three ends of an import.
pub Import-cases :
    {ext : External} (r : Import ext)
    → ((c : BlockChain ext) × (r ≡ imported c))
      ⊎ (((e : ChainError) × (c : BlockChain ext) × (r ≡ refused e c)) ⊎ (r ≡ crashed))
Import-cases (imported c) = inl (c, refl)
Import-cases (refused e c) = inr (inl (e, c, refl))
Import-cases crashed = inr (inr refl)

-- What an import leaves of a chain: a block that is taken is the new head, and a refusal leaves the
-- blocks as they were.
abbrev pub Grows :
    (ext : External) → BlockChain ext → Block → (top : Block) → List Block → Import ext → Type 0
Grows ext c b top rest (imported c') = IsChain ext c' b (top ∷ rest)
Grows ext c b top rest (refused e c') = c'.db ≡ c.db
Grows ext c b top rest crashed = Unit

module _ (ext : External) (c : BlockChain ext) (top : Block) (rest : List Block)
    (l : IsChain ext c top rest) (b : Block) (small : b.header.height < u64)
    (width : b.header.parent_hash < 2 ^ 256)
    (new : has (block_hash ext b) (hashes ext (top ∷ rest)) ≡ false) where
  with_head-IsChain :
      (backend : ext.trie.Db)
      → b.header.parent_hash ≡ block_hash ext top
      → b.header.height ≡ top.header.height + 1
      → top.header.time < b.header.time
      → IsChain ext (record c { db = with_head ext b c.db; state_backend = backend }) b (top ∷ rest)
  with_head-IsChain backend parent next later = record {
    head = head_hash-with_head ext b c.db;
    stored = (
      ground
          (arith, get_block-with_head ext b c.db (block_hash ext b) (header_hash-lt ext b.header)),
      ground (arith, get_header_hash-with_head ext b c.db b.header.height small small),
      Stored-frame ext b c.db (top ∷ rest) small new
          (Linked-Below ext b.header.height top rest l.linked (omega (arith, next))) l.stored,
    );
    linked = (parent, next, later, l.linked);
    small = small;
    free =
        λ n lt above. ground (arith, get_header_hash-with_head ext b c.db n lt small, l.free n lt);
    decodes = λ h lt. ground (arith, get_block-with_head ext b c.db h lt, l.decodes h lt);
  }

  execute_block-Grows :
      b.header.parent_hash ≡ block_hash ext top
      → b.header.height ≡ top.header.height + 1
      → top.header.time < b.header.time
      → Grows ext c b top rest (execute_block ext top b c)
  unfolding execute_block
  execute_block-Grows parent next later =
      elim (Option-cases (apply_transactions ext top.header.state_root b c)) [
        | inl e ↦ rw (e, Grows) tt
        | inr ((root, backend), e) ↦
            rw (e, Grows)
              (elim (Bool-cases (b.header.state_root == root)) [
                | inl same ↦ rw (same, Grows) (with_head-IsChain backend parent next later)
                | inr other ↦ rw (other, Grows) refl
              ])
      ]

  -- On a chain of linked blocks, for a block whose height and parent hash have their widths and whose
  -- hash is none of the chain's: if the import takes it, the store holds the same chain with the block
  -- on top, linked and indexed; if it refuses it, for whatever reason, the store is untouched.
  pub import_block-Grows : Grows ext c b top rest (import_block ext b c)
  import_block-Grows =
      rw (import_block_decides ext c top rest l b small width)
        (elim (Bool-cases (leb b.header.height top.header.height)) [
          | inl e ↦ rw (e, Grows) refl
          | inr e ↦
              rw (e, Grows)
                (elim (Bool-cases (b.header.parent_hash == block_hash ext top)) [
                  | inr n ↦ rw (n, Grows) refl
                  | inl parent ↦
                      rw (parent, Grows)
                        (elim (Bool-cases (b.header.height == top.header.height + 1)) [
                          | inr n ↦ rw (n, Grows) refl
                          | inl next ↦
                              rw (next, Grows)
                                (elim (Bool-cases (leb b.header.time top.header.time)) [
                                  | inl late ↦ rw (late, Grows) refl
                                  | inr later ↦
                                      rw (later, Grows)
                                        (go (validate_block ext b) (
                                          execute_block-Grows (eq_of_== _ _ parent)
                                            (eq_of_== _ _ next) (ground arith)))
                                ])
                        ])
                ])
        ])
    where
      go :
          (check : Check)
          → Grows ext c b top rest (execute_block ext top b c)
          → Grows ext c b top rest (after ext check c (execute_block ext top b c))
      go passed h = h
      go (failed e) h = refl
      go broken h = tt

module _ (ext : External) (c : BlockChain ext) (top : Block) (rest : List Block)
    (l : IsChain ext c top rest) (b : Block) (small : b.header.height < u64)
    (parent : b.header.parent_hash ≡ block_hash ext top)
    (next : b.header.height ≡ top.header.height + 1) (later : top.header.time < b.header.time)
    (signs : b.header.sign_root ≡ get_hash_from_signs ext b.signs)
    (txs : b.header.tx_root ≡ get_hash_from_txs ext b.txs) where
  -- The checks pass: what is left is the execution.
  import_block_runs : import_block ext b c ≡ execute_block ext top b c
  unfolding validate_block
  import_block_runs = ground (
    arith,
    import_block_decides ext c top rest l b small (rw parent (header_hash-lt ext top.header)),
  )

  -- The next block of a chain of linked blocks, with the head as its parent, the next height, a later
  -- time and both roots right, is imported if its transactions execute on the head's state and end in
  -- the state root that it names: the block is the new head of the store, and the state that was
  -- committed is the new state.
  pub import_block_accepts :
      (s : StateDb ext.trie)
      → exc_txs_in_block ext b 0 (from_existing ext.trie c.state_backend top.header.state_root)
        ≡ ok b.header.state_root s
      → import_block ext b c
        ≡ imported (record c { db = with_head ext b c.db; state_backend = s.db })
  unfolding execute_block apply_transactions
  import_block_accepts s run = ground (arith, import_block_runs, run)

  -- The next block of a chain of linked blocks, with the head as its parent, the next height, a later
  -- time and both roots right, that carries a transaction whose signature does not check, wherever it
  -- stands among the block's: the block is not refused, but the import panics.
  pub import_block_crashes : all_signed ext b.txs ≡ false → import_block ext b c ≡ crashed
  unfolding execute_block apply_transactions
  import_block_crashes bad = go _ refl (
      exc_txs_in_block-Fails ext b 0 (from_existing ext.trie c.state_backend top.header.state_root)
        bad)
    where
      go :
          (r : Exec ext Hash)
          → exc_txs_in_block ext b 0 (from_existing ext.trie c.state_backend top.header.state_root)
            ≡ r
          → Fails r
          → import_block ext b c ≡ crashed
      go (ok h s) e f = absurd f
      go (err er s) e f = ground (arith, import_block_runs, e)
      go panic e f = ground (arith, import_block_runs, e)
