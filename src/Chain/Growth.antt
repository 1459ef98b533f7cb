-- ===== src/Chain/Growth.antt =====
-- `BlockChain::import_block` on a chain of linked blocks.
use ori.Base.{
  ℕ, ◌+◌, ◌≤◌, ◌<◌, ◌^◌, ◌≡◌, ◌≢◌, refl, false, none, some, List, [], ◌∷◌, arith, leb, not, ◌==◌,
  if◌then◌else◌, has, Bool-cases, Option-cases, inl, inr,
}
use ori.Types.Hash.{Hash}
use ori.Types.Block.{Block}
use ori.External.{External}
use ori.Balance.{u64}
use ori.BlockHash.{block_hash}
use ori.Chain.Store.{get_block, get_header_hash, head_hash}
use ori.Chain.Store.Reads.{
  header_hash-lt, with_head, get_block-with_head, get_header_hash-with_head, get_block_by_number_of,
  head_block_of,
}
use ori.Chain.{
  BlockChain, known_block, unknown_ancestor, invalid_block_height, invalid_block_time, refused,
  after, exits_block, check_previous, current_block, validate_header, validate_block, execute_block,
  import_block,
}

module _ (ext : External) where
  abbrev pub hashes : List Block → List Hash
  hashes [] = []
  hashes (b ∷ bs) = block_hash ext b ∷ hashes bs

  -- Each block is found by its hash, and its hash by its height.
  abbrev pub Stored : ext.store.Db → List Block → Type 0
  Stored d [] = Unit
  Stored d (b ∷ bs) =
      (get_block ext d (block_hash ext b) ≡ some (some b))
      × (get_header_hash ext d b.header.height ≡ some (some (block_hash ext b)))
      × Stored d bs

  -- From a block down to the first one: parents by hash, heights one apart, times rising.
  abbrev pub Linked : Block → List Block → Type 0
  Linked b [] = b.header.height ≡ 0
  Linked b (p ∷ ps) =
      (b.header.parent_hash ≡ block_hash ext p)
      × (b.header.height ≡ p.header.height + 1)
      × (p.header.time < b.header.time)
      × Linked p ps

  -- The store holds these blocks, with the first as its head, and no height above it is taken.
  pub record IsChain (c : BlockChain ext) (top : Block) (rest : List Block) : Type 0 where
    pub head : head_hash ext c.db ≡ some (some (block_hash ext top))
    pub stored : Stored c.db (top ∷ rest)
    pub linked : Linked top rest
    pub small : top.header.height < u64
    pub free : (n : ℕ) → n < u64 → top.header.height < n → get_header_hash ext c.db n ≡ some none
    pub decodes : (h : Hash) → h < 2 ^ 256 → get_block ext c.db h ≢ none

  abbrev pub Below : ℕ → List Block → Type 0
  Below n [] = Unit
  Below n (b ∷ bs) = (b.header.height < n) × Below n bs

  pub Linked-Below :
      (n : ℕ) (b : Block) (bs : List Block) → Linked b bs → b.header.height < n → Below n (b ∷ bs)
  Linked-Below n b [] l lt = (lt, tt)
  Linked-Below n b (p ∷ ps) l lt = (lt, Linked-Below n p ps l.3 (omega (arith, l.1)))

  -- Every height up to the head's has its block.
  at_height :
      (d : ext.store.Db) (n : ℕ) (b : Block) (bs : List Block)
      → Stored d (b ∷ bs)
      → Linked b bs
      → n ≤ b.header.height
      → (found : Block) × (get_header_hash ext d n ≡ some (some (block_hash ext found)))
        × (get_block ext d (block_hash ext found) ≡ some (some found))
  at_height d n b [] s l le = (b, ground (arith, s.1, l), s.0)
  at_height d n b (p ∷ ps) s l le = elim (Bool-cases (n == b.header.height)) [
    | inl e ↦ (b, ground (arith, s.1), s.0)
    | inr e ↦ at_height d n p ps s.2 l.3 (ground (arith, l.1))
  ]

  pub Stored-frame :
      (b : Block) (d : ext.store.Db) (bs : List Block)
      → b.header.height < u64
      → has (block_hash ext b) (hashes bs) ≡ false
      → Below b.header.height bs
      → Stored d bs
      → Stored (with_head ext b d) bs
  Stored-frame b d [] small new below s = tt
  Stored-frame b d (p ∷ ps) small new below s = (
    ground (
      arith,
      get_block-with_head ext b d (block_hash ext p) (header_hash-lt ext p.header),
      s.0,
      new,
    ),
    ground (
      arith,
      get_header_hash-with_head ext b d p.header.height (omega (arith, below.0)) small,
      s.1,
      below.0,
    ),
    Stored-frame b d ps small (ground (arith, new)) below.1 s.2,
  )

module _ (ext : External) (c : BlockChain ext) (top : Block) (rest : List Block)
    (l : IsChain ext c top rest) where
  pub current_block-IsChain : current_block ext c ≡ some top
  unfolding current_block
  current_block-IsChain = rw (current_block, head_block_of ext c.db l.head, l.stored.0)

module _ (ext : External) (c : BlockChain ext) (top : Block) (rest : List Block)
    (l : IsChain ext c top rest) (b : Block) (small : b.header.height < u64)
    (width : b.header.parent_hash < 2 ^ 256) where
  exits_block-IsChain :
      exits_block ext c (block_hash ext b) b.header.height
      ≡ some (leb b.header.height top.header.height)
  unfolding exits_block
  exits_block-IsChain = elim (Bool-cases (leb b.header.height top.header.height)) [
    | inl le ↦
        let (found, index, body) =
          at_height ext c.db b.header.height top rest l.stored l.linked (ground arith) in
        rw (exits_block, get_block_by_number_of ext c.db b.header.height index, body, le)
    | inr gt ↦ rw (
      exits_block,
      get_block_by_number_of ext c.db b.header.height (l.free b.header.height small (ground arith)),
      gt,
    )
  ]

  -- On a chain of linked blocks, for a block whose height and parent hash have their widths, the
  -- import comes to this: a height that the chain reaches is a known block, whatever the hash; else a
  -- parent that is not the head is an unknown ancestor; else the height must be the next one and the
  -- time later than the head's; then the outcome is that of the check of the two roots and, if it
  -- passes, of the execution of the block on the head's state. The refusals before the execution leave
  -- the chain as it was.
  pub import_block_decides : import_block ext b c ≡ (
      if leb b.header.height top.header.height
      then refused known_block c
      else if not (b.header.parent_hash == block_hash ext top)
      then refused unknown_ancestor c
      else if not (b.header.height == top.header.height + 1)
      then refused invalid_block_height c
      else if leb b.header.time top.header.time
      then refused invalid_block_time c
      else after ext (validate_block ext b) c (execute_block ext top b c))
  unfolding import_block check_previous validate_header
  import_block_decides =
      rw (import_block, exits_block-IsChain)
        (elim (Bool-cases (leb b.header.height top.header.height)) [
          | inl le ↦ rw le refl
          | inr gt ↦ rw gt (elim (Bool-cases (b.header.parent_hash == block_hash ext top)) [
            | inl e ↦ ground (arith, l.stored.0, current_block-IsChain ext c top rest l)
            | inr n ↦ elim (Option-cases (get_block ext c.db b.header.parent_hash)) [
              | inl bad ↦ absurd (l.decodes b.header.parent_hash width bad)
              | inr (found, e) ↦ ground (arith, e, current_block-IsChain ext c top rest l)
            ]
          ])
        ])
