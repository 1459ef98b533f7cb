-- ===== src/Chain.antt =====
-- chain/src: the store of blocks and the import of a block on top of it.
pub mod Store
pub mod Growth
pub mod Heights
pub mod Outcomes
pub mod Start
use ori.Base.{
  ℕ, ◌+◌, ◌%◌, Bool, true, false, Option, none, some, List, [], ◌∷◌, leb, not, is_some, ◌>>=◌, ◌==◌,
  if◌then◌else◌,
}
use ori.Types.Hash.{Hash, Address}
use ori.Types.Block.{Header, Block}
use ori.External.{External}
use ori.State.{StateDb, from_existing}
use ori.Balance.{u64}
use ori.Executor.{Exec, ok, err, panic, exc_txs_in_block}
use ori.Genesis.{setup_allocation}
use ori.BlockHash.{header_hash, block_hash, get_hash_from_txs, get_hash_from_signs}
use ori.Chain.Store.{get_block, get_block_by_number, head_block, write_block, write_head_hash}

-- The errors of `BlockChainErrorKind` that the import raises.
pub data ChainError : Type 0 where
  known_block : ChainError
  unknown_ancestor : ChainError
  invalid_block_height : ChainError
  invalid_block_time : ChainError
  mismatch_hash : ChainError
  invalid_state : ChainError

-- `BlockChain`. The node databases of the state share the store on the disk, so what an execution
-- commits is there for the next one.
pub record BlockChain (ext : External) : Type 0 where
  pub db : ext.store.Db
  pub state_backend : ext.trie.Db
  pub genesis : Block

-- `NULL_ROOT` of core/src/trie.rs
abbrev pub null_root : Hash
null_root = 0x3ac4bf3cc92d05463d1e9c4024caab4c780f9d99d24dd2f455708694b50a00c9

-- The outcome of an import with the chain that it leaves.
pub data Import (ext : External) : Type 0 where
  imported : BlockChain ext → Import ext
  refused : ChainError → BlockChain ext → Import ext
  crashed : Import ext

-- The outcome of a check.
pub data Check : Type 0 where
  passed : Check
  failed : ChainError → Check
  broken : Check

module _ (ext : External) where
  -- `exits_block`, which looks at the height only
  pub exits_block : BlockChain ext → Hash → ℕ → Option Bool
  exits_block c h num = elim (get_block_by_number ext c.db num) [
    | none ↦ none
    | some b ↦ some (is_some b)
  ]

  pub check_previous : BlockChain ext → Header → Option Bool
  check_previous c header = elim (get_block ext c.db header.parent_hash) [
    | none ↦ none
    | some b ↦ some (is_some b)
  ]

  -- `current_block`: no head is a panic as well.
  pub current_block : BlockChain ext → Option Block
  current_block c = elim (head_block ext c.db) [ none ↦ none | some b ↦ b ]

  pub validate_header : BlockChain ext → Header → Check
  validate_header c header = elim (get_block ext c.db header.parent_hash) [
    | none ↦ broken
    | some none ↦ failed unknown_ancestor
    | some (some pre) ↦
        if not (header.height == (pre.header.height + 1) % u64)
        then failed invalid_block_height
        else if leb header.time pre.header.time
        then failed invalid_block_time
        else passed
  ]

  pub validate_block : Block → Check
  validate_block b =
      if not (b.header.sign_root == get_hash_from_signs ext b.signs)
      then failed mismatch_hash
      else if not (b.header.tx_root == get_hash_from_txs ext b.txs)
      then failed mismatch_hash
      else passed

  -- `apply_transactions`, with the zero address as the miner: an error of the executor is unwrapped,
  -- which is a panic.
  pub apply_transactions : Hash → Block → BlockChain ext → Option (Hash × ext.trie.Db)
  apply_transactions root b c =
      elim (exc_txs_in_block ext b 0 (from_existing ext.trie c.state_backend root)) [
        | ok h s ↦ some (h, s.db)
        | err e s ↦ none
        | panic ↦ none
      ]

  -- The end of the import: the block is executed on the current state and written.
  pub execute_block : Block → Block → BlockChain ext → Import ext
  execute_block current b c = elim (apply_transactions current.header.state_root b c) [
    | none ↦ crashed
    | some (root, backend) ↦
        let c₁ : BlockChain ext = record c { state_backend = backend } in
        if not (b.header.state_root == root)
        then refused invalid_state c₁
        else imported (record c₁ {
          db = write_head_hash ext (header_hash ext b.header) (write_block ext b c.db);
        })
  ]

  -- What a check decides about the rest of the import.
  abbrev pub after : Check → BlockChain ext → Import ext → Import ext
  after passed c rest = rest
  after (failed e) c rest = refused e c
  after broken c rest = crashed

  pub import_block : Block → BlockChain ext → Import ext
  import_block b c = elim (exits_block c (block_hash ext b) b.header.height) [
    | none ↦ crashed
    | some true ↦ refused known_block c
    | some false ↦ elim (check_previous c b.header) [
      | none ↦ crashed
      | some false ↦ refused unknown_ancestor c
      | some true ↦ elim (current_block c) [
        | none ↦ crashed
        | some current ↦
            if not (b.header.parent_hash == block_hash ext current)
            then refused unknown_ancestor c
            else after (validate_header c b.header) c
                (after (validate_block b) c (execute_block current b c))
      ]
    ]
  ]

  -- `setup_genesis`, with the hash of the genesis block
  pub setup_genesis : BlockChain ext → Option (BlockChain ext × Hash)
  setup_genesis c = do
    (s, root) ← setup_allocation ext (from_existing ext.trie c.state_backend null_root)
    let header = record (c.genesis.header) { state_root = root }
    let genesis = record (c.genesis) { header = header }
    some (
      record {
        db = write_head_hash ext (header_hash ext header) (write_block ext genesis c.db);
        state_backend = s.db;
        genesis = genesis;
      },
      header_hash ext header,
    )

  pub load : BlockChain ext → Option (BlockChain ext)
  load c = do
    block_zero ← get_block_by_number ext c.db 0
    elim block_zero [
      | none ↦ do (c', hash) ← setup_genesis c; some c'
      | some genesis ↦ do current ← current_block c; some (record c { genesis = genesis })
    ]
