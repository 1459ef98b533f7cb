-- ===== src/Genesis.antt =====
-- core/src/genesis.rs, with the constants for hex strings written as numbers.
pub mod Allocation
use ori.Base.{ℕ, Option, none, some, List, [], ◌∷◌, ◌>>=◌}
use ori.Types.Hash.{Hash, Address, be_bytes}
use ori.Types.Ledger.{Validator}
use ori.Types.Block.{BlockProof, Block, default_header, default_block}
use ori.External.{External}
use ori.State.{StateDb, commit}
use ori.Balance.{add_balance, commit_balance}
use ori.Staking.{insert}
use ori.BlockHash.{get_hash_from_txs, get_hash_from_signs}

abbrev pub ed_genesis_pub_key : Hash
ed_genesis_pub_key = 0xf3a87c2ea52bbc7cd764ddd7f947d93ce20d094872185049761ffb2652c09307

abbrev pub genesis_time : ℕ
genesis_time = 1597916633

abbrev pub genesis_addr : Address
genesis_addr = 0xd2480451ef35ff2fdd7c69cad058719b9dc4d631

-- `ALLOCATION`
abbrev pub allocation : List (Address × ℕ)
allocation = (genesis_addr, 1000000000000000000) ∷ []

-- An entry of `VALIDATORS` as the validator that is made of it; the address's stake is 0.
abbrev pub genesis_validator : Validator
genesis_validator = record {
  address = genesis_addr;
  pubkey = be_bytes 32 ed_genesis_pub_key;
  balance = 0;
  effective_balance = 0;
  activate_height = 0;
  exit_height = 0;
  deposit_queue = [];
  unlocked_queue = [];
}

-- `VALIDATORS`, last first
abbrev pub validators : List Validator
validators = genesis_validator ∷ []

module _ (ext : External) where
  unfoldable pub to_genesis : Block
  to_genesis = record {
    header = record default_header {
      time = genesis_time;
      tx_root = get_hash_from_txs ext [];
      sign_root = get_hash_from_signs ext [];
    };
    signs = [];
    txs = [];
    proofs = record { low = ed_genesis_pub_key; high = 0; kind = 0 } ∷ [];
  }

  -- The first loop of `setup_allocation`.
  allocate : List (Address × ℕ) → StateDb ext.trie → Option (StateDb ext.trie)
  allocate [] s = some s
  allocate ((addr, value) ∷ rest) s = do s₁ ← add_balance ext addr value s; allocate rest s₁

  -- The second loop.
  appoint : List Validator → StateDb ext.trie → Option (StateDb ext.trie)
  appoint [] s = some s
  appoint (v ∷ rest) s = do s₁ ← insert ext v s; appoint rest s₁

  pub setup_allocation : StateDb ext.trie → Option (StateDb ext.trie × Hash)
  unfolding allocate appoint
  setup_allocation s = do
    s₁ ← allocate allocation s
    (s₂, _) ← commit_balance ext s₁
    s₃ ← appoint validators s₂
    s₄ ← commit s₃
    some (s₄, s₄.state_root)
