-- ===== src/Generator/Proposal.antt =====
-- `Builder` and `EpochProposal` of generator/src/epoch.rs: the block that is built on the head in a
-- slot, and what becomes of it. The clock is a parameter; `none` is a panic.
pub mod Acceptance
use ori.Base.{
  ℕ, ◌+◌, ◌-◌, ◌*◌, ◌/◌, ◌%◌, ◌≡◌, Bool, true, false, Option, none, some, List, [], ◌∷◌, ◌==◌,
  if◌then◌else◌, ◌>>=◌,
}
use ori.Base.Dict.{Dict}
use ori.Types.Hash.{Hash}
use ori.Types.Message.{Transaction}
use ori.Types.Block.{VrfProof, Block, default_header}
use ori.External.{External}
use ori.State.{from_existing}
use ori.Balance.{u64}
use ori.Executor.{ok, err, panic, exc_txs_in_block}
use ori.BlockHash.{block_hash, new_block}
use ori.Chain.Store.{get_block}
use ori.Chain.{BlockChain, imported, refused, crashed, current_block, import_block}
use ori.Pool.{TxPool, reset_pool}
use ori.Network.Message.{NetworkMessage, publish, block_message}
use ori.Network.Context.{Channel, put}
use ori.Vrf.{Curve, Value}
use ori.Generator.Epoch.{epoch_length, ValidatorStake}
use ori.Generator.Committee.{EpochPos, get_slot_proposer, make_slot_proposer}

abbrev pub values {ℓ} : {V : Type ℓ} → Dict V → List V
values [] = []
values ((k, v) ∷ d) = v ∷ values d

-- `TxPoolManager::get_pending`
abbrev pub get_pending : TxPool → List Transaction
get_pending p = values p.pending

-- `EpochProposal`, with the parts of the node that it shares
pub record Proposer (ext : External) : Type 0 where
  pub myid : Hash
  pub chain : BlockChain ext
  pub tx_pool : TxPool
  pub stake : EpochPos
  pub network_send : Channel

module _ (ext : External) where
  -- `Builder::apply_block`, with the state that it commits
  pub apply_block : Hash → Block → BlockChain ext → Option (Hash × ext.trie.Db)
  apply_block root b c =
      elim (exc_txs_in_block ext b 0 (from_existing ext.trie c.state_backend root)) [
        | ok h s ↦ some (h, s.db)
        | err e s ↦ none
        | panic ↦ none
      ]

  -- `Builder::produce_block`, at a time, with the chain whose state it executed on
  pub produce_block :
      ℕ → ℕ → Hash → Value → VrfProof → TxPool → BlockChain ext → Option (Block × BlockChain ext)
  produce_block now slot parent vrf_output vrf_proof pool c = do
    found ← get_block ext c.db parent
    pre ← found
    let b = new_block ext default_header (get_pending pool) [] []
    (state_root, backend) ← apply_block pre.header.state_root b c
    some (
      record b {
        header = record (b.header) {
          parent_hash = parent;
          height = (pre.header.height + 1) % u64;
          slot = slot;
          vrf_output = vrf_output;
          vrf_proof = vrf_proof;
          state_root = state_root;
          time = now;
        };
      },
      record c { state_backend = backend },
    )

  module _ (fuel : ℕ) (curve : Curve) (ratio : ℕ → ℕ → ℕ × ℕ) where
    -- The part of `on_slot` after the lottery.
    abbrev pub publish_own : ℕ → ℕ → Value × VrfProof → Proposer ext → Option (Proposer ext)
    publish_own now sid (value, proof) p = do
      current ← current_block ext p.chain
      (b, c) ← produce_block now sid (block_hash ext current) value proof p.tx_pool p.chain
      elim (import_block ext b c) [
        | crashed ↦ none
        | refused e c₁ ↦ some (record p { chain = c₁ })
        | imported c₁ ↦ do
          pool ← reset_pool ext c₁ b p.tx_pool
          some (record p {
            chain = c₁;
            tx_pool = pool;
            network_send =
                put (publish (block_message (ext.codecs.block.serialize b))) p.network_send;
          })
      ]

    pub on_slot : ℕ → ℕ → Proposer ext → Option (Proposer ext)
    on_slot now sid p = do
      ticket ← make_slot_proposer ext p.chain fuel curve ratio p.stake sid p.myid
      elim ticket [ none ↦ some p | some made ↦ publish_own now sid made p ]

    -- `is_proposer`
    pub is_proposer : ℕ → Proposer ext → Option Bool
    is_proposer sid p = elim p.stake.dev_mode [
      | true ↦ some true
      | false ↦ do
        found ← get_slot_proposer ext p.chain fuel p.stake sid (sid / epoch_length)
        elim found [
          | none ↦ some false
          | some item ↦ do own ← ext.to_pubkey p.myid; some (own == item.pubkey)
        ]
    ]
