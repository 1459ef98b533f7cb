-- ===== src/Generator/Proposal/Acceptance.antt =====
-- What a proposer makes of its slot, from `EpochProposal::on_slot` of generator/src/epoch.rs down to
-- `BlockChain::import_block`.
use ori.Base.{ℕ, ◌+◌, ◌%◌, ◌<◌, ◌≡◌, refl, sym, ◌∙◌, arith, false, none, some, List, [], ◌>>=◌}
use ori.Types.Hash.{Hash}
use ori.Types.Block.{VrfProof, Block, default_header}
use ori.External.{External}
use ori.State.{StateDb, from_existing}
use ori.Balance.{u64}
use ori.Executor.{Exec, ok, err, panic, exc_txs_in_block}
use ori.Executor.Unsigned.{all_signed, Fails, exc_txs_in_block-Fails}
use ori.BlockHash.{block_hash, new_block}
use ori.Chain.Store.Reads.{with_head}
use ori.Chain.{BlockChain, imported, import_block}
use ori.Chain.Growth.{IsChain, current_block-IsChain}
use ori.Chain.Outcomes.{import_block_accepts}
use ori.Pool.{TxPool, reset_pool}
use ori.Network.Message.{publish, block_message}
use ori.Network.Context.{put}
use ori.Vrf.{Curve, Value}
use ori.Generator.Committee.{make_slot_proposer}
use ori.Generator.Proposal.{Proposer, get_pending, apply_block, produce_block, on_slot}

module _ (ext : External) where
  -- The block that a proposer builds on a head, with the root that its transactions end in.
  abbrev pub own_block : ℕ → ℕ → Value → VrfProof → TxPool → Hash → Block → Block
  own_block now slot value proof pool root top =
      let b = new_block ext default_header (get_pending pool) [] [] in
      record b {
        header = record (b.header) {
          parent_hash = block_hash ext top;
          height = (top.header.height + 1) % u64;
          slot = slot;
          vrf_output = value;
          vrf_proof = proof;
          state_root = root;
          time = now;
        };
      }

  -- The transactions alone decide an execution.
  exc_txs_in_block-own_block :
      (now slot : ℕ) (value : Value) (proof : VrfProof) (pool : TxPool) (root : Hash) (top : Block)
      (s : StateDb ext.trie)
      → exc_txs_in_block ext (new_block ext default_header (get_pending pool) [] []) 0 s
        ≡ exc_txs_in_block ext (own_block now slot value proof pool root top) 0 s
  unfolding exc_txs_in_block new_block
  exc_txs_in_block-own_block now slot value proof pool root top s = refl

module _ (ext : External) (c : BlockChain ext) (top : Block) (rest : List Block)
    (l : IsChain ext c top rest) (pool : TxPool) where
  abbrev unsealed : Block
  unsealed = new_block ext default_header (get_pending pool) [] []

  produce_block-own_block :
      (now slot : ℕ) (value : Value) (proof : VrfProof) (root : Hash) (s : StateDb ext.trie)
      → exc_txs_in_block ext unsealed 0
          (from_existing ext.trie c.state_backend top.header.state_root)
        ≡ ok root s
      → produce_block ext now slot (block_hash ext top) value proof pool c
        ≡ some (own_block ext now slot value proof pool root top, record c { state_backend = s.db })
  unfolding produce_block apply_block
  produce_block-own_block now slot value proof root s run =
      rw (produce_block, l.stored.0, apply_block, run) refl

  produce_block_fails :
      (now slot : ℕ) (value : Value) (proof : VrfProof)
      → all_signed ext (get_pending pool) ≡ false
      → produce_block ext now slot (block_hash ext top) value proof pool c ≡ none
  unfolding produce_block apply_block new_block
  produce_block_fails now slot value proof bad = go _ refl (
      exc_txs_in_block-Fails ext unsealed 0
        (from_existing ext.trie c.state_backend top.header.state_root) bad)
    where
      go :
          (r : Exec ext Hash)
          → exc_txs_in_block ext unsealed 0
              (from_existing ext.trie c.state_backend top.header.state_root)
            ≡ r
          → Fails r
          → produce_block ext now slot (block_hash ext top) value proof pool c ≡ none
      go (ok h s) e f = absurd f
      go (err er s) e f = rw (produce_block, l.stored.0, apply_block, e) refl
      go panic e f = rw (produce_block, l.stored.0, apply_block, e) refl

  abbrev committed : StateDb ext.trie → BlockChain ext
  committed s = record c { state_backend = s.db }

  committed-IsChain : (s : StateDb ext.trie) → IsChain ext (committed s) top rest
  committed-IsChain s = record {
    head = l.head;
    stored = l.stored;
    linked = l.linked;
    small = l.small;
    free = l.free;
    decodes = l.decodes;
  }

  import_block-own_block :
      (now slot : ℕ) (value : Value) (proof : VrfProof) (root : Hash) (s s' : StateDb ext.trie)
      → top.header.height + 1 < u64
      → top.header.time < now
      → exc_txs_in_block ext unsealed 0 (from_existing ext.trie s.db top.header.state_root)
        ≡ ok root s'
      → import_block ext (own_block ext now slot value proof pool root top) (committed s)
        ≡ imported (record c {
          db = with_head ext (own_block ext now slot value proof pool root top) c.db;
          state_backend = s'.db;
        })
  unfolding new_block
  import_block-own_block now slot value proof root s s' small later run =
      import_block_accepts ext (committed s) top rest (committed-IsChain s)
        (own_block ext now slot value proof pool root top) (omega arith) refl (omega arith) later
        refl refl s'
        (sym (
            exc_txs_in_block-own_block ext now slot value proof pool root top
              (from_existing ext.trie s.db top.header.state_root))
          ∙ run)

module _ (ext : External) (fuel : ℕ) (curve : Curve) (ratio : ℕ → ℕ → ℕ × ℕ) (p : Proposer ext)
    (top : Block) (rest : List Block) (l : IsChain ext p.chain top rest) (now sid : ℕ)
    (value : Value) (proof : VrfProof)
    (won : make_slot_proposer ext p.chain fuel curve ratio p.stake sid p.myid
      ≡ some (some (value, proof))) where
  -- A node whose store holds a chain of linked blocks and that wins a slot, at a time after the head's
  -- and below the last height: if the pending transactions execute on the head's state, and again to
  -- the same root once the first run is committed, and if the reset of the pool that follows does not
  -- panic, then the block it builds holds them all, names the head as its parent and the root that
  -- they end in, and the node's own chain takes it. The pool is the one that the reset gives, and the
  -- block is put on the network's channel, if that is open.
  pub on_slot_extends :
      (root : Hash) (s s' : StateDb ext.trie) (pool : TxPool)
      → top.header.height + 1 < u64
      → top.header.time < now
      → let body = new_block ext default_header (get_pending p.tx_pool) [] [] in
        let b = own_block ext now sid value proof p.tx_pool root top in
        let c' : BlockChain ext = record (p.chain) {
          db = with_head ext b p.chain.db;
          state_backend = s'.db;
        } in
        exc_txs_in_block ext body 0
            (from_existing ext.trie p.chain.state_backend top.header.state_root)
          ≡ ok root s
        → exc_txs_in_block ext body 0 (from_existing ext.trie s.db top.header.state_root)
          ≡ ok root s'
        → reset_pool ext c' b p.tx_pool ≡ some pool
        → on_slot ext fuel curve ratio now sid p
          ≡ some (record p {
            chain = c';
            tx_pool = pool;
            network_send =
                put (publish (block_message (ext.codecs.block.serialize b))) p.network_send;
          })
  unfolding on_slot
  on_slot_extends root s s' pool small later run again reset =
      rw
        (
          on_slot,
          won,
          current_block-IsChain ext p.chain top rest l,
          produce_block-own_block ext p.chain top rest l p.tx_pool now sid value proof root s run,
          ◌>>=◌,
          import_block-own_block ext p.chain top rest l p.tx_pool now sid value proof root s s'
              small later again,
          reset,
        )
        refl

  -- A node whose store holds a chain of linked blocks, and that wins a slot while one of the pending
  -- transactions of its pool has a signature that does not check, panics.
  pub on_slot_crashes :
      all_signed ext (get_pending p.tx_pool) ≡ false → on_slot ext fuel curve ratio now sid p ≡ none
  unfolding on_slot
  on_slot_crashes bad =
      rw
        (
          on_slot,
          won,
          current_block-IsChain ext p.chain top rest l,
          produce_block_fails ext p.chain top rest l p.tx_pool now sid value proof bad,
        )
        refl
