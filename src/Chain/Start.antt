-- ===== src/Chain/Start.antt =====
-- The first start of a chain and the ones after it.
use ori.Base.{ℕ, ◌<◌, ◌^◌, ◌≡◌, ◌≢◌, refl, none, some, [], arith}
use ori.Types.Hash.{Hash}
use ori.Types.Block.{Block}
use ori.External.{External}
use ori.State.{StateDb, from_existing}
use ori.Balance.{u64}
use ori.Genesis.{setup_allocation}
use ori.BlockHash.{block_hash}
use ori.Chain.Store.{get_block, get_header_hash}
use ori.Chain.Store.Reads.{
  header_hash-lt, with_head, head_hash-with_head, get_block-with_head, get_header_hash-with_head,
  get_block_by_number_of, head_block_of,
}
use ori.Chain.{BlockChain, null_root, current_block, setup_genesis, load}
use ori.Chain.Growth.{IsChain}

-- One block of height 0, written to a store without blocks, is a chain.
pub first-IsChain :
    (ext : External) (d : ext.store.Db) (backend : ext.trie.Db) (g : Block)
    → g.header.height ≡ 0
    → ((n : ℕ) → n < u64 → get_header_hash ext d n ≡ some none)
    → ((h : Hash) → h < 2 ^ 256 → get_block ext d h ≢ none)
    → IsChain ext (record { db = with_head ext g d; state_backend = backend; genesis = g }) g []
first-IsChain ext d backend g zeroth empty readable =
    let lt = header_hash-lt ext g.header in
    let small : g.header.height < u64 = omega (arith, zeroth) in
    record {
      head = head_hash-with_head ext g d;
      stored = (
        ground (arith, get_block-with_head ext g d (block_hash ext g) lt),
        ground (arith, get_header_hash-with_head ext g d g.header.height small small),
        tt,
      );
      linked = zeroth;
      small = small;
      free =
          λ n ltn above. ground (arith, get_header_hash-with_head ext g d n ltn small, empty n ltn);
      decodes = λ h lth. ground (arith, get_block-with_head ext g d h lth, readable h lth);
    }

-- On a store without blocks, with a genesis block of height 0 whose allocation succeeds on the empty
-- state, `load` writes the genesis block with the root of the allocation and returns. The store then
-- holds the chain of that one block, and loading it once more returns the same chain.
pub load-load :
    (ext : External) (c : BlockChain ext) (s : StateDb ext.trie)
    → c.genesis.header.height ≡ 0
    → ((n : ℕ) → n < u64 → get_header_hash ext c.db n ≡ some none)
    → ((h : Hash) → h < 2 ^ 256 → get_block ext c.db h ≢ none)
    → setup_allocation ext (from_existing ext.trie c.state_backend null_root)
      ≡ some (s, s.state_root)
    → (c' : BlockChain ext) × (load ext c ≡ some c')
      × IsChain ext c' c'.genesis []
      × (c'.genesis.header.state_root ≡ s.state_root)
      × (c'.state_backend ≡ s.db)
      × (load ext c' ≡ some c')
unfolding load setup_genesis current_block
load-load ext c s zeroth empty readable done =
    let g : Block = record (c.genesis) {
      header = record (c.genesis.header) { state_root = s.state_root };
    } in
    let d = with_head ext g c.db in
    let c' : BlockChain ext = record { db = d; state_backend = s.db; genesis = g } in
    let lt = header_hash-lt ext g.header in
    let small : g.header.height < u64 = omega (arith, zeroth) in
    let body : get_block ext d (block_hash ext g) ≡ some (some g) =
      ground (arith, get_block-with_head ext g c.db (block_hash ext g) lt) in
    let index : get_header_hash ext d 0 ≡ some (some (block_hash ext g)) =
      ground (arith, get_header_hash-with_head ext g c.db 0 (omega arith) small, zeroth) in
    (
      c',
      rw (load, get_block_by_number_of ext c.db 0 (empty 0 (omega arith)), setup_genesis, done)
          refl,
      first-IsChain ext c.db s.db g zeroth empty readable,
      refl,
      refl,
      rw
          (
            load,
            get_block_by_number_of ext d 0 index,
            body,
            current_block,
            head_block_of ext d (head_hash-with_head ext g c.db),
            body,
          )
          refl,
    )
