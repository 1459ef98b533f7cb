-- ===== src/Examples/Chains.antt =====
-- A chain that starts from nothing and takes a block.
use ori.Base.{
  ℕ, ◌+◌, ◌<◌, ◌^◌, ◌≡◌, ◌≢◌, refl, none, some, false, [], ◌∷◌, arith, leb, not, ◌==◌,
  if◌then◌else◌, has,
}
use ori.Types.Hash.{Hash, be_value}
use ori.Types.Block.{Block, default_header}
use ori.State.{StateDb, from_existing}
use ori.Crypto.{blake2b_256}
use ori.Types.Message.{Transaction, tx_hash_type}
use ori.Signing.{tx_hash, verify_sign}
use ori.Balance.{u64}
use ori.Executor.Unsigned.{all_signed}
use ori.Genesis.{to_genesis}
use ori.Chain.{
  BlockChain, refused, known_block, unknown_ancestor, invalid_block_height, invalid_block_time,
  after, validate_block, execute_block, crashed, import_block,
}
use ori.Chain.Store.{get_header_hash, get_block}
use ori.Chain.Start.{first-IsChain}
use ori.Chain.Outcomes.{Grows, import_block-Grows, import_block_crashes}
use ori.Chain.Store.Reads.{with_head, header_hash-lt}
use ori.BlockHash.{header_hash, block_hash, new_block, get_hash_from_txs, get_hash_from_signs}
use ori.Chain.Growth.{IsChain, hashes, import_block_decides}
use ori.Examples.Sample.{sample}

abbrev blank : BlockChain sample
blank = record { db = λ j. none; state_backend = λ j. none; genesis = to_genesis sample }

blank_zeroth : blank.genesis.header.height ≡ 0
unfolding to_genesis
blank_zeroth = refl

blank_free : (n : ℕ) → n < u64 → get_header_hash sample blank.db n ≡ some none
unfolding get_header_hash
blank_free n lt = refl

blank_decodes : (h : Hash) → h < 2 ^ 256 → get_block sample blank.db h ≢ none
unfolding get_block
blank_decodes h lt e = cc

-- A transfer of nothing that nobody signed.
abbrev pub unsigned : Transaction
unsigned = record {
  sender = 1;
  nonce = 1;
  gas_price = 0;
  gas = 0;
  call = [];
  payload = sample.codecs.transfer.serialize (record { receiver = 2; value = 0 });
  sign_data = record { r = 0; s = 0; p = 0 };
}

-- The chain of the block that `to_genesis` makes.
abbrev pub ground_chain : BlockChain sample
ground_chain = record {
  db = with_head sample (to_genesis sample) (λ j. none);
  state_backend = λ j. none;
  genesis = to_genesis sample;
}

pub ground_chain-IsChain : IsChain sample ground_chain (to_genesis sample) []
ground_chain-IsChain =
    first-IsChain sample (λ j. none) (λ j. none) (to_genesis sample) blank_zeroth blank_free
      blank_decodes

-- A block without transactions on top, which leaves the state as it is.
abbrev pub second : Block
second = record (new_block sample default_header [] [] []) {
  header = record ((new_block sample default_header [] [] []).header) {
    parent_hash = block_hash sample (to_genesis sample);
    height = 1;
    time = 1700000000;
  };
}

-- The same block with a transaction that is not signed.
abbrev spoiled : Block
spoiled = record (new_block sample default_header (unsigned ∷ []) [] []) {
  header = record ((new_block sample default_header (unsigned ∷ []) [] []).header) {
    parent_hash = block_hash sample (to_genesis sample);
    height = 1;
    time = 1700000000;
  };
}

pub second_height : second.header.height ≡ 1
unfolding new_block
second_height = refl

pub second_new : has (block_hash sample second) (hashes sample (to_genesis sample ∷ [])) ≡ false
unfolding header_hash new_block to_genesis get_hash_from_txs get_hash_from_signs blake2b_256
    be_value
second_new = refl

pub second_width : second.header.parent_hash < 2 ^ 256
unfolding new_block
second_width = header_hash-lt sample ((to_genesis sample).header)

import_block-Grows_example :
    Grows sample ground_chain second
      (to_genesis sample)
      []
      (import_block sample second ground_chain)
import_block-Grows_example =
    import_block-Grows sample ground_chain (to_genesis sample) [] ground_chain-IsChain second
      (omega (arith, second_height)) second_width second_new

import_block_decides_example : import_block sample second ground_chain ≡ (
    if leb second.header.height (to_genesis sample).header.height
    then refused known_block ground_chain
    else if not (second.header.parent_hash == block_hash sample (to_genesis sample))
    then refused unknown_ancestor ground_chain
    else if not (second.header.height == (to_genesis sample).header.height + 1)
    then refused invalid_block_height ground_chain
    else if leb second.header.time (to_genesis sample).header.time
    then refused invalid_block_time ground_chain
    else after sample
        (validate_block sample second)
        ground_chain
        (execute_block sample (to_genesis sample) second ground_chain))
import_block_decides_example =
    import_block_decides sample ground_chain (to_genesis sample) [] ground_chain-IsChain second
      (omega (arith, second_height)) second_width

-- The state that the genesis block names.
abbrev pub genesis_state : StateDb sample.trie
genesis_state =
    from_existing sample.trie ground_chain.state_backend ((to_genesis sample).header.state_root)

spoiled_signed : all_signed sample spoiled.txs ≡ false
unfolding new_block verify_sign tx_hash tx_hash_type blake2b_256 be_value
spoiled_signed = refl

spoiled_height : spoiled.header.height ≡ 1
unfolding new_block
spoiled_height = refl

spoiled_parent : spoiled.header.parent_hash ≡ block_hash sample (to_genesis sample)
unfolding new_block
spoiled_parent = refl

spoiled_next : spoiled.header.height ≡ (to_genesis sample).header.height + 1
unfolding new_block to_genesis
spoiled_next = refl

spoiled_later : (to_genesis sample).header.time < spoiled.header.time
unfolding new_block to_genesis
spoiled_later = omega arith

spoiled_signs : spoiled.header.sign_root ≡ get_hash_from_signs sample spoiled.signs
unfolding new_block
spoiled_signs = refl

spoiled_txs : spoiled.header.tx_root ≡ get_hash_from_txs sample spoiled.txs
unfolding new_block
spoiled_txs = refl

import_block_crashes_example : import_block sample spoiled ground_chain ≡ crashed
import_block_crashes_example =
    import_block_crashes sample ground_chain (to_genesis sample) [] ground_chain-IsChain spoiled
      (omega (arith, spoiled_height)) spoiled_parent spoiled_next spoiled_later spoiled_signs
      spoiled_txs spoiled_signed
