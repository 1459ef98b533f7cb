-- ===== src/Examples/Proposals.antt =====
-- A node that wins a slot on the chain of the genesis block.
use ori.Base.{ℕ, ◌+◌, ◌<◌, ◌≡◌, refl, true, false, none, some, [], ◌∷◌, arith}
use ori.Types.Hash.{as_bytes, as_slice, from_bytes, be_bytes, be_value}
use ori.Types.Block.{Block, VrfProof}
use ori.State.{from_existing, get_storage}
use ori.Crypto.{blake2b_256}
use ori.Types.Message.{tx_hash_type}
use ori.Signing.{tx_hash, verify_sign}
use ori.Balance.{u64, address_key, load_account}
use ori.Executor.{ok, exc_txs_in_block}
use ori.Executor.Unsigned.{all_signed}
use ori.Genesis.{to_genesis}
use ori.BlockHash.{new_block, get_hash_from_txs, get_hash_from_signs}
use ori.Chain.{BlockChain, imported, import_block}
use ori.Chain.Outcomes.{import_block_accepts}
use ori.Chain.Store.Reads.{with_head}
use ori.Pool.{TxPool, new_pool, reset_pool}
use ori.Network.Message.{publish, block_message}
use ori.Network.Context.{put}
use ori.Vrf.{compute_with_proof}
use ori.Generator.Committee.{EpochPos, make_slot_proposer}
use ori.Generator.Proposal.{Proposer, get_pending, on_slot}
use ori.Generator.Proposal.Acceptance.{own_block, on_slot_extends, on_slot_crashes}
use ori.Examples.Sample.{sample}
use ori.Examples.Chains.{unsigned, ground_chain, ground_chain-IsChain}
use ori.Examples.Accounts.{holding}
use ori.Examples.Versions.{versioned}
use ori.Examples.Growing.{
  ran, paying_pool, paying_chain, paying_chain-IsChain, body, body_runs, body_runs_again,
}
use ori.Examples.Lotteries.{two_points}

-- The committee of the first epoch is the node itself.
abbrev own_stake : EpochPos
own_stake = record {
  epoch_infos =
      (
        0,
        record {
          seed = 0;
          rng_seed = 0;
          validators = record { pubkey = 7; stake_amount = 1; sid = 0; validator = true } ∷ [];
        },
      )
      ∷ [];
  eid = 0;
  dev_mode = false;
}

abbrev node_with : TxPool → Proposer sample
node_with pool = record {
  myid = 7;
  chain = ground_chain;
  tx_pool = pool;
  stake = own_stake;
  network_send = record { sent = []; is_open = true };
}

abbrev all : ℕ → ℕ → ℕ × ℕ
all empty num = (1, 1)

abbrev proof : VrfProof
proof = record { low = 0; high = 0 }

node_wins :
    (pool : TxPool)
    → make_slot_proposer sample ground_chain 1 two_points all own_stake 3 7 ≡ some (some (1, proof))
unfolding make_slot_proposer compute_with_proof blake2b_256 as_bytes be_bytes be_value
node_wins pool = refl

abbrev spoiled_pool : TxPool
spoiled_pool = record new_pool { pending = (1, unsigned) ∷ [] }

spoiled_signed : all_signed sample (get_pending ((node_with spoiled_pool).tx_pool)) ≡ false
unfolding verify_sign tx_hash tx_hash_type blake2b_256 be_value
spoiled_signed = refl

on_slot_crashes_example :
    on_slot sample 1 two_points all 1700000000 3 (node_with spoiled_pool) ≡ none
on_slot_crashes_example =
    on_slot_crashes sample 1 two_points all (node_with spoiled_pool) (to_genesis sample) []
      ground_chain-IsChain 1700000000 3 1 proof (node_wins spoiled_pool) spoiled_signed

abbrev payer : Proposer versioned
payer = record {
  myid = 7;
  chain = paying_chain;
  tx_pool = paying_pool;
  stake = own_stake;
  network_send = record { sent = []; is_open = true };
}

payer_wins :
    make_slot_proposer versioned paying_chain 1 two_points all own_stake 3 7
    ≡ some (some (1, proof))
unfolding make_slot_proposer compute_with_proof blake2b_256 as_bytes be_bytes be_value
payer_wins = refl

genesis_low : (to_genesis versioned).header.height + 1 < u64
unfolding to_genesis
genesis_low = omega arith

genesis_early : (to_genesis versioned).header.time < 1700000000
unfolding to_genesis
genesis_early = omega arith

genesis_root : (to_genesis versioned).header.state_root ≡ 0
unfolding to_genesis
genesis_root = refl

paying_runs :
    exc_txs_in_block versioned body 0 (
      from_existing versioned.trie paying_chain.state_backend
        ((to_genesis versioned).header.state_root))
    ≡ ok 3 ran
paying_runs = rw genesis_root body_runs

paying_again :
    exc_txs_in_block versioned body 0
      (from_existing versioned.trie ran.db ((to_genesis versioned).header.state_root))
    ≡ ok 3 ran
unfolding from_existing
paying_again = rw genesis_root body_runs_again

abbrev first_own : Block
first_own = own_block versioned 1700000000 3 1 proof paying_pool 3 (to_genesis versioned)

abbrev grown : BlockChain versioned
grown = record paying_chain {
  db = with_head versioned first_own paying_chain.db;
  state_backend = ran.db;
}

payer_loads :
    load_account versioned (from_existing versioned.trie grown.state_backend 3) 1
    ≡ some (record holding { balance = 39000; nonce = 1 })
unfolding load_account get_storage from_existing address_key blake2b_256 as_bytes as_slice
    from_bytes be_bytes be_value
payer_loads = refl

-- The payment has been made, so the reset throws it out.
pool_reset :
    reset_pool versioned grown first_own paying_pool ≡ some (record paying_pool { pending = [] })
unfolding reset_pool
pool_reset = rw payer_loads refl

on_slot_extends_example :
    on_slot versioned 1 two_points all 1700000000 3 payer
    ≡ some (record payer {
      chain = grown;
      tx_pool = record paying_pool { pending = [] };
      network_send =
          put
            (publish (block_message (versioned.codecs.block.serialize first_own)))
            payer.network_send;
    })
on_slot_extends_example =
    on_slot_extends versioned 1 two_points all payer (to_genesis versioned) [] paying_chain-IsChain
      1700000000 3 1 proof payer_wins 3 ran ran (record paying_pool { pending = [] }) genesis_low
      genesis_early paying_runs paying_again pool_reset

own_height : first_own.header.height < u64
unfolding new_block to_genesis
own_height = omega arith

own_next : first_own.header.height ≡ (to_genesis versioned).header.height + 1
unfolding new_block to_genesis
own_next = refl

own_later : (to_genesis versioned).header.time < first_own.header.time
unfolding new_block to_genesis
own_later = omega arith

own_signs : first_own.header.sign_root ≡ get_hash_from_signs versioned first_own.signs
unfolding new_block
own_signs = refl

own_txs : first_own.header.tx_root ≡ get_hash_from_txs versioned first_own.txs
unfolding new_block
own_txs = refl

own_runs :
    exc_txs_in_block versioned first_own 0 (
      from_existing versioned.trie paying_chain.state_backend
        ((to_genesis versioned).header.state_root))
    ≡ ok first_own.header.state_root ran
unfolding exc_txs_in_block new_block
own_runs = paying_runs

import_block_accepts_example :
    import_block versioned first_own paying_chain
    ≡ imported (record paying_chain {
      db = with_head versioned first_own paying_chain.db;
      state_backend = ran.db;
    })
unfolding new_block
import_block_accepts_example =
    import_block_accepts versioned paying_chain (to_genesis versioned) [] paying_chain-IsChain
      first_own own_height refl own_next own_later own_signs own_txs ran own_runs
