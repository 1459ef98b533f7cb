-- ===== src/Examples/Growing.antt =====
-- A node that wins a slot with a payment in its pool, over a trie that keeps its versions.
use ori.Base.{ℕ, ◌<◌, ◌^◌, ◌≡◌, ◌≢◌, refl, ◌∙◌, true, none, some, List, [], ◌∷◌}
use ori.Base.Dict.{Dict}
use ori.Types.Hash.{Bytes, Hash, as_bytes, as_slice, be_bytes, from_bytes, be_value}
use ori.Types.Ledger.{default_account}
use ori.Types.Block.{Block, default_header}
use ori.State.{StateDb, commit, from_existing, set_storage, get_storage}
use ori.Crypto.{blake2b_256}
use ori.Types.Message.{tx_hash_type}
use ori.Signing.{tx_hash, verify_sign}
use ori.Balance.{
  u64, commit_balance, address_key, load_account, set_account, add_balance, balance_of, sub_balance,
  inc_nonce, transfer,
}
use ori.Executor.{ok, exc_transfer_tx, exc_txs_in_block}
use ori.Executor.Errors.{charge_runs, checked, exc_txs_in_block_one}
use ori.Genesis.{to_genesis}
use ori.BlockHash.{new_block}
use ori.Chain.{BlockChain}
use ori.Chain.Store.{get_header_hash, get_block}
use ori.Chain.Store.Reads.{with_head}
use ori.Chain.Start.{first-IsChain}
use ori.Chain.Growth.{IsChain}
use ori.Pool.{TxPool, new_pool}
use ori.Generator.Proposal.{get_pending}
use ori.Examples.Sample.{sample}
use ori.Examples.Versions.{versioned}
use ori.Examples.Accounts.{holding, other}
use ori.Examples.Blocks.{pay_1000, sent_1000}

-- The accounts of the funded state are the first version.
abbrev pub rich : List (Dict Bytes) → versioned.trie.Db
rich later =
    ((7, sample.codecs.account.serialize holding)
      ∷ (11, sample.codecs.account.serialize other)
      ∷ [])
    ∷ later

abbrev pub start : List (Dict Bytes) → StateDb versioned.trie
start later = from_existing versioned.trie (rich later) 0

start_holds : (later : List (Dict Bytes)) → load_account versioned (start later) 1 ≡ some holding
unfolding load_account get_storage from_existing address_key blake2b_256 as_bytes as_slice
    from_bytes be_bytes be_value
start_holds later = refl

abbrev after_fee : List (Dict Bytes) → StateDb versioned.trie
after_fee later = record (start later) {
  local_changes =
      (7, some (sample.codecs.account.serialize (record holding { balance = 40000 }))) ∷ [];
}

abbrev after_nonce : List (Dict Bytes) → StateDb versioned.trie
after_nonce later = record (start later) {
  local_changes =
      (7, some (sample.codecs.account.serialize (record holding { balance = 40000; nonce = 1 })))
      ∷ [];
}

abbrev after_transfer : List (Dict Bytes) → StateDb versioned.trie
after_transfer later = record (start later) {
  local_changes =
      (7, some (sample.codecs.account.serialize (record holding { balance = 39000; nonce = 1 })))
      ∷ (11, some (sample.codecs.account.serialize (record other { balance = 1300 })))
      ∷ [];
}

fee_runs :
    (later : List (Dict Bytes))
    → sub_balance versioned 1 10000 (start later) ≡ some (after_fee later)
unfolding sub_balance load_account set_account set_storage get_storage from_existing address_key
    blake2b_256 as_bytes as_slice from_bytes be_bytes be_value
fee_runs later = refl

nonce_runs :
    (later : List (Dict Bytes)) → inc_nonce versioned 1 (after_fee later) ≡ some (after_nonce later)
unfolding inc_nonce load_account set_account set_storage get_storage from_existing address_key
    blake2b_256 as_bytes as_slice from_bytes be_bytes be_value
nonce_runs later = refl

transfer_runs :
    (later : List (Dict Bytes))
    → transfer versioned 1 2 1000 (after_nonce later) ≡ some (after_transfer later)
unfolding transfer balance_of sub_balance add_balance load_account set_account set_storage
    get_storage from_existing address_key blake2b_256 as_bytes as_slice from_bytes be_bytes be_value
transfer_runs later = refl

abbrev after_miner : List (Dict Bytes) → StateDb versioned.trie
after_miner later = record (start later) {
  local_changes =
      (7, some (sample.codecs.account.serialize (record holding { balance = 39000; nonce = 1 })))
      ∷ (11, some (sample.codecs.account.serialize (record other { balance = 1300 })))
      ∷ (3, some (sample.codecs.account.serialize (record default_account { balance = 10000 })))
      ∷ [];
}

miner_runs :
    (later : List (Dict Bytes))
    → add_balance versioned 0 10000 (after_transfer later) ≡ some (after_miner later)
unfolding add_balance load_account set_account set_storage get_storage from_existing address_key
    blake2b_256 as_bytes as_slice from_bytes be_bytes be_value
miner_runs later = refl

pay_1000_checks : verify_sign versioned pay_1000 ≡ true
unfolding verify_sign tx_hash tx_hash_type blake2b_256 be_value
pay_1000_checks = refl

payment_runs :
    (later : List (Dict Bytes))
    → exc_transfer_tx versioned pay_1000 (start later) ≡ ok tt (after_transfer later)
payment_runs later =
    checked versioned pay_1000 (start later) sent_1000 holding refl pay_1000_checks
      (start_holds later)
    ∙ charge_runs versioned pay_1000 (start later) 1 2 1000 (fee_runs later) (nonce_runs later)
        (transfer_runs later)

-- The versions that the block adds
abbrev pub added : List (Dict Bytes)
added =
    ((7, sample.codecs.account.serialize (record holding { balance = 39000; nonce = 1 }))
      ∷ (11, sample.codecs.account.serialize other)
      ∷ [])
    ∷ ((7, sample.codecs.account.serialize (record holding { balance = 39000; nonce = 1 }))
        ∷ (11, sample.codecs.account.serialize (record other { balance = 1300 }))
        ∷ [])
    ∷ ((7, sample.codecs.account.serialize (record holding { balance = 39000; nonce = 1 }))
        ∷ (11, sample.codecs.account.serialize (record other { balance = 1300 }))
        ∷ (3, sample.codecs.account.serialize (record default_account { balance = 10000 }))
        ∷ [])
    ∷ []

abbrev pub ran : StateDb versioned.trie
ran = record (after_miner added) { state_root = 3 }

commit_runs : commit_balance versioned (after_miner []) ≡ some (ran, 3)
unfolding commit_balance commit from_existing
commit_runs = refl

commits_again : commit_balance versioned (after_miner added) ≡ some (ran, 3)
unfolding commit_balance commit from_existing
commits_again = refl

abbrev pub paying_pool : TxPool
paying_pool = record new_pool { pending = (1, pay_1000) ∷ [] }

abbrev pub body : Block
body = new_block versioned default_header (get_pending paying_pool) [] []

pub body_runs : exc_txs_in_block versioned body 0 (start []) ≡ ok 3 ran
unfolding new_block
body_runs =
    exc_txs_in_block_one versioned pay_1000 (start []) body 0 refl (payment_runs []) (miner_runs [])
      commit_runs

pub body_runs_again : exc_txs_in_block versioned body 0 (start added) ≡ ok 3 ran
unfolding new_block
body_runs_again =
    exc_txs_in_block_one versioned pay_1000 (start added) body 0 refl (payment_runs added)
      (miner_runs added) commits_again

paying_zeroth : (to_genesis versioned).header.height ≡ 0
unfolding to_genesis
paying_zeroth = refl

paying_free : (n : ℕ) → n < u64 → get_header_hash versioned (λ j. none) n ≡ some none
unfolding get_header_hash
paying_free n lt = refl

paying_decodes : (h : Hash) → h < 2 ^ 256 → get_block versioned (λ j. none) h ≢ none
unfolding get_block
paying_decodes h lt e = cc

abbrev pub paying_chain : BlockChain versioned
paying_chain = record {
  db = with_head versioned (to_genesis versioned) (λ j. none);
  state_backend = rich [];
  genesis = to_genesis versioned;
}

pub paying_chain-IsChain : IsChain versioned paying_chain (to_genesis versioned) []
paying_chain-IsChain =
    first-IsChain versioned (λ j. none) (rich []) (to_genesis versioned) paying_zeroth paying_free
      paying_decodes
