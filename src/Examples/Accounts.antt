-- ===== src/Examples/Accounts.antt =====
-- A state with two funded accounts and a third that is empty, and what `Balance` does to it.
use ori.Base.{◌≡◌, refl, none, some, ◌+◌, ◌-◌, ◌==◌, if◌then◌else◌, arith}
use ori.Types.Hash.{Address, Hash, be_bytes, as_bytes, as_slice, from_bytes, be_value}
use ori.Types.Ledger.{Account, default_account}
use ori.Crypto.{blake2b_256}
use ori.State.{StateDb, from_existing, set_storage, get_storage, commit}
use ori.State.Storage.{IsReady, set_storage-IsReady}
use ori.State.Commit.{commit-get_storage}
use ori.Balance.{address_key, load_account, set_account, lock_balance, unlock_balance}
use ori.Balance.Moves.{lock_balance-unlock_balance}
use ori.Examples.Sample.{sample}

abbrev pub holding : Account
holding = record { balance = 50000; nonce = 0; locked_balance = 7 }

abbrev pub other : Account
other = record { balance = 300; nonce = 4; locked_balance = 0 }

abbrev pub empty : StateDb sample.trie
empty = from_existing sample.trie (λ j. none) 0

abbrev pub funded : StateDb sample.trie
funded = set_account sample 1 holding (set_account sample 2 other empty)

pub key_1 : address_key sample 1 ≡ 7
unfolding address_key blake2b_256 as_bytes as_slice from_bytes be_bytes be_value
key_1 = refl

pub key_2 : address_key sample 2 ≡ 11
unfolding address_key blake2b_256 as_bytes as_slice from_bytes be_bytes be_value
key_2 = refl

pub key_3 : address_key sample 3 ≡ 15
unfolding address_key blake2b_256 as_bytes as_slice from_bytes be_bytes be_value
key_3 = refl

pub funded_1 : load_account sample funded 1 ≡ some holding
unfolding load_account set_account set_storage get_storage from_existing address_key blake2b_256
    as_bytes as_slice from_bytes be_bytes be_value
funded_1 = refl

pub funded_2 : load_account sample funded 2 ≡ some other
unfolding load_account set_account set_storage get_storage from_existing address_key blake2b_256
    as_bytes as_slice from_bytes be_bytes be_value
funded_2 = refl

pub funded_3 : load_account sample funded 3 ≡ some default_account
unfolding load_account set_account set_storage get_storage from_existing address_key blake2b_256
    as_bytes as_slice from_bytes be_bytes be_value
funded_3 = refl

lock_balance-unlock_balance_example :
    (s₁ : StateDb sample.trie) × (s₂ : StateDb sample.trie) × (lock_balance sample 1 1000 funded
      ≡ some s₁)
    × (unlock_balance sample 1 1000 s₁ ≡ some s₂)
    × ((c : Address)
        → load_account sample s₁ c ≡ (
            if address_key sample c == address_key sample 1
            then some (record holding { balance = 50000 - 1000; locked_balance = 7 + 1000 })
            else load_account sample funded c))
    × ((c : Address) → load_account sample s₂ c ≡ load_account sample funded c)
lock_balance-unlock_balance_example =
    lock_balance-unlock_balance sample funded 1 1000 holding funded_1 (omega arith) (omega arith)
      (omega arith)

pub funded-IsReady : IsReady funded
unfolding set_account set_storage from_existing
funded-IsReady =
    set_storage-IsReady (set_account sample 2 other empty) (address_key sample 1)
      (sample.codecs.account.serialize holding) refl
      (set_storage-IsReady empty (address_key sample 2) (sample.codecs.account.serialize other) refl
        (tt, refl, tt))

commit-get_storage_example :
    (s' : StateDb sample.trie) × (commit funded ≡ some s')
    × ((j : Hash)
        → get_storage (from_existing sample.trie s'.db s'.state_root) j ≡ get_storage funded j)
    × ((j : Hash) → get_storage s' j ≡ get_storage funded j)
    × IsReady s'
commit-get_storage_example = commit-get_storage funded funded-IsReady
