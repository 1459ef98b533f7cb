-- ===== src/Examples/Validators.antt =====
-- The validator list of the funded state: two validators join, one by one.
use ori.Base.{ℕ, ◌≡◌, refl, none, some, [], ◌∷◌, arith}
use ori.Types.Hash.{be_bytes, as_bytes, as_slice, from_bytes, be_value}
use ori.Types.Ledger.{Validator}
use ori.Crypto.{blake2b_256}
use ori.State.{StateDb, from_existing, set_storage, get_storage}
use ori.Balance.{address_key, load_account, set_account}
use ori.Balance.Accounts.{get_storage-set_account}
use ori.Staking.{
  head_key, done, out_of_fuel, key_index, insert, get_entry, put_entry, delete, validator_set,
  deposit, activate_deposit,
}
use ori.Staking.Linked.{keys, IsList, Spares, IsList-frame}
use ori.Staking.Insert.{insert-IsList}
use ori.Staking.Unlink.{erase}
use ori.Staking.Delete.{delete-IsList}
use ori.Staking.Walk.{validator_set-IsList}
use ori.Staking.Deposit.{new_validator}
use ori.Staking.Activate.{deposit-activate_hangs}
use ori.Examples.Sample.{sample, sample_apart}
use ori.Examples.Accounts.{holding, other, empty, funded}

pub empty-IsList : IsList sample empty []
unfolding get_storage from_existing
empty-IsList = record { head = refl; chain = tt; distinct = (refl, tt); absent = λ a out. refl }

funded-IsList : IsList sample funded []
funded-IsList =
    let s₁ = set_account sample 2 other empty in
    IsList-frame sample sample_apart s₁ funded 1 [] (get_storage-set_account sample s₁ 1 holding) (
      IsList-frame sample sample_apart empty s₁ 2 [] (get_storage-set_account sample empty 2 other)
        empty-IsList)

abbrev bob : Validator
bob = new_validator 2 [] 20

-- Her only deposit is for height 9.
abbrev alice : Validator
alice = record (new_validator 1 [] 10) { deposit_queue = record { amount = 4; height = 9 } ∷ [] }

abbrev with_bob : StateDb sample.trie
with_bob = elim (insert sample bob funded) [ some s ↦ s | none ↦ funded ]

abbrev with_alice : StateDb sample.trie
with_alice = elim (insert sample alice with_bob) [ some s ↦ s | none ↦ with_bob ]

bob_index : key_index sample 2 ≡ 9
unfolding key_index head_key blake2b_256 as_bytes as_slice from_bytes be_bytes be_value
bob_index = refl

alice_index : key_index sample 1 ≡ 5
unfolding key_index head_key blake2b_256 as_bytes as_slice from_bytes be_bytes be_value
alice_index = refl

with_bob-IsList : IsList sample with_bob (bob ∷ [])
with_bob-IsList =
    let (s', run, l, same) = insert-IsList sample sample_apart funded bob [] funded-IsList refl in
    rw (run, with_bob) l

with_alice-IsList : IsList sample with_alice (alice ∷ bob ∷ [])
with_alice-IsList =
    let (s', run, l, same) =
      insert-IsList sample sample_apart with_bob alice (bob ∷ []) with_bob-IsList
        (rw (alice_index, bob_index) refl) in
    rw (run, with_alice) l

with_bob_funds : load_account sample with_bob 2 ≡ some other
unfolding insert put_entry get_entry key_index head_key load_account set_account set_storage
    get_storage from_existing address_key blake2b_256 as_bytes as_slice from_bytes be_bytes be_value
with_bob_funds = refl

insert-IsList_example :
    (s' : StateDb sample.trie) × (insert sample alice with_bob ≡ some s')
    × IsList sample s' (alice ∷ bob ∷ [])
    × Spares sample with_bob s' (head_key ∷ keys sample (alice ∷ bob ∷ []))
insert-IsList_example =
    insert-IsList sample sample_apart with_bob alice (bob ∷ []) with_bob-IsList
      (rw (alice_index, bob_index) refl)

delete-IsList_example :
    (s' : StateDb sample.trie) × (delete sample 1 with_alice ≡ some s')
    × IsList sample s' (erase sample (key_index sample 1) (alice ∷ bob ∷ []))
delete-IsList_example =
    delete-IsList sample sample_apart with_alice 1 (alice ∷ bob ∷ []) with_alice-IsList

validator_set-IsList_example : validator_set sample 3 with_alice ≡ done (alice ∷ bob ∷ [])
validator_set-IsList_example =
    validator_set-IsList sample with_alice 3 (alice ∷ bob ∷ []) with_alice-IsList (omega arith)

deposit-activate_hangs_example :
    (s' : StateDb sample.trie) × (deposit sample 2 30 with_bob ≡ some s')
    × ((fuel : ℕ) → activate_deposit sample fuel 2 s' ≡ out_of_fuel)
deposit-activate_hangs_example =
    deposit-activate_hangs sample sample_apart with_bob 2 30 other bob (bob ∷ []) with_bob-IsList
      with_bob_funds (rw bob_index refl) refl
