-- ===== src/Staking/Deposit.antt =====
-- The messages of `Staking`: `validate`, `deposit` and `exit`, on the list and on the account.
use ori.Base.{ℕ, ◌≡◌, Option, none, some, List, [], ◌∷◌, ◌++◌, arith}
use ori.Types.Hash.{Bytes, Address}
use ori.Types.Ledger.{Account, Validator}
use ori.External.{External}
use ori.State.{StateDb, get_storage}
use ori.Balance.{add128, sub128, address_key, load_account, lock_balance}
use ori.Balance.Accounts.{load_account_frame}
use ori.Balance.Moves.{lock_balance-Updates}
use ori.Staking.{head_key, key_index, get_validator, validate, deposit, exit}
use ori.Staking.Linked.{
  keys, find, IsList, KeysApart, Spares, IsList-frame, account_not_has, not_has_of_find,
}
use ori.Staking.Walk.{get_validator-IsList}
use ori.Staking.Insert.{insert-IsList}
use ori.Staking.Replace.{upsert, set_item-IsList}

-- The account after `amount` is moved to the reserve.
abbrev pub locked_account : ℕ → Account → Account
locked_account amount acc = record acc {
  balance = sub128 acc.balance amount;
  locked_balance = add128 acc.locked_balance amount;
}

-- The validator that `validate` makes.
abbrev pub new_validator : Address → Bytes → ℕ → Validator
new_validator a key amount = record {
  address = a;
  pubkey = key;
  balance = amount;
  effective_balance = amount;
  activate_height = 0;
  exit_height = 0;
  deposit_queue = [];
  unlocked_queue = [];
}

-- The validator that `deposit` makes of one.
abbrev pub deposited : ℕ → Validator → Validator
deposited amount v = record v {
  balance = add128 v.balance amount;
  deposit_queue = v.deposit_queue ++ record { amount = amount; height = 0 } ∷ [];
}

module _ (ext : External) (apart : KeysApart ext) (s : StateDb ext.trie) where
  -- Locking money behind a change of the list.
  lock_behind :
      (a : Address) (amount : ℕ) (acc : Account) (vs ws : List Validator) (s₁ : StateDb ext.trie)
      → load_account ext s a ≡ some acc
      → IsList ext s₁ vs
      → Spares ext s s₁ (head_key ∷ keys ext ws)
      → (s' : StateDb ext.trie) × (lock_balance ext a amount s₁ ≡ some s')
        × IsList ext s' vs
        × (load_account ext s' a ≡ some (locked_account amount acc))
  lock_behind a amount acc vs ws s₁ e l same =
      let kept : get_storage s₁ (address_key ext a) ≡ get_storage s (address_key ext a) =
        ground
          (arith, same (address_key ext a), account_not_has ext apart a ws, apart.account_head a) in
      let found : load_account ext s₁ a ≡ some acc = rw (load_account_frame ext s s₁ a kept) e in
      let done = lock_balance-Updates ext s₁ a amount acc found in
      (done.state, done.returns, IsList-frame ext apart s₁ done.state a vs done.storage l, done.own)

  pub get_find :
      (a : Address) (vs : List Validator) {r : Option Validator}
      → IsList ext s vs
      → find ext (key_index ext a) vs ≡ r
      → get_validator ext s a ≡ some r
  get_find a vs l e = rw (← e) (get_validator-IsList ext s a vs l)

  -- Where hashed storage keys do not collide: an address whose account decodes and that is no
  -- validator of the list joins. `validate` returns, the new validator stands in front of the
  -- list with the amount as its stake, and the amount moves, modulo 2 ^ 128, from the balance
  -- of the account to its reserve.
  pub validate-IsList :
      (a : Address) (pubkey : Bytes) (amount : ℕ) (acc : Account) (vs : List Validator)
      → IsList ext s vs
      → load_account ext s a ≡ some acc
      → find ext (key_index ext a) vs ≡ none
      → (s' : StateDb ext.trie) × (validate ext a pubkey amount s ≡ some s')
        × IsList ext s' (new_validator a pubkey amount ∷ vs)
        × (load_account ext s' a ≡ some (locked_account amount acc))
  unfolding validate
  validate-IsList a pubkey amount acc vs l e out =
      let v = new_validator a pubkey amount in
      let (s₁, run, l₁, same) =
        insert-IsList ext apart s v vs l (not_has_of_find ext s (key_index ext a) vs out) in
      let (s', run', l', own) = lock_behind a amount acc (v ∷ vs) (v ∷ vs) s₁ e l₁ same in
      (s', rw (validate, get_find a vs l out, run) run', l', own)

  -- An address that is a validator already cannot join again: nothing changes.
  pub validate_joined :
      (a : Address) (pubkey : Bytes) (amount : ℕ) (v : Validator) (vs : List Validator)
      → IsList ext s vs
      → find ext (key_index ext a) vs ≡ some v
      → validate ext a pubkey amount s ≡ some s
  unfolding validate
  validate_joined a pubkey amount v vs l found = rw (validate, get_find a vs l found)

  -- Where hashed storage keys do not collide: for a validator of the list whose account
  -- decodes, `deposit` returns, the amount is queued with height 0 and added, modulo 2 ^ 128,
  -- to the validator's balance, in its place in the list, and it moves, modulo 2 ^ 128, from
  -- the balance of the account to its reserve.
  pub deposit-IsList :
      (a : Address) (amount : ℕ) (acc : Account) (v : Validator) (vs : List Validator)
      → IsList ext s vs
      → load_account ext s a ≡ some acc
      → find ext (key_index ext a) vs ≡ some v
      → (s' : StateDb ext.trie) × (deposit ext a amount s ≡ some s')
        × IsList ext s' (upsert ext (deposited amount v) vs)
        × (load_account ext s' a ≡ some (locked_account amount acc))
  unfolding deposit
  deposit-IsList a amount acc v vs l e found =
      let (s₁, run, l₁, same) = set_item-IsList ext apart s (deposited amount v) vs l in
      let (s', run', l', own) =
        lock_behind a amount acc (upsert ext (deposited amount v) vs) (deposited amount v ∷ vs) s₁ e
          l₁ same in
      (s', rw (deposit, get_find a vs l found, run) run', l', own)

  -- A deposit of an address that is no validator changes nothing.
  pub deposit_stranger :
      (a : Address) (amount : ℕ) (vs : List Validator)
      → IsList ext s vs
      → find ext (key_index ext a) vs ≡ none
      → deposit ext a amount s ≡ some s
  unfolding deposit
  deposit_stranger a amount vs l out = rw (deposit, get_find a vs l out)

  -- Where hashed storage keys do not collide: for a validator of the list, `exit` returns, sets
  -- its exit height to 0 and keeps everything else of the list.
  pub exit-IsList :
      (a : Address) (v : Validator) (vs : List Validator)
      → IsList ext s vs
      → find ext (key_index ext a) vs ≡ some v
      → (s' : StateDb ext.trie) × (exit ext a s ≡ some s')
        × IsList ext s' (upsert ext (record v { exit_height = 0 }) vs)
  unfolding exit
  exit-IsList a v vs l found =
      let (s', run, l', same) = set_item-IsList ext apart s (record v { exit_height = 0 }) vs l in
      (s', rw (exit, get_find a vs l found) run, l')
