-- ===== src/Balance.antt =====
-- `Balance` of core/src/balance.rs: accounts in the state. A `Balance` shares the state with the
-- other modules by reference, so its methods take the state and return it. `none` is the panic of
-- `unwrap` on bytes that do not decode. Sums and differences wrap, as a release build computes
-- them: the build files switch no overflow check on.
pub mod Accounts
pub mod Funds
pub mod Transfer
pub mod Moves
use ori.Base.{ℕ, ◌+◌, ◌-◌, ◌%◌, ◌^◌, Bool, Option, none, some, [], ◌++◌, leb, if◌then◌else◌, ◌>>=◌}
use ori.Types.Hash.{Bytes, Hash, Address, as_bytes, as_slice, from_bytes}
use ori.Types.Ledger.{Account, default_account}
use ori.Types.Message.{MsgTransfer}
use ori.External.{External, Codec}
use ori.Crypto.{blake2b_256}
use ori.State.{StateDb, get_storage, set_storage, commit}

abbrev pub u128 : ℕ
u128 = 2 ^ 128

abbrev pub u64 : ℕ
u64 = 2 ^ 64

-- `a + b` and `a - b` of two u128
abbrev pub add128 : ℕ → ℕ → ℕ
add128 a b = (a + b) % u128

abbrev pub sub128 : ℕ → ℕ → ℕ
sub128 a b = (a + u128 - b) % u128

module _ (ext : External) where
  -- `Balance::address_key`
  unfoldable pub address_key : Address → Hash
  unfolding blake2b_256
  address_key addr = blake2b_256 ext (as_bytes (from_bytes (as_slice addr)))

  unfoldable pub load_account : StateDb ext.trie → Address → Option Account
  load_account s addr = elim (get_storage s (address_key addr)) [
    | some serialized ↦ ext.codecs.account.deserialize serialized
    | none ↦ some default_account
  ]

  unfoldable pub set_account : Address → Account → StateDb ext.trie → StateDb ext.trie
  set_account addr account s =
      set_storage (address_key addr) (ext.codecs.account.serialize account) s

  -- A method that loads the account, changes it and stores it.
  abbrev update : (Account → Account) → Address → StateDb ext.trie → Option (StateDb ext.trie)
  update change addr s = do
    account ← load_account s addr
    some (set_account addr (change account) s)

  -- `Balance::balance`
  unfoldable pub balance_of : StateDb ext.trie → Address → Option ℕ
  balance_of s addr = do account ← load_account s addr; some account.balance

  unfoldable pub inc_nonce : Address → StateDb ext.trie → Option (StateDb ext.trie)
  inc_nonce = update (λ account. record account { nonce = (account.nonce + 1) % u64 })

  unfoldable pub add_balance : Address → ℕ → StateDb ext.trie → Option (StateDb ext.trie)
  add_balance addr value =
      update (λ account. record account { balance = add128 account.balance value }) addr

  unfoldable pub sub_balance : Address → ℕ → StateDb ext.trie → Option (StateDb ext.trie)
  sub_balance addr value =
      update (λ account. record account { balance = sub128 account.balance value }) addr

  pub slash : Address → ℕ → StateDb ext.trie → Option (StateDb ext.trie)
  slash addr value =
      update (λ account. record account { locked_balance = sub128 account.locked_balance value })
        addr

  pub lock_balance : Address → ℕ → StateDb ext.trie → Option (StateDb ext.trie)
  lock_balance addr value =
      update
        (λ account. record account {
          balance = sub128 account.balance value;
          locked_balance = add128 account.locked_balance value;
        })
        addr

  pub unlock_balance : Address → ℕ → StateDb ext.trie → Option (StateDb ext.trie)
  unlock_balance addr value =
      update
        (λ account. record account {
          balance = add128 account.balance value;
          locked_balance = sub128 account.locked_balance value;
        })
        addr

  -- Short of funds, a transfer does nothing and says nothing.
  unfoldable pub transfer : Address → Address → ℕ → StateDb ext.trie → Option (StateDb ext.trie)
  transfer from_addr to_addr amount s = do
    funds ← balance_of s from_addr
    if leb amount funds
        then (do s' ← sub_balance from_addr amount s; add_balance to_addr amount s')
        else some s

  pub exec_transfer : Address → Bytes → StateDb ext.trie → Option (StateDb ext.trie)
  exec_transfer from_addr input s = do
    msg ← ext.codecs.transfer.deserialize input
    transfer from_addr msg.receiver msg.value s

  -- `Balance::commit`, with the new root
  unfoldable pub commit_balance : StateDb ext.trie → Option (StateDb ext.trie × Hash)
  commit_balance s = do s' ← commit s; some (s', s'.state_root)
