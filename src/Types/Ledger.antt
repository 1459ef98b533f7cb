-- ===== src/Types/Ledger.antt =====
-- What the state stores: `Account` (core/src/balance.rs), `LockingBalance` and `Validator`
-- (core/src/staking.rs), and `ListEntry` (core/src/storage.rs).
use ori.Base.{ℕ, List, Option}
use ori.Types.Hash.{Bytes, Hash, Address}

-- `balance` and `locked_balance` are u128, `nonce` is u64.
pub record Account : Type 0 where
  pub balance : ℕ
  pub nonce : ℕ
  pub locked_balance : ℕ

-- `Account::default`
abbrev pub default_account : Account
default_account = record { balance = 0; nonce = 0; locked_balance = 0 }

pub record LockingBalance : Type 0 where
  pub amount : ℕ
  pub height : ℕ

pub record Validator : Type 0 where
  pub address : Address
  pub pubkey : Bytes
  pub balance : ℕ
  pub effective_balance : ℕ
  pub activate_height : ℕ
  pub exit_height : ℕ
  pub deposit_queue : List LockingBalance
  pub unlocked_queue : List LockingBalance

-- An element of a doubly linked list whose links are storage keys.
pub record ListEntry (T : Type 0) : Type 0 where
  pub pre : Option Hash
  pub next : Option Hash
  pub payload : T
