-- ===== src/Executor.antt =====
-- executor/src/lib.rs: the transactions of a block, one after the other.
pub mod Supply
pub mod Unsigned
pub mod Errors
pub mod Overflow
use ori.Base.{ℕ, ◌+◌, ◌%◌, Bool, Option, none, some, List, [], ◌∷◌, ltb, not, ◌==◌, if◌then◌else◌}
use ori.Types.Hash.{Hash, Address}
use ori.Types.Message.{Transaction}
use ori.Types.Block.{Block}
use ori.External.{External}
use ori.State.{StateDb}
use ori.Signing.{verify_sign}
use ori.Balance.{
  u64, add128, load_account, add_balance, sub_balance, inc_nonce, transfer, commit_balance,
}

pub data ExecError : Type 0 where
  invalid_signature : ExecError
  invalid_tx_nonce : ExecError
  balance_not_enough : ExecError

-- A result with the state that it leaves: an error keeps what was written before it. A panic has no
-- state to speak of.
pub data Exec (ext : External) (A : Type 0) : Type 0 where
  ok : A → StateDb ext.trie → Exec ext A
  err : ExecError → StateDb ext.trie → Exec ext A
  panic : Exec ext A

module _ {ext : External} where
  infixl 5 ◌>>=◌
  abbrev pub ◌>>=◌ : {A B : Type 0} → Exec ext A → (A → StateDb ext.trie → Exec ext B) → Exec ext B
  ok a s >>= f = f a s
  err e s >>= f = err e s
  panic >>= f = panic

  -- A method of `Balance` inside the executor.
  abbrev pub lift : Option (StateDb ext.trie) → Exec ext (Unit {0})
  lift none = panic
  lift (some s) = ok tt s

-- `transfer_fee`
abbrev pub transfer_fee : ℕ
transfer_fee = 10000

module _ (ext : External) where
  -- What follows the checks: the fee, the nonce, the transfer itself.
  pub charge : Address → Address → ℕ → StateDb ext.trie → Exec ext (Unit {0})
  charge from_addr to_addr value s = lift (sub_balance ext from_addr transfer_fee s) >>= λ _ s₁.
      lift (inc_nonce ext from_addr s₁) >>= λ _ s₂. lift (transfer ext from_addr to_addr value s₂)

  -- `Executor::exc_transfer_tx`, whose result is always the zero hash.
  pub exc_transfer_tx : Transaction → StateDb ext.trie → Exec ext (Unit {0})
  unfolding charge
  exc_transfer_tx tx s = elim (ext.codecs.transfer.deserialize tx.payload) [
    | none ↦ panic
    | some msg ↦
        if not (verify_sign ext tx)
        then err invalid_signature s
        else elim (load_account ext s tx.sender) [
          | none ↦ panic
          | some from_account ↦
              if not (tx.nonce == (from_account.nonce + 1) % u64)
              then err invalid_tx_nonce s
              else if ltb from_account.balance (add128 msg.value transfer_fee)
              then err balance_not_enough s
              else charge tx.sender msg.receiver msg.value s
        ]
  ]

  -- The loop of `exc_txs_in_block`.
  pub exc_txs : Address → List Transaction → StateDb ext.trie → Exec ext (Unit {0})
  exc_txs miner [] s = ok tt s
  exc_txs miner (tx ∷ txs) s = exc_transfer_tx tx s >>= λ _ s₁.
      lift (add_balance ext miner transfer_fee s₁) >>= λ _ s₂. exc_txs miner txs s₂

  -- `Executor::exc_txs_in_block`
  unfoldable pub exc_txs_in_block : Block → Address → StateDb ext.trie → Exec ext Hash
  unfolding exc_txs exc_transfer_tx
  exc_txs_in_block b miner s = exc_txs miner b.txs s >>= λ _ s₁. elim (commit_balance ext s₁) [
    | none ↦ panic
    | some (s₂, root) ↦ ok root s₂
  ]
